-- ===== src/Cachelab/Simulator/Orders.antt =====
-- The orders of access in a set of cachelab_code/simulator.c, with one line written.
use csapp_lab_code.Base.{ℕ, ◌≤◌, ◌<◌, ◌≡◌, some, List, length, get_elem?, get_elem?-set, set, arith}
use csapp_lab_code.Cachelab.Cache.{CacheLine}

-- The orders of access in a set are not above the simulator's.
abbrev pub IsOrdered : ℕ → List CacheLine → Type 0
IsOrdered order L = (j : ℕ) (l : CacheLine) → get_elem? L j ≡ some l → l.access_order ≤ order

-- At most one line has the order.
abbrev pub OneAt : ℕ → List CacheLine → Type 0
OneAt order L =
    (j k : ℕ) (a b : CacheLine)
    → get_elem? L j ≡ some a
    → get_elem? L k ≡ some b
    → a.access_order ≡ order
    → b.access_order ≡ order
    → j ≡ k

-- A line is written with an order that is not below the others.
pub set-IsOrdered :
    (L : List CacheLine) (i order order' : ℕ) (line : CacheLine)
    → i < length L
    → IsOrdered order L
    → order ≤ order'
    → line.access_order ≡ order'
    → IsOrdered order' (set L i line)
set-IsOrdered L i order order' line inside v grows fresh j l at =
    ground (arith, get_elem?-set L i j line inside, v j l, at)

-- Above the others, it is the only one with its order.
pub set-OneAt :
    (L : List CacheLine) (i order order' : ℕ) (line : CacheLine)
    → i < length L
    → IsOrdered order L
    → order < order'
    → OneAt order' (set L i line)
set-OneAt L i order order' line inside v grows j k a b at at' e e' =
    ground (
      arith,
      get_elem?-set L i j line inside,
      get_elem?-set L i k line inside,
      v j a,
      v k b,
      at,
      at',
    )
