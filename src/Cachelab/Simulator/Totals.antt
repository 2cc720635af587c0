-- ===== src/Cachelab/Simulator/Totals.antt =====
-- The counts that `operate` of cachelab_code/simulator.c leaves for the summary.
use csapp_lab_code.Base.{
  ℕ, ◌+◌, ◌<◌, ◌≡◌, ◌∙◌, Option, none, some, List, [], length, get_elem?-lt, get_elem?-set_self,
  get_or-set_self, set, find_index, find_index-hit, find_index-some, arith, ap,
}
use csapp_lab_code.Cachelab.Cache.{CacheLine, Cache}
use csapp_lab_code.Cachelab.OpParser.{OpInfo, OpType, instruct, load, store, modify, unknown}
use csapp_lab_code.Cachelab.Simulator.{
  read, write, Machine, Simulator, Counts, set_at, touch, operate, run,
}
use csapp_lab_code.Cachelab.Simulator.Search.{matches}
use csapp_lab_code.Cachelab.Simulator.Access.{IsFresh, access-hit}
use csapp_lab_code.Cachelab.Simulator.Lru.{
  IsReady, Touched, was_hit, was_cold, was_conflict, touch-Touches,
}

-- The number of accesses that a kind of operation counts.
abbrev weight : OpType → ℕ
weight instruct = 0
weight load = 1
weight store = 1
weight modify = 2
weight unknown = 0

abbrev pub accesses : Counts → ℕ
accesses c = c.hits + c.cold + c.conflict

abbrev absent : Option ℕ → ℕ
absent none = 1
absent (some i) = 0

-- The number of its accesses that miss, given the line that holds the block before it, if one does.
abbrev misses : OpType → Option ℕ → ℕ
misses load held = absent held
misses store held = absent held
misses modify held = absent held
misses _ held = 0

-- `n` more accesses are counted, all but `missed` of them as hits, and an eviction for each conflict miss.
abbrev pub Adds : ℕ → ℕ → Counts → Counts → Type 0
Adds n missed c c' =
    (accesses c' ≡ accesses c + n)
    × (c'.hits + missed ≡ c.hits + n)
    × (c'.evictions + c.conflict ≡ c.evictions + c'.conflict)

fresh_found :
    (tag order i : ℕ) (L : List CacheLine) (line : CacheLine)
    → i < length L
    → IsFresh tag order line
    → (k : ℕ) × (find_index (matches tag) (set L i line) ≡ some k)
fresh_found tag order i L line h fresh =
    let (k, found, le) =
      find_index-hit (matches tag) (set L i line) i (get_elem?-set_self L i line h)
        (ground (arith, fresh.0, fresh.1)) in
    (k, found)

-- After an access the block is in the set, and one more access is counted.
Touched-Adds :
    {tag order : ℕ} {L L' : List CacheLine} {c c' : Counts}
    → Touched tag order L c L' c'
    → ((k : ℕ) × (find_index (matches tag) L' ≡ some k))
      × Adds 1 (absent (find_index (matches tag) L)) c c'
Touched-Adds {tag} {order} {L} (was_hit i line e to fresh cnt) =
    let inside = (find_index-some (matches tag) L i e) in
    (
      rw to (fresh_found tag order i L line (get_elem?-lt L i (inside.1)) fresh),
      rw (cnt, e) (omega arith, omega arith, omega arith),
    )
Touched-Adds {tag} {order} {L} (was_cold i old line e at inv to fresh cnt) = (
  rw to (fresh_found tag order i L line (get_elem?-lt L i at) fresh),
  rw (cnt, e) (omega arith, omega arith, omega arith),
)
Touched-Adds {tag} {order} {L} (was_conflict i old line e at valid least to fresh cnt) = (
  rw to (fresh_found tag order i L line (get_elem?-lt L i at) fresh),
  rw (cnt, e) (omega arith, omega arith, omega arith),
)

-- An operation on a set that is in the cache and has a line, whose orders of access are not above
-- the simulator's, which is not about to wrap, counts its accesses: none for an instruction fetch
-- or an unknown character, one for a load or a store, two for a modification. All of them are hits
-- if the block is in the set; if it is not, the first is a miss, and the second of a modification
-- is a hit. One eviction is counted for each conflict miss.
pub operate-Adds :
    (op : OpInfo) (reg mem : List ℕ) (sim : Simulator) (cache : Cache)
    → IsReady op sim cache
    → Adds
        (weight (op.optype))
        (misses (op.optype) (find_index (matches (op.tag)) (set_at cache (op.set_index))))
        (sim.state_cnt)
        ((operate op reg mem sim cache).0.sim.state_cnt)
unfolding operate
operate-Adds op reg mem sim cache ready = go (op.optype)
  where
    start : Machine
    start = record { sim = sim; cache = cache; reg = reg; mem = mem }

    held : Option ℕ
    held = find_index (matches (op.tag)) (set_at cache (op.set_index))

    go :
        (t : OpType)
        → Adds (weight t) (misses t held) (sim.state_cnt) ((run t op start).0.sim.state_cnt)
    go instruct = (omega arith, omega arith, omega arith)
    go load = (Touched-Adds ((touch-Touches op read start ready).2)).1
    go store = (Touched-Adds ((touch-Touches op write start ready).2)).1
    go modify =
        let m = (touch op read start).0 in
        let (L', put, touched, grows, ordered, single) = touch-Touches op read start ready in
        let ((k, found), one) = Touched-Adds touched in
        let sets =
          ap (λ c. set_at c (op.set_index)) put
          ∙ get_or-set_self (cache.cache_set) (op.set_index) [] L' (ready.0) in
        let (line, put', fresh, counted) =
          access-hit op write m k (ap (find_index (matches (op.tag))) sets ∙ found) in
        rw (counted.0, counted.1) (omega (arith, one.0), omega (arith, one.1), omega (arith, one.2))
    go unknown = (omega arith, omega arith, omega arith)
