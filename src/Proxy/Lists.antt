-- ===== src/Proxy/Lists.antt =====
-- The circular doubly linked lists of proxylab_code/util.c on a memory of nodes. NULL is 0; the address of
-- a new node is what `malloc` returns, and `free` is noted.
pub mod Ring
pub mod Insert
pub mod Remove
pub mod Tests
use csapp_lab_code.Base.{
  ℕ, zero, suc, Bool, ◌&&◌, Option, none, some, List, [], ◌∷◌, ◌==◌, if◌then◌else◌,
}

-- The fields of the nodes, by their address.
pub record Nodes : Type 0 where
  pub p_elem : ℕ → ℕ
  pub p_prev : ℕ → ℕ
  pub p_next : ℕ → ℕ
  pub freed : List ℕ

abbrev pub put_field : (ℕ → ℕ) → ℕ → ℕ → ℕ → ℕ
put_field f p v q = if p == q then v else f q

abbrev pub set_elem : ℕ → ℕ → Nodes → Nodes
set_elem p e h = record h { p_elem = put_field h.p_elem p e }

abbrev pub set_prev : ℕ → ℕ → Nodes → Nodes
set_prev p q h = record h { p_prev = put_field h.p_prev p q }

abbrev pub set_next : ℕ → ℕ → Nodes → Nodes
set_next p q h = record h { p_next = put_field h.p_next p q }

abbrev pub free_node : ℕ → Nodes → Nodes
free_node p h = record h { freed = p ∷ h.freed }

unfoldable pub list_init : ℕ → Nodes → Nodes
list_init p h = set_next p p (set_prev p p (set_elem p 0 h))

-- `new` is the address of the new node.
unfoldable pub list_insert : ℕ → ℕ → ℕ → Nodes → Nodes
list_insert new p e h =
    let h1 = set_prev new p (set_elem new e h) in
    let h2 = set_next new (h1.p_next p) h1 in
    let h3 = set_prev (h2.p_next new) new h2 in set_next p new h3

unfoldable pub list_empty : ℕ → Nodes → Bool
list_empty p h = (h.p_prev p == p) && (h.p_next p == p)

unfoldable pub list_remove : ℕ → Nodes → Nodes
list_remove p h =
    let h1 = set_next (h.p_prev p) (h.p_next p) h in
    let h2 = set_prev (h1.p_next p) (h1.p_prev p) h1 in free_node p h2

-- The loop of `list_free`; `none`: more nodes than the fuel.
unfoldable pub free_loop : ℕ → ℕ → Nodes → Option Nodes
free_loop zero p h = if p == 0 then some h else none
free_loop (suc fuel) p h =
    let rest = free_loop fuel (h.p_next p) (free_node p h) in if p == 0 then some h else rest

unfoldable pub list_free : ℕ → ℕ → Nodes → Option Nodes
unfolding free_loop
list_free fuel p h = free_loop fuel p (set_next (h.p_prev p) 0 h)

unfoldable pub list_get_first : ℕ → Nodes → ℕ
list_get_first p h = h.p_next p

unfoldable pub list_get_last : ℕ → Nodes → ℕ
list_get_last p h = h.p_prev p

-- The loop over a list in proxylab_code/cache.c: the elements from a node up to the head.
unfoldable pub elements_from : ℕ → ℕ → ℕ → Nodes → Option (List ℕ)
elements_from zero head p h = if p == head then some [] else none
elements_from (suc fuel) head p h =
    let rest : Option (List ℕ) = elim (elements_from fuel head (h.p_next p) h) [
      | none ↦ none
      | some es ↦ some (h.p_elem p ∷ es)
    ] in
    if p == head then some [] else rest
