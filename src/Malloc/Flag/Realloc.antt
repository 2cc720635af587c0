-- ===== src/Malloc/Flag/Realloc.antt =====
-- The flag `freetree_is_reallocating` of malloclab_code/mm.c while `mm_realloc` looks for a place.
use csapp_lab_code.Base.{
  ℕ, zero, suc, ◌+◌, ◌-◌, ◌*◌, ◌/◌, ◌%◌, ◌^◌, ◌≡◌, refl, ◌∙◌, Bool, true, false, not, ltb, leb,
  ◌&&◌, ◌==◌, if◌then◌else◌, Bool-cases, inl, inr,
}
use csapp_lab_code.Malloc.Memory.{
  Heap, store, load, ptr_add, ptr_back, copy_units, copy_bytes, null, node_not_exist, address_mod,
}
use csapp_lab_code.Malloc.Block.{block_size, block_node_offset, block_next_header}
use csapp_lab_code.Malloc.FreeTree.{freetree_delete_node}
use csapp_lab_code.Malloc.Setup.{
  block_setup_new_allocated, block_bind_freed_with_existed_node, block_tryget_previous_available,
  block_tryget_next_available,
}
use csapp_lab_code.Malloc.Adopt.{
  Adopted, move_back, adopt, adopt_previous, adopt_both, place_adopted,
}
use csapp_lab_code.Malloc.Flag.{flag, flag_if, flag-delete, flag-allocated, flag-bind}

flag-units : (n dst src : ℕ) (h : Heap) → flag (copy_units n dst src h) ≡ flag h
unfolding copy_units
flag-units zero dst src h = refl
flag-units (suc n) dst src h =
    flag-units n (ptr_add dst 1) (ptr_add src 1) (store dst (load h src) h)

pub flag-copy : (dst src n : ℕ) (h : Heap) → flag (copy_bytes dst src n h) ≡ flag h
unfolding copy_bytes
flag-copy dst src n h =
    let h' = copy_units (n / 8) dst src h in
    let d = ptr_add dst (n / 8) in
    let s = ptr_add src (n / 8) in
    let part = 256 ^ (n % 8) in
    let same = flag-units (n / 8) dst src h in
    flag_if (n % 8 == 0) h' (store d (load h' d / part * part + load h' s % part) h') (flag h) same
      same

-- The memory of what is found.
adopted_if :
    (b : Bool) (x y : Adopted) (v : Bool)
    → flag (x.heap) ≡ v
    → flag (y.heap) ≡ v
    → flag ((if b then x else y).heap) ≡ v
adopted_if true x y v e e' = e
adopted_if false x y v e e' = e'

flag-previous :
    (prev next ptr header size : ℕ) (h : Heap)
    → flag ((adopt_previous prev next ptr header size h).heap) ≡ flag h
unfolding adopt_previous
flag-previous prev next ptr header size h =
    let next_offset = if next == null then node_not_exist else block_node_offset h next in
    let h1 = move_back prev ptr size h in
    let same : flag h1 ≡ flag h = flag-copy (ptr_add prev 1) ptr size h in
    adopted_if (next_offset == node_not_exist) _ _ (flag h) same
      (flag-delete (ptr_add h1.freetree_root_ptr next_offset) h1 ∙ same)

flag-both :
    (prev next ptr header size : ℕ) (h : Heap)
    → flag ((adopt_both prev next ptr header size h).heap) ≡ flag h
unfolding adopt_both
flag-both prev next ptr header size h =
    let next_offset = block_node_offset h next in
    let h1 = move_back prev ptr size h in
    let same : flag h1 ≡ flag h = flag-copy (ptr_add prev 1) ptr size h in
    let h2 = freetree_delete_node (ptr_add h1.freetree_root_ptr next_offset) h1 in
    flag_if (next_offset == node_not_exist) h1 h2 (flag h) same
      (flag-delete (ptr_add h1.freetree_root_ptr next_offset) h1 ∙ same)

pub flag-adopt :
    (ptr new_size size : ℕ) (h : Heap) → flag ((adopt ptr new_size size h).heap) ≡ flag h
unfolding adopt
flag-adopt ptr new_size size h =
    let header = ptr_back ptr in
    let next = block_tryget_next_available header h in
    let prev = block_tryget_previous_available header h in
    let own = block_size h header in
    let b1 = ltb new_size own in
    let b2 = not (next == null) && leb new_size ((block_size h next + own) % address_mod) in
    let b3 =
      not (prev == null)
      && leb (block_size h prev) new_size
      && leb new_size ((block_size h prev + own) % address_mod) in
    let b4 =
      not (prev == null)
      && not (next == null)
      && leb new_size ((block_size h prev + block_size h next + own) % address_mod) in
    elim (Bool-cases b1) [
      | inl e1 ↦ rw (e1) (flag-allocated header new_size h)
      | inr e1 ↦ elim (Bool-cases b2) [
        | inl e2 ↦ rw (e1, e2) refl
        | inr e2 ↦ elim (Bool-cases b3) [
          | inl e3 ↦ rw (e1, e2, e3) (flag-previous prev next ptr header size h)
          | inr e3 ↦ elim (Bool-cases b4) [
            | inl e4 ↦ rw (e1, e2, e3, e4) (flag-both prev next ptr header size h)
            | inr e4 ↦ rw (e1, e2, e3, e4) refl
          ]
        ]
      ]
    ]

pub flag-place : (new_size : ℕ) (a : Adopted) → flag (place_adopted new_size a) ≡ flag (a.heap)
unfolding place_adopted
flag-place new_size a =
    let h = block_setup_new_allocated (a.header) new_size (a.heap) in
    let freed = (a.bytes + (address_mod - new_size)) % address_mod in
    let bound =
      block_bind_freed_with_existed_node (block_next_header h (a.header)) freed (a.node) h in
    let unbound = if a.node == node_not_exist then h else freetree_delete_node (a.node) h in
    let same = flag-allocated (a.header) new_size (a.heap) in
    flag_if (freed == 0) unbound bound (flag (a.heap))
      (flag_if (a.node == node_not_exist) h (freetree_delete_node (a.node) h) (flag (a.heap)) same
        (flag-delete (a.node) h ∙ same))
      (flag-bind (block_next_header h (a.header)) freed (a.node) h ∙ same)
