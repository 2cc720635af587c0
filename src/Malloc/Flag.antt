-- ===== src/Malloc/Flag.antt =====
-- The flag `freetree_is_reallocating` of malloclab_code/mm.c: no routine on blocks and on the tree
-- changes it.
pub mod Realloc
use csapp_lab_code.Base.{
  ℕ, zero, suc, ◌+◌, ◌-◌, ◌*◌, ◌/◌, ◌%◌, ◌≡◌, refl, ap, ◌∙◌, Bool, true, false, not, ltb, leb, ◌&&◌,
  ◌==◌, if◌then◌else◌, Bool-cases, inl, inr,
}
use csapp_lab_code.Malloc.Memory.{
  address_mod, ptr_back, Heap, store, load, ptr_add, copy_units, copy_bytes, null, node_not_exist,
  unit_size,
}
use csapp_lab_code.Malloc.Block.{
  block_node_ptr, block_size, block_next_header, set_footer_node_offset, set_footer_status,
  set_header_size, set_header_status,
}
use csapp_lab_code.Malloc.FreeTree.{
  freetree_swap_nodes, sink_choice, sink_loop, freetree_sink_node, emerge_loop,
  freetree_emerge_node, parent_of_node, freetree_delete_node, drop_last_node, freetree_new_node,
  tree_end,
}
use csapp_lab_code.Malloc.Setup.{
  lowest_address, highest_address, block_setup_new_wandering, block_setup_new_allocated,
  block_setup_new_freed, node_or_new, block_coalesce_two, block_coalesce_three, bind_to_node,
  block_bind_freed_with_existed_node, block_allocate, merge_or_insert, free_block,
  block_tryget_previous_available, block_tryget_next_available,
}
use csapp_lab_code.Malloc.Adopt.{Adopted, adopt, adopt_previous, adopt_both, place_adopted}

abbrev pub flag : Heap → Bool
flag h = h.is_reallocating

pub flag_if :
    (b : Bool) (x y : Heap) (v : Bool) → flag x ≡ v → flag y ≡ v → flag (if b then x else y) ≡ v
flag_if true x y v e e' = e
flag_if false x y v e e' = e'

flag-sync : (p node : ℕ) (h : Heap) → flag (set_footer_node_offset p node h) ≡ flag h
unfolding set_footer_node_offset
flag-sync p node h = refl

flag-swap : (a b : ℕ) (h : Heap) → flag (freetree_swap_nodes a b h) ≡ flag h
unfolding freetree_swap_nodes
flag-swap a b h = flag-sync _ b _ ∙ flag-sync _ a _

flag-sink : (fuel curr : ℕ) (h : Heap) → flag (sink_loop fuel curr h) ≡ flag h
unfolding sink_loop
flag-sink zero curr h = refl
flag-sink (suc fuel) curr h =
    flag_if (ltb curr (tree_end h)) _ h (flag h)
      (flag_if (curr == sink_choice curr h) h _ (flag h) refl
        (flag-sink fuel (sink_choice curr h) _ ∙ flag-swap curr (sink_choice curr h) h))
      refl

flag-emerge : (fuel curr : ℕ) (h : Heap) → flag (emerge_loop fuel curr h) ≡ flag h
unfolding emerge_loop
flag-emerge zero curr h = refl
flag-emerge (suc fuel) curr h = flag_if (curr == h.freetree_root_ptr) h _ (flag h) refl (
    flag_if _ _ h (flag h)
      (flag-emerge fuel (parent_of_node h curr) _ ∙ flag-swap curr (parent_of_node h curr) h) refl)

flag-emerge_node : (node : ℕ) (h : Heap) → flag (freetree_emerge_node node h) ≡ flag h
unfolding freetree_emerge_node
flag-emerge_node node h = flag-emerge (h.freetree_node_end_offset) node h

flag-sink_node : (node : ℕ) (h : Heap) → flag (freetree_sink_node node h) ≡ flag h
unfolding freetree_sink_node
flag-sink_node node h = flag-sink (h.freetree_node_end_offset) node h

pub flag-delete : (node : ℕ) (h : Heap) → flag (freetree_delete_node node h) ≡ flag h
unfolding freetree_delete_node
flag-delete node h =
    let last = ptr_back (tree_end h) in
    let h1 = store node (load h last) h in
    let h2 = drop_last_node (set_footer_node_offset (load h1 node) node h1) in
    flag_if (node == last) (drop_last_node h)
      (freetree_emerge_node node (freetree_sink_node node h2)) (flag h) refl
      (flag-emerge_node node (freetree_sink_node node h2)
        ∙ flag-sink_node node h2
        ∙ flag-sync (load h1 node) node h1)

pub flag-allocated : (p size : ℕ) (h : Heap) → flag (block_setup_new_allocated p size h) ≡ flag h
unfolding block_setup_new_allocated
flag-allocated p size h = refl

flag-wandering : (p : ℕ) (h : Heap) → flag (block_setup_new_wandering p h) ≡ flag h
unfolding block_setup_new_wandering
flag-wandering p h = refl

flag-freed : (p size node : ℕ) (h : Heap) → flag (block_setup_new_freed p size node h) ≡ flag h
unfolding block_setup_new_freed set_footer_node_offset
flag-freed p size node h = refl

flag-node_or_new : (node : ℕ) (h : Heap) → flag (node_or_new node h).1 ≡ flag h
flag-node_or_new node h = elim (Bool-cases (node == node_not_exist)) [
  | inl e ↦ rw (e) refl
  | inr e ↦ rw (e) refl
]

flag-two : (x y : ℕ) (h : Heap) → flag (block_coalesce_two x y h) ≡ flag h
unfolding block_coalesce_two
flag-two x y h =
    let out = node_or_new (block_node_ptr h y) h in
    let size = (block_size h x + block_size h y) % address_mod in
    let start = lowest_address y x in
    flag-emerge_node (out.0) (block_setup_new_freed start size (out.0) (out.1))
    ∙ flag-freed start size (out.0) (out.1)
    ∙ flag-node_or_new (block_node_ptr h y) h

flag-three : (x y z : ℕ) (h : Heap) → flag (block_coalesce_three x y z h) ≡ flag h
unfolding block_coalesce_three
flag-three x y z h =
    let lowest = lowest_address (block_node_ptr h y) (block_node_ptr h z) in
    let highest = highest_address (block_node_ptr h y) (block_node_ptr h z) in
    let out = node_or_new lowest h in
    let size = (block_size h x + block_size h y + block_size h z) % address_mod in
    let h1 = block_setup_new_freed y size (out.0) (out.1) in
    let h2 = freetree_emerge_node (out.0) h1 in
    let same : flag h2 ≡ flag h =
      flag-emerge_node (out.0) h1 ∙ flag-freed y size (out.0) (out.1) ∙ flag-node_or_new lowest h in
    flag_if (highest == node_not_exist) h2 (freetree_delete_node highest h2) (flag h) same
      (flag-delete highest h2 ∙ same)

flag-bind_to : (p size node : ℕ) (h : Heap) → flag (bind_to_node p size node h) ≡ flag h
flag-bind_to p size node h =
    let h1 = block_setup_new_freed p size node h in
    flag-sink_node node (freetree_emerge_node node h1)
    ∙ flag-emerge_node node h1
    ∙ flag-freed p size node h

pub flag-bind :
    (p size node : ℕ) (h : Heap) → flag (block_bind_freed_with_existed_node p size node h) ≡ flag h
unfolding block_bind_freed_with_existed_node
flag-bind p size node h =
    let new = freetree_new_node h in
    let deleted = freetree_delete_node node h in
    flag_if (node == node_not_exist)
      (if size == unit_size
        then block_setup_new_wandering p h
        else bind_to_node p size (new.0) (new.1))
      (if size == 0
        then deleted
        else if size == unit_size
        then block_setup_new_wandering p deleted
        else bind_to_node p size node h)
      (flag h)
      (flag_if (size == unit_size) (block_setup_new_wandering p h)
        (bind_to_node p size (new.0) (new.1)) (flag h) (flag-wandering p h)
        (flag-bind_to p size (new.0) (new.1)))
      (flag_if (size == 0) deleted
        (if size == unit_size
          then block_setup_new_wandering p deleted
          else bind_to_node p size node h)
        (flag h) (flag-delete node h)
        (flag_if (size == unit_size) (block_setup_new_wandering p deleted)
          (bind_to_node p size node h) (flag h) (flag-wandering p deleted ∙ flag-delete node h)
          (flag-bind_to p size node h)))

pub flag-allocate : (p size : ℕ) (h : Heap) → flag (block_allocate p size h).1 ≡ flag h
unfolding block_allocate
flag-allocate p size h =
    let node = block_node_ptr h p in
    let h1 = block_setup_new_allocated p size h in
    let new_header = block_next_header h1 p in
    let rest = (block_next_header h p + (address_mod - new_header)) % address_mod in
    flag_if (rest == 0) (freetree_delete_node node h1)
      (block_bind_freed_with_existed_node new_header rest node h1) (flag h)
      (flag-delete node h1 ∙ flag-allocated p size h)
      (flag-bind new_header rest node h1 ∙ flag-allocated p size h)

flag-merge : (header prev next : ℕ) (h : Heap) → flag (merge_or_insert header prev next h) ≡ flag h
unfolding merge_or_insert
flag-merge header prev next h =
    let valid_one = if prev == null then next else prev in
    let new = freetree_new_node h in
    let inserted = block_setup_new_freed header (block_size h header) (new.0) (new.1) in
    flag_if (not (prev == null) && not (next == null)) (block_coalesce_three header prev next h)
      (if not (valid_one == null)
        then block_coalesce_two header valid_one h
        else freetree_emerge_node (new.0) inserted)
      (flag h) (flag-three header prev next h)
      (flag_if (not (valid_one == null)) (block_coalesce_two header valid_one h)
        (freetree_emerge_node (new.0) inserted) (flag h) (flag-two header valid_one h)
        (flag-emerge_node (new.0) inserted
          ∙ flag-freed header (block_size h header) (new.0) (new.1)))

pub flag-free : (ptr : ℕ) (h : Heap) → flag (free_block ptr h) ≡ flag h
unfolding free_block
flag-free ptr h =
    let header = ptr_back ptr in
    flag-merge header (block_tryget_previous_available header h)
      (block_tryget_next_available header h) h
