-- ===== src/Malloc/Setup.antt =====
-- Free, allocated and wandering blocks of malloclab_code/mm.c: how they are written, which neighbours
-- of a block are available, and how a free block is bound to the tree. A wandering block is a free
-- unit, too small for a node.
pub mod Written
pub mod Neighbours
pub mod Replace
pub mod Bind
pub mod Insert
pub mod Free
pub mod Allocate
pub mod Allocated
pub mod Coalesce
use csapp_lab_code.Base.{ℕ, ◌+◌, ◌-◌, ◌%◌, not, ltb, ◌||◌, ◌&&◌, ◌==◌, if◌then◌else◌}
use csapp_lab_code.Malloc.Memory.{
  Heap, store, ptr_add, ptr_back, address_mod, null, node_not_exist, unit_size, out_of_heap,
}
use csapp_lab_code.Malloc.Block.{
  block_freed, block_allocated, block_wandering, is_wandering, block_status, block_size,
  footer_status, footer_is_valid, block_node_ptr, block_next_header, block_header,
  set_header_status, set_header_size, set_footer_status, set_footer_node_offset,
}
use csapp_lab_code.Malloc.FreeTree.{
  freetree_sink_node, freetree_emerge_node, freetree_delete_node, freetree_new_node,
}

unfoldable pub block_tryget_previous_available : ℕ → Heap → ℕ
block_tryget_previous_available p h =
    let footer = ptr_back p in
    if not (out_of_heap h footer) && footer_is_valid h footer
    then if footer_status h footer == block_freed
        && block_status h (block_header h footer) == block_freed
      then block_header h footer
      else if is_wandering h footer
      then footer
      else null
    else null

unfoldable pub block_tryget_next_available : ℕ → Heap → ℕ
block_tryget_next_available p h =
    let next = block_next_header h p in
    if not (out_of_heap h next) && (block_status h next == block_freed || is_wandering h next)
    then next
    else null

unfoldable pub block_setup_new_wandering : ℕ → Heap → Heap
unfolding set_header_size set_header_status set_footer_status
block_setup_new_wandering p h =
    set_footer_status p block_wandering
      (set_header_status p block_wandering (set_header_size p unit_size h))

unfoldable pub block_setup_new_allocated : ℕ → ℕ → Heap → Heap
unfolding set_header_size set_header_status set_footer_status
block_setup_new_allocated p size h =
    set_footer_status p block_allocated
      (set_header_status p block_allocated (set_header_size p size h))

unfoldable pub block_setup_new_freed : ℕ → ℕ → ℕ → Heap → Heap
unfolding set_header_size set_header_status set_footer_status set_footer_node_offset
block_setup_new_freed p size node h =
    let h1 = set_header_status p block_freed (set_header_size p size h) in
    store node p (set_footer_status p block_freed (set_footer_node_offset p node h1))

abbrev pub lowest_address : ℕ → ℕ → ℕ
lowest_address a b = if ltb a b then a else b

abbrev pub highest_address : ℕ → ℕ → ℕ
highest_address a b = if ltb a b then b else a

-- The node, or a new one where there is none.
abbrev pub node_or_new : ℕ → Heap → ℕ × Heap
node_or_new node h = if node == node_not_exist then freetree_new_node h else (node, h)

unfoldable pub block_coalesce_two : ℕ → ℕ → Heap → Heap
unfolding block_setup_new_freed
block_coalesce_two new_freed another h =
    let new_size = (block_size h new_freed + block_size h another) % address_mod in
    let (node, h1) = node_or_new (block_node_ptr h another) h in
    let h2 = block_setup_new_freed (lowest_address another new_freed) new_size node h1 in
    freetree_emerge_node node h2

unfoldable pub block_coalesce_three : ℕ → ℕ → ℕ → Heap → Heap
unfolding block_setup_new_freed
block_coalesce_three new_freed prev next h =
    let node1 = block_node_ptr h prev in
    let node2 = block_node_ptr h next in
    let deleted = highest_address node1 node2 in
    let new_size = (block_size h new_freed + block_size h prev + block_size h next) % address_mod in
    let (node, h1) = node_or_new (lowest_address node1 node2) h in
    let h2 = freetree_emerge_node node (block_setup_new_freed prev new_size node h1) in
    if deleted == node_not_exist then h2 else freetree_delete_node deleted h2

-- The last part of `block_bind_freed_with_existed_node`.
abbrev pub bind_to_node : ℕ → ℕ → ℕ → Heap → Heap
bind_to_node p size node h =
    freetree_sink_node node (freetree_emerge_node node (block_setup_new_freed p size node h))

unfoldable pub block_bind_freed_with_existed_node : ℕ → ℕ → ℕ → Heap → Heap
unfolding block_setup_new_freed block_setup_new_wandering
block_bind_freed_with_existed_node p size node h =
    if node == node_not_exist
    then if size == unit_size
      then block_setup_new_wandering p h
      else bind_to_node p size (freetree_new_node h).0 (freetree_new_node h).1
    else if size == 0
    then freetree_delete_node node h
    else if size == unit_size
    then block_setup_new_wandering p (freetree_delete_node node h)
    else bind_to_node p size node h

-- The pointer for the user, and the memory with the rest of the free block.
unfoldable pub block_allocate : ℕ → ℕ → Heap → ℕ × Heap
unfolding block_setup_new_allocated block_bind_freed_with_existed_node
block_allocate p size h =
    let node = block_node_ptr h p in
    let right_bound = block_next_header h p in
    let h1 = block_setup_new_allocated p size h in
    let new_header = block_next_header h1 p in
    let new_size = (right_bound + (address_mod - new_header)) % address_mod in
    (
      ptr_add p 1,
      if new_size == 0
          then freetree_delete_node node h1
          else block_bind_freed_with_existed_node new_header new_size node h1,
    )

-- The branches of `mm_free`, for the available neighbours or NULL.
unfoldable pub merge_or_insert : ℕ → ℕ → ℕ → Heap → Heap
merge_or_insert header prev next h =
    let valid_one = if prev == null then next else prev in
    let (node, h1) = freetree_new_node h in
    if not (prev == null) && not (next == null)
    then block_coalesce_three header prev next h
    else if not (valid_one == null)
    then block_coalesce_two header valid_one h
    else freetree_emerge_node node (block_setup_new_freed header (block_size h header) node h1)

-- The part of `mm_free` before the capacity is looked at.
unfoldable pub free_block : ℕ → Heap → Heap
unfolding merge_or_insert
free_block ptr h =
    let header = ptr_back ptr in
    let prev = block_tryget_previous_available header h in
    let next = block_tryget_next_available header h in merge_or_insert header prev next h
