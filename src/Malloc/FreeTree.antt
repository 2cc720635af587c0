-- ===== src/Malloc/FreeTree.antt =====
-- The max-heap of free blocks in malloclab_code/mm.c: an array of pointers to headers, ordered by the
-- sizes that stand there; the footer of each block holds the place of its node.
pub mod Address
pub mod Find
pub mod Tree
pub mod Swap
pub mod Order
pub mod Sink
pub mod Emerge
pub mod Partial
pub mod Moved
pub mod Delete
pub mod Suitable
use csapp_lab_code.Base.{
  ℕ, zero, suc, ◌+◌, ◌-◌, ◌*◌, ◌%◌, ltb, leb, ◌||◌, ◌&&◌, ◌==◌, if◌then◌else◌,
}
use csapp_lab_code.Malloc.Memory.{
  Heap, load, store, ptr_add, ptr_back, ptr_diff, sar64, address_mod, null,
}
use csapp_lab_code.Malloc.Block.{block_size, set_footer_node_offset}

-- The node at an offset from the root.
abbrev pub node_at : Heap → ℕ → ℕ
node_at h i = ptr_add h.freetree_root_ptr i

abbrev pub left_son_of_node : Heap → ℕ → ℕ
left_son_of_node h node = node_at h (ptr_diff node h.freetree_root_ptr * 2 + 1)

abbrev pub right_son_of_node : Heap → ℕ → ℕ
right_son_of_node h node = node_at h (ptr_diff node h.freetree_root_ptr * 2 + 2)

abbrev pub parent_of_node : Heap → ℕ → ℕ
parent_of_node h node =
    node_at h (sar64 ((ptr_diff node h.freetree_root_ptr + (address_mod - 1)) % address_mod) 1)

-- The first address behind the nodes.
abbrev pub tree_end : Heap → ℕ
tree_end h = node_at h h.freetree_node_end_offset

-- The size of the block that a node points to.
abbrev pub node_size : Heap → ℕ → ℕ
node_size h node = block_size h (load h node)

unfoldable pub freetree_swap_nodes : ℕ → ℕ → Heap → Heap
freetree_swap_nodes a b h =
    let tmp = load h a in
    let h1 = store a (load h b) h in
    let h2 = store b tmp h1 in
    let h3 = set_footer_node_offset (load h2 a) a h2 in set_footer_node_offset (load h3 b) b h3

-- The node that a round of `freetree_sink_node` goes on to.
unfoldable pub sink_choice : ℕ → Heap → ℕ
sink_choice curr h =
    let ls = left_son_of_node h curr in
    let rs = right_son_of_node h curr in
    let next =
      if ltb ls (tree_end h) && ltb (node_size h curr) (node_size h ls) then ls else curr in
    if ltb rs (tree_end h) && ltb (node_size h next) (node_size h rs) then rs else next

-- A round goes at least to the next node, so the number of nodes is fuel enough.
unfoldable pub sink_loop : ℕ → ℕ → Heap → Heap
unfolding freetree_swap_nodes sink_choice
sink_loop zero curr h = h
sink_loop (suc fuel) curr h =
    let next = sink_choice curr h in
    let rest = sink_loop fuel next (freetree_swap_nodes curr next h) in
    if ltb curr (tree_end h) then if curr == next then h else rest else h

unfoldable pub freetree_sink_node : ℕ → Heap → Heap
unfolding sink_loop
freetree_sink_node node h = sink_loop h.freetree_node_end_offset node h

unfoldable pub emerge_loop : ℕ → ℕ → Heap → Heap
unfolding freetree_swap_nodes
emerge_loop zero curr h = h
emerge_loop (suc fuel) curr h =
    let parent = parent_of_node h curr in
    let rest = emerge_loop fuel parent (freetree_swap_nodes curr parent h) in
    if curr == h.freetree_root_ptr
    then h
    else if ltb (node_size h parent) (node_size h curr)
    then rest
    else h

-- A round halves the offset, so the number of nodes is fuel enough.
unfoldable pub freetree_emerge_node : ℕ → Heap → Heap
unfolding emerge_loop
freetree_emerge_node node h = emerge_loop h.freetree_node_end_offset node h

abbrev pub drop_last_node : Heap → Heap
drop_last_node h = record h {
  freetree_node_end_offset = (h.freetree_node_end_offset + (address_mod - 1)) % address_mod;
}

unfoldable pub freetree_delete_node : ℕ → Heap → Heap
unfolding freetree_sink_node freetree_emerge_node
freetree_delete_node node h =
    let last = ptr_back (tree_end h) in
    let h1 = store node (load h last) h in
    let h2 = drop_last_node (set_footer_node_offset (load h1 node) node h1) in
    if node == last
    then drop_last_node h
    else freetree_emerge_node node (freetree_sink_node node h2)

-- The new node, behind the others.
abbrev pub freetree_new_node : Heap → ℕ × Heap
freetree_new_node h = (
  tree_end h,
  record h { freetree_node_end_offset = (h.freetree_node_end_offset + 1) % address_mod },
)

-- The son that a round of `freetree_find_suitable_node` goes on to.
unfoldable pub find_choice : ℕ → ℕ → Heap → ℕ
find_choice size p h =
    let ls = left_son_of_node h p in
    let rs = right_son_of_node h p in
    let next = if ltb ls (tree_end h) && leb size (node_size h ls) then ls else p in
    if ltb rs (tree_end h) && leb size (node_size h rs) && leb (node_size h rs) (node_size h next)
    then rs
    else next

unfoldable pub find_loop : ℕ → ℕ → ℕ → Heap → ℕ
unfolding find_choice
find_loop zero size p h = null
find_loop (suc fuel) size p h =
    let next = find_choice size p h in
    let rest = find_loop fuel size next h in
    if ltb p (tree_end h)
    then if node_size h p == size then p else if next == p then p else rest
    else null

-- A round goes at least to the next node, so the number of nodes is fuel enough.
unfoldable pub freetree_find_suitable_node : ℕ → Heap → ℕ
unfolding find_loop
freetree_find_suitable_node size h =
    let root = h.freetree_root_ptr in
    if tree_end h == root || ltb (node_size h root) size
    then null
    else find_loop h.freetree_node_end_offset size root h
