-- ===== src/Malloc/Adopt.antt =====
-- The search of `mm_realloc` in malloclab_code/mm.c for a place: the block itself, the next block, the
-- previous one, or both.
use csapp_lab_code.Base.{ℕ, ◌+◌, ◌-◌, ◌%◌, not, ltb, leb, ◌&&◌, ◌==◌, if◌then◌else◌}
use csapp_lab_code.Malloc.Memory.{
  Heap, ptr_add, ptr_back, address_mod, null, node_not_exist, align, copy_bytes,
}
use csapp_lab_code.Malloc.Block.{block_size, block_node_offset, block_node_ptr, block_next_header}
use csapp_lab_code.Malloc.FreeTree.{freetree_delete_node}
use csapp_lab_code.Malloc.Setup.{
  block_tryget_previous_available, block_tryget_next_available, block_setup_new_allocated,
  block_bind_freed_with_existed_node,
}

-- `mm_malloc` and `mm_realloc` align the size with a header and the status byte of a footer.
abbrev pub request_size : ℕ → ℕ
request_size size = align ((size + 9) % address_mod)

-- What `mm_realloc` has found before it writes the new block: the block's header, or NULL, the bytes
-- that it adopts, and the node for the rest.
pub record Adopted : Type 0 where
  pub header : ℕ
  pub bytes : ℕ
  pub node : ℕ
  pub heap : Heap

-- `if(freetree_is_reallocating) freetree_root_ptr = p`
abbrev pub move_root : ℕ → Heap → Heap
move_root p h = record h {
  freetree_root_ptr = if h.is_reallocating then p else h.freetree_root_ptr;
}

-- The data goes to the previous block, and the tree with it, if it is the data.
abbrev pub move_back : ℕ → ℕ → ℕ → Heap → Heap
move_back prev ptr copy_size h =
    move_root (ptr_add prev 1) (copy_bytes (ptr_add prev 1) ptr copy_size h)

-- Case 2 of `mm_realloc`: the previous block and, if there is one, the next.
unfoldable pub adopt_previous : ℕ → ℕ → ℕ → ℕ → ℕ → Heap → Adopted
adopt_previous prev next ptr header copy_size h =
    let sum = (block_size h prev + block_size h header) % address_mod in
    let prev_offset = block_node_offset h prev in
    let next_offset = if next == null then node_not_exist else block_node_offset h next in
    let h1 = move_back prev ptr copy_size h in
    let prev_node = ptr_add h1.freetree_root_ptr prev_offset in
    let next_node = ptr_add h1.freetree_root_ptr next_offset in
    if next_offset == node_not_exist
    then record { header = prev; bytes = sum; node = prev_node; heap = h1 }
    else record {
      header = prev;
      bytes = (sum + block_size h1 next) % address_mod;
      node = prev_node;
      heap = freetree_delete_node next_node h1;
    }

-- Case 3: the blocks on both sides.
unfoldable pub adopt_both : ℕ → ℕ → ℕ → ℕ → ℕ → Heap → Adopted
adopt_both prev next ptr header copy_size h =
    let sum = (block_size h prev + block_size h next + block_size h header) % address_mod in
    let prev_offset = block_node_offset h prev in
    let next_offset = block_node_offset h next in
    let h1 = move_back prev ptr copy_size h in
    let next_node = ptr_add h1.freetree_root_ptr next_offset in
    record {
      header = prev;
      bytes = sum;
      node = ptr_add h1.freetree_root_ptr prev_offset;
      heap = if next_offset == node_not_exist then h1 else freetree_delete_node next_node h1;
    }

-- The search of `mm_realloc` for a place of `new_size` bytes, where the size changes.
unfoldable pub adopt : ℕ → ℕ → ℕ → Heap → Adopted
unfolding adopt_previous adopt_both
adopt ptr new_size copy_size h =
    let header = ptr_back ptr in
    let own = block_size h header in
    let next = block_tryget_next_available header h in
    let prev = block_tryget_previous_available header h in
    if ltb new_size own
    then record {
      header = header;
      bytes = own;
      node = node_not_exist;
      heap = block_setup_new_allocated header new_size h;
    }
    else if not (next == null) && leb new_size ((block_size h next + own) % address_mod)
    then record {
      header = header;
      bytes = (block_size h next + own) % address_mod;
      node = block_node_ptr h next;
      heap = h;
    }
    else if not (prev == null)
        && leb (block_size h prev) new_size
        && leb new_size ((block_size h prev + own) % address_mod)
    then adopt_previous prev next ptr header copy_size h
    else if not (prev == null)
        && not (next == null)
        && leb new_size ((block_size h prev + block_size h next + own) % address_mod)
    then adopt_both prev next ptr header copy_size h
    else record { header = null; bytes = own; node = node_not_exist; heap = h }

-- The block is written, and what is left of the bytes bound to the tree.
unfoldable pub place_adopted : ℕ → Adopted → Heap
place_adopted new_size a =
    let h = block_setup_new_allocated a.header new_size a.heap in
    let freed = (a.bytes + (address_mod - new_size)) % address_mod in
    let bound = block_bind_freed_with_existed_node (block_next_header h a.header) freed a.node h in
    let unbound = if a.node == node_not_exist then h else freetree_delete_node a.node h in
    if freed == 0 then unbound else bound
