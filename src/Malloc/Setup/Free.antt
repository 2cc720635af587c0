-- ===== src/Malloc/Setup/Free.antt =====
-- `mm_free` of malloclab_code/mm.c on a block without a free neighbour.
use csapp_lab_code.Base.{ℕ, suc, ◌+◌, ◌*◌, ◌<◌, ◌≡◌, refl, arith}
use csapp_lab_code.Malloc.Memory.{Heap, null, ptr_back}
use csapp_lab_code.Malloc.Block.Footer.{IsHeader, size_lem}
use csapp_lab_code.Malloc.FreeTree.{freetree_emerge_node, freetree_new_node}
use csapp_lab_code.Malloc.FreeTree.Tree.{IsTree, end_lem}
use csapp_lab_code.Malloc.FreeTree.Order.{IsHeap}
use csapp_lab_code.Malloc.FreeTree.Emerge.{emerge_node-IsReordered}
use csapp_lab_code.Malloc.Setup.{
  free_block, block_setup_new_freed, block_tryget_previous_available, block_tryget_next_available,
}
use csapp_lab_code.Malloc.Setup.Written.{IsPlace}
use csapp_lab_code.Malloc.Setup.Replace.{IsApart, written-IsTree}
use csapp_lab_code.Malloc.Setup.Bind.{IsReplaced, reordered-IsReplaced}
use csapp_lab_code.Malloc.Setup.Insert.{HasNewNode, new_node-IsTreeBut, new_node-IsHeapAbove}

module _ (r n : ℕ) (h : Heap) (p u : ℕ → ℕ) (tree : IsTree r n h p u) (new : HasNewNode r n p u)
    (x q : ℕ) (place : IsPlace h x q) (header : IsHeader h x q 1) where
  free_block_lem :
      block_tryget_previous_available x h ≡ null
      → block_tryget_next_available x h ≡ null
      → free_block (x + 8) h
        ≡ freetree_emerge_node
            (r + 8 * n)
            (block_setup_new_freed x (8 * q) (r + 8 * n) (freetree_new_node h).1)
  unfolding free_block
  free_block_lem no_prev no_next =
      let room = header.room in
      let back : ptr_back (x + 8) ≡ x = omega arith in
      rw (back, no_prev, no_next, size_lem x q 1 h header, end_lem r n h p u tree) refl

  -- On a tree in order and an allocated block of two units or more, apart from the tree and without
  -- an available neighbour, and with room for one more node, the freeing of the block in `mm_free`
  -- ends with a tree in order of the old blocks and the new one, each with a footer that holds the
  -- place of its node, and no other part of the memory changes.
  pub free_block-IsReplaced :
      IsApart r (suc n) n p u x q
      → IsHeap n u
      → block_tryget_previous_available x h ≡ null
      → block_tryget_next_available x h ≡ null
      → (p' : ℕ → ℕ) × (u' : ℕ → ℕ) × IsReplaced r (suc n) n h (free_block (x + 8) h) p u x q p' u'
  free_block-IsReplaced apart heap no_prev no_next =
      let h1 = (freetree_new_node h).1 in
      let place' : IsPlace h1 x q = record {
        units = place.units;
        some_unit = place.some_unit;
        room = place.room;
        header_word = place.header_word;
        footer_word = place.footer_word;
      } in
      let but = new_node-IsTreeBut r n h p u tree new in
      let lt : n < suc n = omega arith in
      let (p', u', moved, order) =
        emerge_node-IsReordered r (suc n) n _ _ _
          (written-IsTree r (suc n) n h1 p u but lt x q place' apart) lt
          (new_node-IsHeapAbove n q u heap) in
      let result =
        reordered-IsReplaced r (suc n) n h1 p u but lt x q place' apart _ p' u' moved order in
      rw (free_block_lem no_prev no_next) (
        p',
        u',
        record {
          tree = result.tree;
          order = result.order;
          same = result.same;
          frame = result.frame;
        },
      )
