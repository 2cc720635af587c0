-- ===== src/Malloc/Setup/Coalesce.antt =====
-- `mm_free` of malloclab_code/mm.c on a block with one free neighbour that is in the tree.
use csapp_lab_code.Base.{
  ℕ, ◌+◌, ◌*◌, ◌%◌, ◌^◌, ◌≤◌, ◌<◌, ◌≡◌, ◌≢◌, refl, ◌⊎◌, inl, inr, false, ◌==◌, Bool-cases, arith,
}
use csapp_lab_code.Malloc.Memory.{Heap, null, ptr_back, node_not_exist}
use csapp_lab_code.Malloc.Block.Footer.{IsHeader, size_lem}
use csapp_lab_code.Malloc.FreeTree.{freetree_emerge_node}
use csapp_lab_code.Malloc.FreeTree.Tree.{IsTree}
use csapp_lab_code.Malloc.FreeTree.Partial.{tree-IsTreeBut}
use csapp_lab_code.Malloc.FreeTree.Order.{parent, IsHeap, IsHeapAbove}
use csapp_lab_code.Malloc.FreeTree.Emerge.{emerge_node-IsReordered}
use csapp_lab_code.Malloc.Setup.{
  free_block, merge_or_insert, lowest_address, block_coalesce_two, block_setup_new_freed,
  block_tryget_previous_available, block_tryget_next_available,
}
use csapp_lab_code.Malloc.Setup.Neighbours.{tree_node_ptr_lem}
use csapp_lab_code.Malloc.Setup.Written.{IsPlace}
use csapp_lab_code.Malloc.Setup.Replace.{IsApart, replaced, written-IsTree}
use csapp_lab_code.Malloc.Setup.Bind.{IsReplaced, reordered-IsReplaced}

replaced-IsHeapAbove :
    (n i q : ℕ) (u : ℕ → ℕ) → IsHeap n u → i < n → u i ≤ q → IsHeapAbove n (replaced i q u) i
replaced-IsHeapAbove n i q u heap lt larger = record {
  order = λ k pos lt' ne.
      let t1 : (k == i) ≡ false = ground arith in
      let step = heap k pos lt' in
      rw (t1) (elim (Bool-cases (parent k == i)) [
        | inl e ↦
            let son : parent k ≡ i = ground arith in
            let own : u k ≤ u i = rw son at step in rw (e) (omega arith)
        | inr e ↦ rw (e) step
      ]);
  sons = λ k pos lt' son pos'.
      let t1 : (k == i) ≡ false = ground arith in
      let t2 : (parent i == i) ≡ false = ground arith in
      let own : u k ≤ u (parent k) = heap k pos lt' in
      let own' : u k ≤ u i = rw son at own in
      let next : u i ≤ u (parent i) = heap i pos' lt in rw (t1, t2) (omega arith);
}

module _ (r n i : ℕ) (h : Heap) (p u : ℕ → ℕ) (tree : IsTree r n h p u) (lt : i < n) (x q : ℕ)
    (header : IsHeader h x q 1) (place : IsPlace h (lowest_address (p i) x) (q + u i))
    (apart : IsApart r n i p u (lowest_address (p i) x) (q + u i)) where
  abbrev start : ℕ
  start = lowest_address (p i) x

  coalesce_lem :
      block_coalesce_two x (p i) h
      ≡ freetree_emerge_node (r + 8 * i) (block_setup_new_freed start (8 * (q + u i)) (r + 8 * i) h)
  unfolding block_coalesce_two
  coalesce_lem =
      let units = place.units in
      let room = tree.room in
      let sum : (8 * q + 8 * u i) % 2 ^ 64 ≡ 8 * (q + u i) = omega arith in
      let has_node : (r + 8 * i == node_not_exist) ≡ false = ground arith in
      rw
        (
          tree_node_ptr_lem r n i h p u tree lt,
          has_node,
          size_lem x q 1 h header,
          size_lem (p i) (u i) 0 h (tree.header i lt),
          sum,
        )
        refl

  coalesce-IsReplaced :
      IsHeap n u
      → (p' : ℕ → ℕ) × (u' : ℕ → ℕ) × IsReplaced r n i h
          (block_coalesce_two x (p i) h)
          p
          u
          start
          (q + u i)
          p'
          u'
  coalesce-IsReplaced heap =
      let but = tree-IsTreeBut r n i h p u tree in
      let (p', u', moved, order) =
        emerge_node-IsReordered r n i _ _ _
          (written-IsTree r n i h p u but lt start (q + u i) place apart) lt
          (replaced-IsHeapAbove n i (q + u i) u heap lt (omega arith)) in
      rw (coalesce_lem) (
        p',
        u',
        reordered-IsReplaced r n i h p u but lt start (q + u i) place apart _ p' u' moved order,
      )

  -- One neighbour.
  abbrev pub OneNeighbour : ℕ → Type 0
  OneNeighbour y =
      ((block_tryget_previous_available x h ≡ y) × (block_tryget_next_available x h ≡ null))
      ⊎ ((block_tryget_previous_available x h ≡ null) × (block_tryget_next_available x h ≡ y))

  merge_lem :
      p i ≢ null
      → (merge_or_insert x (p i) null h ≡ block_coalesce_two x (p i) h)
        × (merge_or_insert x null (p i) h ≡ block_coalesce_two x (p i) h)
  unfolding merge_or_insert
  merge_lem some_block =
      let test : (p i == null) ≡ false = ground arith in (rw (test, test) refl, rw (test) refl)

  free_block_lem :
      p i ≢ null → OneNeighbour (p i) → free_block (x + 8) h ≡ block_coalesce_two x (p i) h
  unfolding free_block
  free_block_lem some_block neighbour =
      let room = header.room in
      let back : ptr_back (x + 8) ≡ x = omega arith in
      let (merge_prev, merge_next) = merge_lem some_block in
      elim neighbour [
        | inl (prev, next) ↦ rw (back, prev, next) merge_prev
        | inr (prev, next) ↦ rw (back, prev, next) merge_next
      ]

  -- On a tree in order and an allocated block with one available neighbour, a block of the tree,
  -- the freeing of the block in `mm_free` ends with a tree in order, in which the neighbour has
  -- given way to one block with the sum of the sizes at the lower of both addresses, apart from the
  -- others; each footer holds the place of its node, and no other part of the memory changes.
  pub free_block_one-IsReplaced :
      IsHeap n u
      → p i ≢ null
      → OneNeighbour (p i)
      → (p' : ℕ → ℕ) × (u' : ℕ → ℕ) × IsReplaced r n i h
          (free_block (x + 8) h)
          p
          u
          start
          (q + u i)
          p'
          u'
  free_block_one-IsReplaced heap some_block neighbour =
      rw (free_block_lem some_block neighbour) (coalesce-IsReplaced heap)
