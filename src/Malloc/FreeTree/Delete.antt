-- ===== src/Malloc/FreeTree/Delete.antt =====
-- `freetree_delete_node` of malloclab_code/mm.c: the order is kept, and one node is gone.
use csapp_lab_code.Base.{
  ℕ, suc, ◌+◌, ◌*◌, ◌<◌, ◌≡◌, ◌≢◌, refl, ap, ◌∙◌, true, false, ◌==◌, Bool-cases, inl, inr, arith,
}
use csapp_lab_code.Malloc.Memory.{Heap, load, ptr_back, store}
use csapp_lab_code.Malloc.Block.{set_footer_node_offset}
use csapp_lab_code.Malloc.FreeTree.{
  drop_last_node, freetree_delete_node, freetree_sink_node, freetree_emerge_node, tree_end,
}
use csapp_lab_code.Malloc.FreeTree.Tree.{IsTree, IsReordered, reorder_trans}
use csapp_lab_code.Malloc.FreeTree.Partial.{IsTreeBut, IsFramedBut, tree-IsTreeBut}
use csapp_lab_code.Malloc.FreeTree.Order.{IsHeap}
use csapp_lab_code.Malloc.FreeTree.Moved.{
  moved, moved_from, synced, moved-IsTree, moved-frame, from_lem, from_other, moved-IsHeapBelow,
}
use csapp_lab_code.Malloc.FreeTree.Sink.{sink_node-IsReordered}
use csapp_lab_code.Malloc.FreeTree.Emerge.{emerge_node-IsReordered}

-- A tree in order with all blocks but that of node `i`.
pub record IsDeleted (r l i : ℕ) (h h' : Heap) (p u p' u' : ℕ → ℕ) : Type 0 where
  pub tree : IsTree r l h' p' u'
  pub order : IsHeap l u'
  pub from : (k : ℕ) → k < l → (m : ℕ) × (m < suc l) × (m ≢ i) × (p' k ≡ p m) × (u' k ≡ u m)
  pub to : (m : ℕ) → m < suc l → m ≢ i → (k : ℕ) × (k < l) × (p' k ≡ p m) × (u' k ≡ u m)
  pub frame : IsFramedBut r (suc l) i p u h h'

module _ (r l i : ℕ) (h : Heap) (p u : ℕ → ℕ) (tree : IsTreeBut r (suc l) i h p u) where
  last_lem : ptr_back (tree_end h) ≡ r + 8 * l
  last_lem = let room = tree.room in rw (tree.root, tree.count) (omega arith)

  delete_last_lem : i ≡ l → freetree_delete_node (r + 8 * i) h ≡ drop_last_node h
  unfolding freetree_delete_node
  delete_last_lem e =
      let test : (r + 8 * i == ptr_back (tree_end h)) ≡ true = ground (arith, last_lem) in
      rw (test) refl

  dropped : i ≡ l → IsHeap (suc l) u → IsDeleted r l i h (drop_last_node h) p u p u
  dropped e heap =
      let room = tree.room in
      let small = tree.small in
      record {
        tree = record {
          root = tree.root;
          count = rw (tree.count) (omega arith);
          room = omega arith;
          small = omega arith;
          node = λ k lt. tree.node k (omega arith) (omega arith);
          header = λ k lt.
              let header = tree.header k (omega arith) (omega arith) in
              record {
                word = header.word;
                low = header.low;
                units = header.units;
                some_unit = header.some_unit;
                room = header.room;
              };
          two = λ k lt. tree.two k (omega arith) (omega arith);
          footer = λ k lt. tree.footer k (omega arith) (omega arith);
          header_node =
              λ k m lt lt'. tree.header_node k m (omega arith) (omega arith) (omega arith);
          footer_node =
              λ k m lt lt'. tree.footer_node k m (omega arith) (omega arith) (omega arith);
          footer_header = λ k m lt lt'.
              tree.footer_header k m (omega arith) (omega arith) (omega arith) (omega arith);
          footer_footer = λ k m lt lt' ne.
              tree.footer_footer k m (omega arith) (omega arith) (omega arith) (omega arith) ne;
        };
        order = λ k pos lt. heap k pos (omega arith);
        from = λ k lt. (k, omega arith, omega arith, refl, refl);
        to = λ m lt ne. (m, omega arith, refl, refl);
        frame = λ a nodes feet. refl;
      }

  delete_other_lem :
      (lt : i < l)
      → freetree_delete_node (r + 8 * i) h
        ≡ freetree_emerge_node
            (r + 8 * i)
            (freetree_sink_node (r + 8 * i) (drop_last_node (synced r l h p u i tree lt)))
  unfolding freetree_delete_node
  delete_other_lem lt =
      let test : (r + 8 * i == ptr_back (tree_end h)) ≡ false = ground (arith, last_lem) in
      let self : (r + 8 * i == r + 8 * i) ≡ true = ground arith in
      let last : load h (ptr_back (tree_end h)) ≡ p l =
        ap (load h) last_lem ∙ tree.node l (omega arith) (omega arith) in
      let rest = λ (v : ℕ) (g : Heap). freetree_emerge_node (r + 8 * i) (
        freetree_sink_node (r + 8 * i) (drop_last_node (set_footer_node_offset v (r + 8 * i) g))) in
      let pointer : load (store (r + 8 * i) (p l) h) (r + 8 * i) ≡ p l = rw (self) refl in
      rw (test) (
        ap (λ v. rest (load (store (r + 8 * i) v h) (r + 8 * i)) (store (r + 8 * i) v h)) last
        ∙ ap (λ v. rest v (store (r + 8 * i) (p l) h)) pointer)

  deleted :
      (lt : i < l) (h' : Heap) (p' u' : ℕ → ℕ)
      → IsReordered r l
          (drop_last_node (synced r l h p u i tree lt))
          h'
          (moved l i p)
          (moved l i u)
          p'
          u'
      → IsHeap l u'
      → IsDeleted r l i h h' p u p' u'
  deleted lt h' p' u' whole heap = record {
    tree = whole.tree;
    order = heap;
    from = λ k lt_k.
        let (m, lt_m, e, e') = whole.same.from k lt_k in
        (moved_from l i m, from_lem r l h p u i tree lt m lt_m, ground arith, e, e');
    to = λ m lt_m ne. elim (Bool-cases (m == l)) [
      | inl b ↦
          let is_last : m ≡ l = ground arith in
          let (k, lt_k, e, e') = whole.same.to i lt in
          let place : moved_from l i i ≡ m = ground arith in
          (k, lt_k, e ∙ ap p place, e' ∙ ap u place)
      | inr b ↦
          let (k, lt_k, e, e') = whole.same.to m (ground arith) in
          let place : moved_from l i m ≡ m = ground arith in
          (k, lt_k, e ∙ ap p place, e' ∙ ap u place)
    ];
    frame = λ a nodes feet.
        whole.frame a (λ k lt_k. nodes k (omega arith))
          (λ k lt_k.
            feet (moved_from l i k) (from_lem r l h p u i tree lt k lt_k)
              (from_other r l h p u i tree lt k))
        ∙ moved-frame r l h p u i tree lt a nodes feet;
  }

  -- Also where the block of the node is written anew.
  pub delete_but-IsDeleted :
      i < suc l
      → IsHeap (suc l) u
      → (p' : ℕ → ℕ) × (u' : ℕ → ℕ) × IsDeleted r l i h
          (freetree_delete_node (r + 8 * i) h)
          p
          u
          p'
          u'
  delete_but-IsDeleted lt heap = elim (Bool-cases (i == l)) [
    | inl e ↦
        let is_last : i ≡ l = ground arith in
        rw (delete_last_lem is_last) (p, u, dropped is_last heap)
    | inr e ↦
        let below : i < l = ground arith in
        let g = drop_last_node (synced r l h p u i tree below) in
        let (p1, u1, sunk, above) =
          sink_node-IsReordered r l i i g _ _ (moved-IsTree r l h p u i tree below) below (inr refl)
            (moved-IsHeapBelow l i u heap below) in
        let (p2, u2, emerged, heap') =
          emerge_node-IsReordered r l i _ p1 u1 (sunk.tree) below above in
        let whole = reorder_trans r l g _ _ _ _ p1 u1 p2 u2 sunk emerged in
        rw (delete_other_lem below) (p2, u2, deleted below _ p2 u2 whole heap')
  ]

module _ (r l i : ℕ) (h : Heap) (p u : ℕ → ℕ) (tree : IsTree r (suc l) h p u) where
  -- On a tree in order, whose nodes, headers and footers are different units,
  -- `freetree_delete_node` of any of its nodes ends with a tree in order that has one node less: it
  -- has all blocks but that of the node, each with a footer that holds the place of its new node,
  -- and no other part of the memory changes.
  pub delete_node-IsDeleted :
      i < suc l
      → IsHeap (suc l) u
      → (p' : ℕ → ℕ) × (u' : ℕ → ℕ) × IsDeleted r l i h
          (freetree_delete_node (r + 8 * i) h)
          p
          u
          p'
          u'
  delete_node-IsDeleted lt heap =
      delete_but-IsDeleted r l i h p u (tree-IsTreeBut r (suc l) i h p u tree) lt heap
