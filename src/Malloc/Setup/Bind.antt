-- ===== src/Malloc/Setup/Bind.antt =====
-- A node of the tree of malloclab_code/mm.c whose block has got another size finds its place.
use csapp_lab_code.Base.{
  ℕ, ◌+◌, ◌*◌, ◌≤◌, ◌<◌, ◌≡◌, ◌≢◌, refl, ◌∙◌, true, false, ltb, ◌==◌, Bool-cases, inl, inr, arith,
}
use csapp_lab_code.Malloc.Memory.{Heap, load}
use csapp_lab_code.Malloc.Block.Footer.{foot}
use csapp_lab_code.Malloc.FreeTree.{freetree_sink_node, freetree_emerge_node}
use csapp_lab_code.Malloc.FreeTree.Tree.{
  IsTree, IsRearranged, IsReordered, reorder_refl, reorder_trans, footers_before,
}
use csapp_lab_code.Malloc.FreeTree.Partial.{IsTreeBut}
use csapp_lab_code.Malloc.FreeTree.Order.{parent, IsHeap, IsHeapAbove, IsHeapBelow}
use csapp_lab_code.Malloc.FreeTree.Sink.{sink_node-IsReordered}
use csapp_lab_code.Malloc.FreeTree.Emerge.{emerge_node-IsReordered, emerge_node_stays}
use csapp_lab_code.Malloc.Setup.Replace.{IsApart, replaced, written, written-frame}
use csapp_lab_code.Malloc.Setup.Written.{IsPlace}

-- A tree in order with the old blocks, but one of `q` units at `x` in place of that of node `i`.
pub record IsReplaced (r n i : ℕ) (h h' : Heap) (p u : ℕ → ℕ) (x q : ℕ) (p' u' : ℕ → ℕ)
    : Type 0 where
  pub tree : IsTree r n h' p' u'
  pub order : IsHeap n u'
  pub same : IsRearranged n (replaced i x p) (replaced i q u) p' u'
  pub frame :
      (a : ℕ)
      → ((k : ℕ) → k < n → r + 8 * k ≢ a)
      → ((k : ℕ) → k < n → foot (p' k) (u' k) ≢ a)
      → x ≢ a
      → load h' a ≡ load h a

module _ (r n i : ℕ) (h : Heap) (p u : ℕ → ℕ) (tree : IsTreeBut r n i h p u) (lt_i : i < n)
    (x q : ℕ) (place : IsPlace h x q) (apart : IsApart r n i p u x q) where
  pub reordered-IsReplaced :
      (h' : Heap) (p' u' : ℕ → ℕ)
      → IsReordered r n
          (written r n i h p u tree lt_i x q place apart)
          h'
          (replaced i x p)
          (replaced i q u)
          p'
          u'
      → IsHeap n u'
      → IsReplaced r n i h h' p u x q p' u'
  reordered-IsReplaced h' p' u' moved order = record {
    tree = moved.tree;
    order = order;
    same = moved.same;
    frame = λ a nodes feet ne.
        let before = footers_before n (replaced i x p) (replaced i q u) p' u' a (moved.same) feet in
        let self : (i == i) ≡ true = ground arith in
        let ne_footer : foot x q ≢ a = rw self at (before i lt_i) in
        moved.frame a nodes before
        ∙ written-frame r n i h p u tree lt_i x q place apart a (nodes i lt_i) ne_footer ne;
  }

pub replaced-IsHeapBelow :
    (n i q : ℕ) (u : ℕ → ℕ) → IsHeap n u → i < n → IsHeapBelow n (replaced i q u) i i
replaced-IsHeapBelow n i q u heap lt = record {
  order = λ k pos lt' apart ne.
      let t1 : (k == i) ≡ false = ground arith in
      let t2 : (parent k == i) ≡ false = ground arith in rw (t1, t2) (heap k pos lt');
  sons = λ k pos lt' son pos'.
      let t1 : (k == i) ≡ false = ground arith in
      let t2 : (parent i == i) ≡ false = ground arith in
      let own : u k ≤ u (parent k) = heap k pos lt' in
      let own' : u k ≤ u i = rw son at own in
      let next : u i ≤ u (parent i) = heap i pos' lt in rw (t1, t2) (omega arith);
}

-- Where the node is larger than its parent, it is also larger than its sons.
larger-IsHeapAbove :
    (n i : ℕ) (u : ℕ → ℕ)
    → IsHeapBelow n u i i
    → ((k : ℕ) → 0 < k → k < n → parent k ≡ i → u k ≤ u i)
    → IsHeapAbove n u i
larger-IsHeapAbove n i u below larger = record {
  order = λ k pos lt ne. elim (Bool-cases (parent k == i)) [
    | inl e ↦ let son : parent k ≡ i = ground arith in rw (son) (larger k pos lt son)
    | inr e ↦ below.order k pos lt (ground arith) ne
  ];
  sons = below.sons;
}

heap-IsHeapBelow : (n i : ℕ) (u : ℕ → ℕ) → IsHeap n u → i < n → IsHeapBelow n u 0 i
heap-IsHeapBelow n i u heap lt = record {
  order = λ k pos lt' apart ne. heap k pos lt';
  sons = λ k pos lt' son pos'.
      let own : u k ≤ u (parent k) = heap k pos lt' in
      let own' : u k ≤ u i = rw son at own in
      let next : u i ≤ u (parent i) = heap i pos' lt in omega arith;
}

-- Where the node is not too large for its parent.
fitting-IsHeapBelow :
    (n i : ℕ) (u : ℕ → ℕ) → IsHeapBelow n u i i → (0 < i → u i ≤ u (parent i)) → IsHeapBelow n u 0 i
fitting-IsHeapBelow n i u below fits = record {
  order = λ k pos lt apart ne. elim (Bool-cases (k == i)) [
    | inl e ↦ let same : k ≡ i = ground arith in rw (same) (fits (omega arith))
    | inr e ↦ below.order k pos lt apart (ground arith)
  ];
  sons = below.sons;
}

module _ (r n i : ℕ) (h : Heap) (p u : ℕ → ℕ) (tree : IsTree r n h p u) (lt : i < n) where
  sink_after :
      (h' : Heap) (p1 u1 : ℕ → ℕ)
      → IsReordered r n h h' p u p1 u1
      → IsHeapBelow n u1 0 i
      → (p' : ℕ → ℕ) × (u' : ℕ → ℕ) × IsReordered r n h
          (freetree_sink_node (r + 8 * i) h')
          p
          u
          p'
          u'
        × IsHeap n u'
  sink_after h' p1 u1 first below =
      let (p2, u2, second, above) =
        sink_node-IsReordered r n i 0 h' p1 u1 (first.tree) lt (inl refl) below in
      (
        p2,
        u2,
        reorder_trans r n h h' _ p u p1 u1 p2 u2 first second,
        λ k pos lt'. above.order k pos lt' (omega arith),
      )

  stays_lem :
      IsHeapBelow n u i i
      → (0 < i → u i ≤ u (parent i))
      → (p' : ℕ → ℕ) × (u' : ℕ → ℕ) × IsReordered r n h
          (freetree_sink_node (r + 8 * i) (freetree_emerge_node (r + 8 * i) h))
          p
          u
          p'
          u'
        × IsHeap n u'
  stays_lem below fits =
      rw (emerge_node_stays r n i h p u tree lt fits)
        (sink_after h p u (reorder_refl r n h p u tree) (fitting-IsHeapBelow n i u below fits))

  -- The way up and the way down, for a node of any size.
  pub emerge_sink-IsReordered :
      IsHeapBelow n u i i
      → (p' : ℕ → ℕ) × (u' : ℕ → ℕ) × IsReordered r n h
          (freetree_sink_node (r + 8 * i) (freetree_emerge_node (r + 8 * i) h))
          p
          u
          p'
          u'
        × IsHeap n u'
  emerge_sink-IsReordered below = elim (Bool-cases (i == 0)) [
    | inl e ↦ stays_lem below (λ pos. absurd (ground arith))
    | inr e ↦ elim (Bool-cases (ltb (u (parent i)) (u i))) [
      | inl larger ↦
          let sons : (k : ℕ) → 0 < k → k < n → parent k ≡ i → u k ≤ u i =
            λ k pos lt' son. let low = below.sons k pos lt' son (ground arith) in ground arith in
          let (p1, u1, first, order) =
            emerge_node-IsReordered r n i h p u tree lt (larger-IsHeapAbove n i u below sons) in
          sink_after _ p1 u1 first (heap-IsHeapBelow n i u1 order lt)
      | inr fits ↦ stays_lem below (λ pos. ground arith)
    ]
  ]
