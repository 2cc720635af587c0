-- ===== src/Malloc/FreeTree/Moved.antt =====
-- The last node of the tree of malloclab_code/mm.c takes the place of another one.
use csapp_lab_code.Base.{
  ℕ, suc, ◌+◌, ◌*◌, ◌≤◌, ◌<◌, ◌≡◌, ◌≢◌, refl, ◌∙◌, true, false, ◌==◌, if◌then◌else◌, Bool-cases,
  inl, inr, arith,
}
use csapp_lab_code.Malloc.Memory.{Heap, load, store}
use csapp_lab_code.Malloc.Block.{set_footer_node_offset}
use csapp_lab_code.Malloc.Block.Footer.{IsHeader, foot, synced_lem}
use csapp_lab_code.Malloc.FreeTree.{drop_last_node}
use csapp_lab_code.Malloc.FreeTree.Tree.{IsTree, offset_at_lem}
use csapp_lab_code.Malloc.FreeTree.Partial.{IsTreeBut, IsFramedBut}
use csapp_lab_code.Malloc.FreeTree.Order.{parent, IsHeap, IsHeapBelow}

-- Node `i` is the last one, the others stay.
abbrev pub moved_from : ℕ → ℕ → ℕ → ℕ
moved_from l i k = if k == i then l else k

abbrev pub moved : ℕ → ℕ → (ℕ → ℕ) → ℕ → ℕ
moved l i f k = f (moved_from l i k)

module _ (r l : ℕ) (h : Heap) (p u : ℕ → ℕ) (i : ℕ) (tree : IsTreeBut r (suc l) i h p u)
    (lt : i < l) where
  abbrev A : ℕ
  A = r + 8 * i

  -- The memory with the pointer written, and with the footer of its block.
  abbrev pub written : Heap
  written = store A (p l) h

  abbrev pub synced : Heap
  synced = set_footer_node_offset (p l) A written

  synced_at_lem :
      (a : ℕ)
      → load synced a ≡ (if foot (p l) (u l) == a then i else if A == a then p l else load h a)
  synced_at_lem a =
      let a1 : (A == p l) ≡ false =
        ground (arith, tree.header_node l i (omega arith) (omega arith) (omega arith)) in
      let a2 : (A == foot (p l) (u l)) ≡ false =
        ground (arith, tree.footer_node l i (omega arith) (omega arith) (omega arith)) in
      let header = tree.header l (omega arith) (omega arith) in
      let is_header : IsHeader written (p l) (u l) 0 = record {
        word = rw (a1) (header.word);
        low = header.low;
        units = header.units;
        some_unit = header.some_unit;
        room = header.room;
      } in
      let old : load written (foot (p l) (u l)) ≡ l =
        rw (a2) (tree.footer l (omega arith) (omega arith)) in
      let small = tree.small in
      synced_lem (p l) (u l) 0 written (tree.two l (omega arith) (omega arith)) is_header A i l
        (offset_at_lem r (suc l) written i (tree.root) (tree.room) (omega arith)) (omega arith) old
        (omega arith) a

  pub from_lem : (k : ℕ) → k < l → moved_from l i k < suc l
  from_lem k lt' = ground arith

  pub from_other : (k : ℕ) → moved_from l i k ≢ i
  from_other k = ground arith

  from_injective : (k m : ℕ) → k < l → m < l → k ≢ m → moved_from l i k ≢ moved_from l i m
  from_injective k m lt_k lt_m differ = elim (Bool-cases (k == i)) [
    | inl e ↦ elim (Bool-cases (m == i)) [
      | inl e' ↦ absurd (ground arith)
      | inr e' ↦ rw (e, e') (λ same. ground arith)
    ]
    | inr e ↦ elim (Bool-cases (m == i)) [
      | inl e' ↦ rw (e, e') (λ same. ground arith)
      | inr e' ↦ rw (e, e') differ
    ]
  ]

  old_header_lem : (m : ℕ) → m < suc l → m ≢ i → IsHeader (drop_last_node synced) (p m) (u m) 0
  old_header_lem m lt' ne =
      let f1 : (foot (p l) (u l) == p m) ≡ false =
        ground (arith, tree.footer_header l m (omega arith) lt' (omega arith) ne) in
      let a1 : (A == p m) ≡ false = ground (arith, tree.header_node m i lt' (omega arith) ne) in
      let header = tree.header m lt' ne in
      record {
        word = synced_at_lem (p m) ∙ rw (f1, a1) (header.word);
        low = header.low;
        units = header.units;
        some_unit = header.some_unit;
        room = header.room;
      }

  node_lem : (k : ℕ) → k < l → load synced (r + 8 * k) ≡ moved l i p k
  node_lem k lt' =
      let f1 : (foot (p l) (u l) == r + 8 * k) ≡ false =
        ground (arith, tree.footer_node l k (omega arith) (omega arith) (omega arith)) in
      let at_i : (A == r + 8 * k) ≡ (k == i) = ground arith in
      synced_at_lem (r + 8 * k)
      ∙ rw (f1, at_i)
          (elim (Bool-cases (k == i)) [
            | inl e ↦ rw (e) refl
            | inr e ↦ rw (e) (tree.node k (omega arith) (ground arith))
          ])

  footer_lem : (k : ℕ) → k < l → load synced (foot (moved l i p k) (moved l i u k)) ≡ k
  footer_lem k lt' = elim (Bool-cases (k == i)) [
    | inl e ↦
        let self : (foot (p l) (u l) == foot (p l) (u l)) ≡ true = ground arith in
        rw (e) (synced_at_lem (foot (p l) (u l)) ∙ rw (self) (ground arith))
    | inr e ↦
        let ne : k ≢ i = ground arith in
        let f1 : (foot (p l) (u l) == foot (p k) (u k)) ≡ false = ground (
          arith,
          tree.footer_footer l k (omega arith) (omega arith) (omega arith) ne (omega arith),
        ) in
        let a1 : (A == foot (p k) (u k)) ≡ false =
          ground (arith, tree.footer_node k i (omega arith) (omega arith) ne) in
        rw (e) (synced_at_lem (foot (p k) (u k)) ∙ rw (f1, a1) (tree.footer k (omega arith) ne))
  ]

  pub moved-IsTree : IsTree r l (drop_last_node synced) (moved l i p) (moved l i u)
  unfolding set_footer_node_offset
  moved-IsTree =
      let room = tree.room in
      let small = tree.small in
      record {
        root = tree.root;
        count = rw (tree.count) (omega arith);
        room = omega arith;
        small = omega arith;
        node = node_lem;
        header = λ k lt'. old_header_lem (moved_from l i k) (from_lem k lt') (from_other k);
        two = λ k lt'. tree.two (moved_from l i k) (from_lem k lt') (from_other k);
        footer = footer_lem;
        header_node = λ k m lt' lt''.
            tree.header_node (moved_from l i k) m (from_lem k lt') (omega arith) (from_other k);
        footer_node = λ k m lt' lt''.
            tree.footer_node (moved_from l i k) m (from_lem k lt') (omega arith) (from_other k);
        footer_header = λ k m lt' lt''.
            tree.footer_header (moved_from l i k) (moved_from l i m) (from_lem k lt')
              (from_lem m lt'') (from_other k) (from_other m);
        footer_footer = λ k m lt' lt'' differ.
            tree.footer_footer (moved_from l i k) (moved_from l i m) (from_lem k lt')
              (from_lem m lt'') (from_other k) (from_other m) (from_injective k m lt' lt'' differ);
      }

  pub moved-frame : IsFramedBut r (suc l) i p u h synced
  moved-frame a nodes feet =
      let f1 : (foot (p l) (u l) == a) ≡ false =
        ground (arith, feet l (omega arith) (omega arith)) in
      let a1 : (A == a) ≡ false = ground (arith, nodes i (omega arith)) in
      synced_at_lem a ∙ rw (f1, a1) refl

-- The node may be too small for its sons, or too large for its parent.
pub moved-IsHeapBelow :
    (l i : ℕ) (u : ℕ → ℕ) → IsHeap (suc l) u → i < l → IsHeapBelow l (moved l i u) i i
moved-IsHeapBelow l i u heap lt = record {
  order = λ k pos lt' apart ne.
      let t1 : (k == i) ≡ false = ground arith in
      let t2 : (parent k == i) ≡ false = ground arith in rw (t1, t2) (heap k pos (omega arith));
  sons = λ k pos lt' son pos'.
      let t1 : (k == i) ≡ false = ground arith in
      let t2 : (parent i == i) ≡ false = ground arith in
      let own : u k ≤ u (parent k) = heap k pos (omega arith) in
      let own' : u k ≤ u i = rw son at own in
      let next : u i ≤ u (parent i) = heap i pos' (omega arith) in rw (t1, t2) (omega arith);
}
