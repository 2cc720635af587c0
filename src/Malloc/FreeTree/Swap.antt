-- ===== src/Malloc/FreeTree/Swap.antt =====
-- The swap of two nodes in malloclab_code/mm.c.
use csapp_lab_code.Base.{
  ℕ, ◌+◌, ◌*◌, ◌<◌, ◌≡◌, ◌≢◌, refl, ap, ◌∙◌, sym, true, false, ◌==◌, if◌then◌else◌, Bool-cases, inl,
  inr, arith,
}
use csapp_lab_code.Malloc.Memory.{Heap, load, store}
use csapp_lab_code.Malloc.Block.{set_footer_node_offset}
use csapp_lab_code.Malloc.Block.Footer.{IsHeader, foot, synced_lem}
use csapp_lab_code.Malloc.FreeTree.{freetree_swap_nodes}
use csapp_lab_code.Malloc.FreeTree.Tree.{IsTree, IsFramed, IsReordered, offset_at_lem}

abbrev pub exchange : ℕ → ℕ → ℕ → ℕ
exchange i j k = if k == i then j else if k == j then i else k

-- The function with the values at `i` and `j` exchanged.
abbrev pub swapped : ℕ → ℕ → (ℕ → ℕ) → ℕ → ℕ
swapped i j f k = f (exchange i j k)

module _ (r n : ℕ) (h : Heap) (p u : ℕ → ℕ) (tree : IsTree r n h p u) (i j : ℕ) (lt_i : i < n)
    (lt_j : j < n) (ne : i ≢ j) where
  abbrev A : ℕ
  A = r + 8 * i

  abbrev B : ℕ
  B = r + 8 * j

  -- The memory with the nodes exchanged, before and after the first footer is written.
  abbrev exchanged : Heap
  exchanged = store B (load h A) (store A (load h B) h)

  abbrev first_synced : Heap
  first_synced = set_footer_node_offset (p j) A exchanged

  exchanged_lem :
      (a : ℕ) → load exchanged a ≡ (if B == a then p i else if A == a then p j else load h a)
  exchanged_lem a = rw (tree.node i lt_i, tree.node j lt_j) refl

  first_synced_lem :
      (a : ℕ)
      → load first_synced a ≡ (
          if foot (p j) (u j) == a
          then i
          else if B == a
          then p i
          else if A == a
          then p j
          else load h a)
  first_synced_lem a =
      let n1 = tree.header_node j in
      let n2 = tree.footer_node j in
      let a1 : (A == p j) ≡ false = ground (arith, tree.header_node j i lt_j lt_i) in
      let b1 : (B == p j) ≡ false = ground (arith, tree.header_node j j lt_j lt_j) in
      let a2 : (A == foot (p j) (u j)) ≡ false = ground (arith, tree.footer_node j i lt_j lt_i) in
      let b2 : (B == foot (p j) (u j)) ≡ false = ground (arith, tree.footer_node j j lt_j lt_j) in
      let header = tree.header j lt_j in
      let is_header : IsHeader exchanged (p j) (u j) 0 = record {
        word = exchanged_lem (p j) ∙ rw (a1, b1) (header.word);
        low = header.low;
        units = header.units;
        some_unit = header.some_unit;
        room = header.room;
      } in
      let old : load exchanged (foot (p j) (u j)) ≡ j =
        exchanged_lem (foot (p j) (u j)) ∙ rw (a2, b2) (tree.footer j lt_j) in
      let small = tree.small in
      synced_lem (p j) (u j) 0 exchanged (tree.two j lt_j) is_header A i j
        (offset_at_lem r n exchanged i (tree.root) (tree.room) lt_i) (omega arith) old (omega arith)
        a
      ∙ ap (λ v. if foot (p j) (u j) == a then i else v) (exchanged_lem a)

  -- The memory after the swap.
  abbrev both_synced : Heap
  both_synced = set_footer_node_offset (p i) B first_synced

  first_synced-root : first_synced.freetree_root_ptr ≡ r
  unfolding set_footer_node_offset
  first_synced-root = tree.root

  both_synced_lem :
      (a : ℕ)
      → load both_synced a ≡ (
          if foot (p i) (u i) == a
          then j
          else if foot (p j) (u j) == a
          then i
          else if B == a
          then p i
          else if A == a
          then p j
          else load h a)
  both_synced_lem a =
      let a1 : (A == p i) ≡ false = ground (arith, tree.header_node i i lt_i lt_i) in
      let b1 : (B == p i) ≡ false = ground (arith, tree.header_node i j lt_i lt_j) in
      let f1 : (foot (p j) (u j) == p i) ≡ false =
        ground (arith, tree.footer_header j i lt_j lt_i) in
      let a2 : (A == foot (p i) (u i)) ≡ false = ground (arith, tree.footer_node i i lt_i lt_i) in
      let b2 : (B == foot (p i) (u i)) ≡ false = ground (arith, tree.footer_node i j lt_i lt_j) in
      let f2 : (foot (p j) (u j) == foot (p i) (u i)) ≡ false =
        ground (arith, tree.footer_footer i j lt_i lt_j ne) in
      let header = tree.header i lt_i in
      let is_header : IsHeader first_synced (p i) (u i) 0 = record {
        word = first_synced_lem (p i) ∙ rw (f1, a1, b1) (header.word);
        low = header.low;
        units = header.units;
        some_unit = header.some_unit;
        room = header.room;
      } in
      let old : load first_synced (foot (p i) (u i)) ≡ i =
        first_synced_lem (foot (p i) (u i)) ∙ rw (f2, a2, b2) (tree.footer i lt_i) in
      let small = tree.small in
      synced_lem (p i) (u i) 0 first_synced (tree.two i lt_i) is_header B j i
        (offset_at_lem r n first_synced j first_synced-root (tree.room) lt_j) (omega arith) old
        (omega arith) a
      ∙ ap (λ v. if foot (p i) (u i) == a then j else v) (first_synced_lem a)

  swap-synced : freetree_swap_nodes A B h ≡ both_synced
  unfolding freetree_swap_nodes
  swap-synced =
      let ab : (B == A) ≡ false = ground arith in
      let self : (x : ℕ) → (x == x) ≡ true = λ x. ground arith in
      let f1 : (foot (p j) (u j) == B) ≡ false = ground (arith, tree.footer_node j j lt_j lt_j) in
      let at_a : load exchanged A ≡ p j = exchanged_lem A ∙ rw (ab, self A) refl in
      let at_b : load first_synced B ≡ p i = first_synced_lem B ∙ rw (f1, self B) refl in
      let at_b' : load (set_footer_node_offset (load exchanged A) A exchanged) B ≡ p i =
        ap (λ x. load (set_footer_node_offset x A exchanged) B) at_a ∙ at_b in
      ap (λ x. set_footer_node_offset x B (set_footer_node_offset (load exchanged A) A exchanged))
        at_b'
      ∙ ap (λ x. set_footer_node_offset (p i) B (set_footer_node_offset x A exchanged)) at_a

  place_lem : (k : ℕ) → k < n → exchange i j k < n
  place_lem k lt = ground arith

  old_header_lem : (m : ℕ) → m < n → IsHeader both_synced (p m) (u m) 0
  old_header_lem m lt =
      let f1 : (foot (p i) (u i) == p m) ≡ false = ground (arith, tree.footer_header i m lt_i lt) in
      let f2 : (foot (p j) (u j) == p m) ≡ false = ground (arith, tree.footer_header j m lt_j lt) in
      let a1 : (A == p m) ≡ false = ground (arith, tree.header_node m i lt lt_i) in
      let b1 : (B == p m) ≡ false = ground (arith, tree.header_node m j lt lt_j) in
      let header = tree.header m lt in
      record {
        word = both_synced_lem (p m) ∙ rw (f1, f2, b1, a1) (header.word);
        low = header.low;
        units = header.units;
        some_unit = header.some_unit;
        room = header.room;
      }

  node_lem : (k : ℕ) → k < n → load both_synced (r + 8 * k) ≡ swapped i j p k
  node_lem k lt =
      let f1 : (foot (p i) (u i) == r + 8 * k) ≡ false =
        ground (arith, tree.footer_node i k lt_i lt) in
      let f2 : (foot (p j) (u j) == r + 8 * k) ≡ false =
        ground (arith, tree.footer_node j k lt_j lt) in
      let at_i : (A == r + 8 * k) ≡ (k == i) = ground arith in
      let at_j : (B == r + 8 * k) ≡ (k == j) = ground arith in
      let other = tree.node k lt in
      both_synced_lem (r + 8 * k)
      ∙ rw (f1, f2, at_i, at_j)
          (elim (Bool-cases (k == i)) [
            | inl e ↦ let apart : (k == j) ≡ false = ground arith in rw (e, apart) refl
            | inr e ↦ elim (Bool-cases (k == j)) [
              | inl e' ↦ rw (e, e') refl
              | inr e' ↦ rw (e, e') other
            ]
          ])

  footer_lem : (k : ℕ) → k < n → load both_synced (foot (swapped i j p k) (swapped i j u k)) ≡ k
  footer_lem k lt = elim (Bool-cases (k == i)) [
    | inl e ↦
        let f1 : (foot (p i) (u i) == foot (p j) (u j)) ≡ false =
          ground (arith, tree.footer_footer i j lt_i lt_j ne) in
        let self : (foot (p j) (u j) == foot (p j) (u j)) ≡ true = ground arith in
        rw (e) (both_synced_lem (foot (p j) (u j)) ∙ rw (f1, self) (ground arith))
    | inr e ↦ elim (Bool-cases (k == j)) [
      | inl e' ↦
          let self : (foot (p i) (u i) == foot (p i) (u i)) ≡ true = ground arith in
          rw (e, e') (both_synced_lem (foot (p i) (u i)) ∙ rw (self) (ground arith))
      | inr e' ↦
          let f1 : (foot (p i) (u i) == foot (p k) (u k)) ≡ false =
            ground (arith, tree.footer_footer i k lt_i lt) in
          let f2 : (foot (p j) (u j) == foot (p k) (u k)) ≡ false =
            ground (arith, tree.footer_footer j k lt_j lt) in
          let a1 : (A == foot (p k) (u k)) ≡ false = ground (arith, tree.footer_node k i lt lt_i) in
          let b1 : (B == foot (p k) (u k)) ≡ false = ground (arith, tree.footer_node k j lt lt_j) in
          rw (e, e') (both_synced_lem (foot (p k) (u k)) ∙ rw (f1, f2, b1, a1) (tree.footer k lt))
    ]
  ]

  exchange_twice : (k : ℕ) → exchange i j (exchange i j k) ≡ k
  exchange_twice k = elim (Bool-cases (k == i)) [
    | inl e ↦ ground arith
    | inr e ↦ elim (Bool-cases (k == j)) [ inl e' ↦ ground arith | inr e' ↦ rw (e, e', e, e') refl ]
  ]

  exchange_injective : (k m : ℕ) → k ≢ m → exchange i j k ≢ exchange i j m
  exchange_injective k m differ e =
      differ (sym (exchange_twice k) ∙ ap (exchange i j) e ∙ exchange_twice m)

  frame_lem : IsFramed r n p u h both_synced
  frame_lem a nodes feet =
      let f1 : (foot (p i) (u i) == a) ≡ false = ground (arith, feet i lt_i) in
      let f2 : (foot (p j) (u j) == a) ≡ false = ground (arith, feet j lt_j) in
      let a1 : (A == a) ≡ false = ground (arith, nodes i lt_i) in
      let b1 : (B == a) ≡ false = ground (arith, nodes j lt_j) in
      both_synced_lem a ∙ rw (f1, f2, b1, a1) refl

  both_synced-IsReordered : IsReordered r n h both_synced p u (swapped i j p) (swapped i j u)
  unfolding set_footer_node_offset
  both_synced-IsReordered = record {
    tree = record {
      root = tree.root;
      count = tree.count;
      room = tree.room;
      small = tree.small;
      node = node_lem;
      header = λ k lt. old_header_lem (exchange i j k) (place_lem k lt);
      two = λ k lt. tree.two (exchange i j k) (place_lem k lt);
      footer = footer_lem;
      header_node = λ k m lt lt'. tree.header_node (exchange i j k) m (place_lem k lt) lt';
      footer_node = λ k m lt lt'. tree.footer_node (exchange i j k) m (place_lem k lt) lt';
      footer_header = λ k m lt lt'.
          tree.footer_header (exchange i j k) (exchange i j m) (place_lem k lt) (place_lem m lt');
      footer_footer = λ k m lt lt' differ.
          tree.footer_footer (exchange i j k) (exchange i j m) (place_lem k lt) (place_lem m lt')
            (exchange_injective k m differ);
    };
    same = record {
      from = λ k lt. (exchange i j k, place_lem k lt, refl, refl);
      to = λ k lt.
          (exchange i j k, place_lem k lt, ap p (exchange_twice k), ap u (exchange_twice k));
    };
    frame = frame_lem;
  }

  pub swap-IsReordered :
      IsReordered r n h
        (freetree_swap_nodes (r + 8 * i) (r + 8 * j) h)
        p
        u
        (swapped i j p)
        (swapped i j u)
  swap-IsReordered = rw (swap-synced) both_synced-IsReordered
