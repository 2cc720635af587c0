-- ===== src/Malloc/FreeTree/Sink.antt =====
-- `freetree_sink_node` of malloclab_code/mm.c: the loop ends, and what it does to the order of the tree.
use csapp_lab_code.Base.{
  ℕ, zero, suc, ◌+◌, ◌*◌, ◌≤◌, ◌<◌, ◌≡◌, refl, ◌∙◌, ◌⊎◌, inl, inr, true, false, ltb, ◌&&◌, ◌==◌,
  if◌then◌else◌, Bool-cases, arith,
}
use csapp_lab_code.Malloc.Memory.{Heap}
use csapp_lab_code.Malloc.FreeTree.{
  sink_choice, sink_loop, freetree_sink_node, freetree_swap_nodes, node_size, tree_end,
}
use csapp_lab_code.Malloc.FreeTree.Tree.{
  IsTree, IsReordered, reorder_refl, reorder_trans, node_size_lem, end_lem, left_at_lem,
  right_at_lem,
}
use csapp_lab_code.Malloc.FreeTree.Swap.{swap-IsReordered}
use csapp_lab_code.Malloc.FreeTree.Order.{
  parent, IsHeapAbove, IsHeapBelow, heap_above_lem, stop_above_lem, sink_step_lem,
}

-- The larger of two places, if the second is in the tree.
abbrev larger_of : ℕ → (ℕ → ℕ) → ℕ → ℕ → ℕ
larger_of n u c k = if ltb k n && ltb (u c) (u k) then k else c

abbrev largest : ℕ → (ℕ → ℕ) → ℕ → ℕ
largest n u i = larger_of n u (larger_of n u i (2 * i + 1)) (2 * i + 2)

module _ (n : ℕ) (u : ℕ → ℕ) where
  larger_of-≤ : (c k : ℕ) → (u c ≤ u (larger_of n u c k)) × (k < n → u k ≤ u (larger_of n u c k))
  larger_of-≤ c k = elim (Bool-cases (ltb k n)) [
    | inl e ↦ elim (Bool-cases (ltb (u c) (u k))) [
      | inl e' ↦ rw (e, e') (ground arith, λ lt. ground arith)
      | inr e' ↦ rw (e, e') (ground arith, λ lt. ground arith)
    ]
    | inr e ↦ rw (e) (ground arith, λ lt. absurd (ground arith))
  ]

  -- The node `i` itself or a son of it.
  abbrev IsPlace : ℕ → ℕ → Type 0
  IsPlace i c = (c < n) × ((c ≡ i) ⊎ (parent c ≡ i) × (i < c))

  larger_of-IsPlace :
      (i c k : ℕ) → IsPlace i c → parent k ≡ i → i < k → IsPlace i (larger_of n u c k)
  larger_of-IsPlace i c k place son below = elim (Bool-cases (ltb k n)) [
    | inl e ↦ elim (Bool-cases (ltb (u c) (u k))) [
      | inl e' ↦ rw (e, e') (ground arith, inr (son, below))
      | inr e' ↦ rw (e, e') place
    ]
    | inr e ↦ rw (e) place
  ]

  largest-IsPlace : (i : ℕ) → i < n → IsPlace i (largest n u i)
  largest-IsPlace i lt =
      larger_of-IsPlace i _ (2 * i + 2)
        (larger_of-IsPlace i i (2 * i + 1) (lt, inl refl) (omega arith) (omega arith)) (omega arith)
        (omega arith)

  largest-≤ :
      (i : ℕ)
      → (u i ≤ u (largest n u i))
        × ((k : ℕ) → 0 < k → k < n → parent k ≡ i → u k ≤ u (largest n u i))
  largest-≤ i =
      let next = larger_of n u i (2 * i + 1) in
      let (own, left) = larger_of-≤ i (2 * i + 1) in
      let (first, right) = larger_of-≤ next (2 * i + 2) in
      (
        omega (arith, own, first),
        λ k pos lt son. elim (Bool-cases (k == 2 * i + 1)) [
          | inl e ↦
              let is_left : k ≡ 2 * i + 1 = ground arith in
              rw (is_left) (omega (arith, left (omega arith), first))
          | inr e ↦
              let is_right : k ≡ 2 * i + 2 = ground arith in rw (is_right) (right (omega arith))
        ],
      )

module _ (r n : ℕ) (h : Heap) (p u : ℕ → ℕ) (tree : IsTree r n h p u) where
  inside_at_lem : (k : ℕ) → ltb (r + 8 * k) (tree_end h) ≡ ltb k n
  inside_at_lem k = rw (end_lem r n h p u tree) (ground arith)

  -- The test of the loop for one son.
  larger_lem :
      (c k : ℕ)
      → c < n
      → (if ltb (r + 8 * k) (tree_end h) && ltb (node_size h (r + 8 * c)) (node_size h (r + 8 * k))
          then r + 8 * k
          else r + 8 * c)
        ≡ r + 8 * larger_of n u c k
  larger_lem c k lt = elim (Bool-cases (ltb k n)) [
    | inl e ↦
        let lt' : k < n = ground arith in
        let sizes : ltb (8 * u c) (8 * u k) ≡ ltb (u c) (u k) = ground arith in
        rw
          (
            inside_at_lem k,
            e,
            node_size_lem r n h p u tree c lt,
            node_size_lem r n h p u tree k lt',
            sizes,
          )
          (ground arith)
    | inr e ↦ rw (inside_at_lem k, e) refl
  ]

  choice_lem : (i : ℕ) → i < n → sink_choice (r + 8 * i) h ≡ r + 8 * largest n u i
  unfolding sink_choice
  choice_lem i lt =
      let left = larger_lem i (2 * i + 1) lt in
      let right = larger_lem (larger_of n u i (2 * i + 1)) (2 * i + 2) (ground arith) in
      rw (left_at_lem r n h p u tree i lt, right_at_lem r n h p u tree i lt, left) right

module _ (fuel r i c : ℕ) (h : Heap) (inside : ltb (r + 8 * i) (tree_end h) ≡ true)
    (chosen : sink_choice (r + 8 * i) h ≡ r + 8 * c) where
  sink_stop_lem : c ≡ i → sink_loop (suc fuel) (r + 8 * i) h ≡ h
  unfolding sink_loop
  sink_stop_lem e =
      let self : (r + 8 * i == r + 8 * c) ≡ true = ground arith in rw (inside, chosen, self) refl

  sink_move_lem :
      i < c
      → sink_loop (suc fuel) (r + 8 * i) h
        ≡ sink_loop fuel (r + 8 * c) (freetree_swap_nodes (r + 8 * i) (r + 8 * c) h)
  unfolding sink_loop
  sink_move_lem down =
      let apart : (r + 8 * i == r + 8 * c) ≡ false = ground arith in rw (inside, chosen, apart) refl

-- The loop from node `i` on, which may be too small for its sons; `e` is `i`, or 0 where no node is
-- too large for its parent.
sink_loop-IsReordered :
    (fuel r n i e : ℕ) (h : Heap) (p u : ℕ → ℕ)
    → IsTree r n h p u
    → i < n
    → e < n
    → n ≤ fuel + i
    → ((e ≡ 0) ⊎ (e ≡ i))
    → IsHeapBelow n u e i
    → (p' : ℕ → ℕ) × (u' : ℕ → ℕ) × IsReordered r n h (sink_loop fuel (r + 8 * i) h) p u p' u'
      × IsHeapAbove n u' e
sink_loop-IsReordered zero r n i e h p u tree lt lt_e enough start below = absurd (omega arith)
sink_loop-IsReordered (suc fuel) r n i e h p u tree lt lt_e enough start below =
    let c = largest n u i in
    let chosen = choice_lem r n h p u tree i lt in
    let inside : ltb (r + 8 * i) (tree_end h) ≡ true =
      inside_at_lem r n h p u tree i ∙ ground arith in
    let (own, sons) = largest-≤ n u i in
    let (lt_c, place) = largest-IsPlace n u i lt in
    elim place [
      | inl stays ↦
          let own_sons : (k : ℕ) → 0 < k → k < n → parent k ≡ i → u k ≤ u i =
            λ k pos lt' son. rw stays at (sons k pos lt' son) in
          rw (sink_stop_lem fuel r i c h inside chosen stays)
            (p, u, reorder_refl r n h p u tree, stop_above_lem n u e i below start own_sons)
      | inr (son, down) ↦
          let step = swap-IsReordered r n h p u tree i c lt lt_c (omega arith) in
          let below' = sink_step_lem n u i c son (omega arith) lt_c e below start own sons in
          let (p', u', rest, above) =
            sink_loop-IsReordered fuel r n c 0 _ _ _ (step.tree) lt_c (omega arith) (omega arith)
              (inl refl) below' in
          rw (sink_move_lem fuel r i c h inside chosen down) (
            p',
            u',
            reorder_trans r n h _ _ p u _ _ p' u' step rest,
            heap_above_lem n u' e above lt_e,
          )
    ]

-- From a tree in which only node `i` may be too small for its sons; `e` is `i` if it may also be too
-- large for its parent, and 0 if not.
pub sink_node-IsReordered :
    (r n i e : ℕ) (h : Heap) (p u : ℕ → ℕ)
    → IsTree r n h p u
    → i < n
    → ((e ≡ 0) ⊎ (e ≡ i))
    → IsHeapBelow n u e i
    → (p' : ℕ → ℕ) × (u' : ℕ → ℕ) × IsReordered r n h (freetree_sink_node (r + 8 * i) h) p u p' u'
      × IsHeapAbove n u' e
unfolding freetree_sink_node
sink_node-IsReordered r n i e h p u tree lt start below =
    sink_loop-IsReordered (h.freetree_node_end_offset) r n i e h p u tree lt (omega arith)
      (omega (arith, tree.count)) start below
