-- ===== src/Malloc/FreeTree/Find.antt =====
-- The search for a free block in malloclab_code/mm.c.
use csapp_lab_code.Base.{
  ℕ, zero, suc, ◌+◌, ◌*◌, ◌≤◌, ◌<◌, ◌≡◌, ◌≢◌, refl, ap, ◌∙◌, ◌⊎◌, inl, inr, Bool, true, false, ltb,
  ◌||◌, ◌==◌, if◌then◌else◌, Bool-cases, arith,
}
use csapp_lab_code.Malloc.Memory.{Heap, null}
use csapp_lab_code.Malloc.FreeTree.{
  node_at, node_size, tree_end, find_choice, find_loop, freetree_find_suitable_node,
}
use csapp_lab_code.Malloc.FreeTree.Address.{
  TreeRoom, inside_lem, equal_lem, left_lem, right_lem, node_at_lem,
}

-- The size of the block at a place in the tree.
abbrev pub key : Heap → ℕ → ℕ
key h i = node_size h (node_at h i)

-- The place holds a block of at least this size.
abbrev pub Fits : Heap → ℕ → ℕ → Type 0
Fits h size i = (i < h.freetree_node_end_offset) × (size ≤ key h i)

module _ (h : Heap) (size : ℕ) where
  -- A test that picks one of two places.
  abbrev Pick : ℕ → ℕ → Type 0
  Pick i node = (j : ℕ) × (node ≡ node_at h j) × Fits h size j × (i ≤ j)

  pick_lem :
      (b : Bool) (x i : ℕ) {node : ℕ}
      → (b ≡ true → Fits h size x)
      → i ≤ x
      → Pick i node
      → Pick i (if b then node_at h x else node)
  pick_lem true x i right le other = (x, refl, right refl, le)
  pick_lem false x i right le other = other

module _ (h : Heap) (size : ℕ) (room : TreeRoom h) where
  choice_lem : (i : ℕ) → Fits h size i → Pick h size i (find_choice size (node_at h i) h)
  unfolding find_choice
  choice_lem i fits =
      let n = h.freetree_node_end_offset in
      rw
        (
          left_lem h (2 * n + 2) room i (omega arith),
          right_lem h (2 * n + 2) room i (omega arith),
          inside_lem h room (2 * i + 1) (omega arith),
          inside_lem h room (2 * i + 2) (omega arith),
        )
        (pick_lem h size _ (2 * i + 2) i (λ e. ground arith) (omega arith)
          (pick_lem h size _ (2 * i + 1) i (λ e. ground arith) (omega arith)
            (i, refl, fits, omega arith)))

  -- From a place with a block that is large enough, with fuel for the places from there on.
  loop_lem :
      (fuel i : ℕ)
      → Fits h size i
      → h.freetree_node_end_offset ≤ fuel + i
      → (j : ℕ) × (find_loop fuel size (node_at h i) h ≡ node_at h j) × Fits h size j
  unfolding find_loop
  loop_lem zero i fits enough = absurd (omega arith)
  loop_lem (suc fuel) i fits enough =
      let n = h.freetree_node_end_offset in
      let (j, chosen, fits', le) = choice_lem i fits in
      let here : ltb (node_at h i) (tree_end h) ≡ true =
        inside_lem h room i (omega arith) ∙ ground arith in
      rw (here, chosen)
        (elim (Bool-cases (key h i == size)) [
          | inl exact ↦ (i, rw exact refl, fits)
          | inr larger ↦ elim (Bool-cases (j == i)) [
            | inl stays ↦
                (i, rw (larger, equal_lem h room j i (omega arith) (omega arith), stays) refl, fits)
            | inr moves ↦
                let (k, found, good) = loop_lem fuel j fits' (ground arith) in
                (
                  k,
                  rw (larger, equal_lem h room j i (omega arith) (omega arith), moves) found,
                  good,
                )
          ]
        ])

  -- In a tree that is not at NULL the search ends, at a node whose block has at least the size, or at
  -- NULL; NULL is returned exactly if the tree is empty or the root's block is too small.
  pub find_suitable-Fits :
      0 < h.freetree_root_ptr
      → ((i : ℕ) × (freetree_find_suitable_node size h ≡ node_at h i)
          × (node_at h i ≢ null)
          × Fits h size i)
        ⊎ ((freetree_find_suitable_node size h ≡ null) × ¬ Fits h size 0)
  unfolding freetree_find_suitable_node
  find_suitable-Fits pos =
      let n = h.freetree_node_end_offset in
      let r = h.freetree_root_ptr in
      let root : r ≡ node_at h 0 = omega arith in
      let empty : (tree_end h == r) ≡ (n == 0) =
        ap (λ p. tree_end h == p) root ∙ equal_lem h room n 0 (omega arith) (omega arith) in
      let test : (tree_end h == r || ltb (node_size h r) size) ≡ ((n == 0) || ltb (key h 0) size) =
        ap (λ b. b || ltb (node_size h r) size) empty
        ∙ ap (λ p. (n == 0) || ltb (node_size h p) size) root in
      elim (Bool-cases ((n == 0) || ltb (key h 0) size)) [
        | inl no_block ↦ inr (rw (test, no_block) refl, λ fits. ground arith)
        | inr has_block ↦
            let (i, found, good) = loop_lem n 0 (ground arith) (omega arith) in
            inl (
              i,
              rw (test, has_block) (ap (λ p. find_loop n size p h) root ∙ found),
              λ e. omega (arith, node_at_lem h (2 * n + 2) room i (omega arith)),
              good,
            )
      ]
