-- ===== src/Malloc/FreeTree/Order.antt =====
-- The order of the max-heap in malloclab_code/mm.c, on the sizes alone: what a swap of a node with its
-- larger son, or with its parent, does to it.
use csapp_lab_code.Base.{
  ℕ, ◌-◌, ◌/◌, ◌≤◌, ◌<◌, ◌≡◌, ◌≢◌, refl, ◌∙◌, ◌⊎◌, inl, inr, true, false, ◌==◌, Bool-cases, arith,
}
use csapp_lab_code.Malloc.FreeTree.Swap.{swapped}

abbrev pub parent : ℕ → ℕ
parent k = (k - 1) / 2

-- A parent is at least as large as its sons.
abbrev pub IsHeap : ℕ → (ℕ → ℕ) → Type 0
IsHeap n u = (k : ℕ) → 0 < k → k < n → u k ≤ u (parent k)

-- Only node `i` may be too large for its parent, which is large enough for its sons.
pub record IsHeapAbove (n : ℕ) (u : ℕ → ℕ) (i : ℕ) : Type 0 where
  pub order : (k : ℕ) → 0 < k → k < n → k ≢ i → u k ≤ u (parent k)
  pub sons : (k : ℕ) → 0 < k → k < n → parent k ≡ i → 0 < i → u k ≤ u (parent i)

-- Only node `i` may be too small for its sons, for which its parent is large enough, and only `e` too
-- large for its parent.
pub record IsHeapBelow (n : ℕ) (u : ℕ → ℕ) (e i : ℕ) : Type 0 where
  pub order : (k : ℕ) → 0 < k → k < n → parent k ≢ i → k ≢ e → u k ≤ u (parent k)
  pub sons : (k : ℕ) → 0 < k → k < n → parent k ≡ i → 0 < i → u k ≤ u (parent i)

-- A node without a larger son.
pub below_lem :
    (n : ℕ) (u : ℕ → ℕ) (e i : ℕ)
    → IsHeapBelow n u e i
    → ((k : ℕ) → 0 < k → k < n → parent k ≡ i → u k ≤ u i)
    → (k : ℕ) → 0 < k
    → k < n
    → k ≢ e
    → u k ≤ u (parent k)
below_lem n u e i below largest k pos lt ne = elim (Bool-cases (parent k == i)) [
  | inl son ↦ let is_son : parent k ≡ i = ground arith in rw (is_son) (largest k pos lt is_son)
  | inr apart ↦ below.order k pos lt (ground arith) ne
]

pub heap_above_lem : (n : ℕ) (u : ℕ → ℕ) (e : ℕ) → IsHeapAbove n u 0 → e < n → IsHeapAbove n u e
heap_above_lem n u e above lt = record {
  order = λ k pos lt' ne. above.order k pos lt' (omega arith);
  sons = λ k pos lt' son pos'.
      let own : u k ≤ u (parent k) = above.order k pos lt' (omega arith) in
      let own' : u k ≤ u e = rw son at own in
      let next : u e ≤ u (parent e) = above.order e pos' lt (omega arith) in omega arith;
}

-- The loop down stops.
pub stop_above_lem :
    (n : ℕ) (u : ℕ → ℕ) (e i : ℕ)
    → IsHeapBelow n u e i
    → ((e ≡ 0) ⊎ (e ≡ i))
    → ((k : ℕ) → 0 < k → k < n → parent k ≡ i → u k ≤ u i)
    → IsHeapAbove n u e
stop_above_lem n u e i below start largest = record {
  order = below_lem n u e i below largest;
  sons = λ k pos lt son pos'.
      let is_start : e ≡ i = ground arith in
      rw (is_start) (below.sons k pos lt (son ∙ is_start) (ground arith));
}

module _ (u : ℕ → ℕ) (i j : ℕ) where
  swapped_first : (k : ℕ) → k ≡ i → swapped i j u k ≡ u j
  swapped_first k e = let test : (k == i) ≡ true = ground arith in rw (test) refl

  swapped_second : (k : ℕ) → k ≢ i → k ≡ j → swapped i j u k ≡ u i
  swapped_second k ne e =
      let test : (k == i) ≡ false = ground arith in
      let test' : (k == j) ≡ true = ground arith in rw (test, test') refl

  swapped_other : (k : ℕ) → k ≢ i → k ≢ j → swapped i j u k ≡ u k
  swapped_other k ne ne' =
      let test : (k == i) ≡ false = ground arith in
      let test' : (k == j) ≡ false = ground arith in rw (test, test') refl

module _ (n : ℕ) (u : ℕ → ℕ) (i c : ℕ) (son : parent c ≡ i) (pos_c : 0 < c) (lt_c : c < n) where
  -- The node goes down to its largest son.
  pub sink_step_lem :
      (e : ℕ)
      → IsHeapBelow n u e i
      → ((e ≡ 0) ⊎ (e ≡ i))
      → u i ≤ u c
      → ((k : ℕ) → 0 < k → k < n → parent k ≡ i → u k ≤ u c)
      → IsHeapBelow n (swapped i c u) 0 c
  sink_step_lem e below start larger largest = record {
    order = λ k pos lt apart ne. elim (Bool-cases (parent k == i)) [
      | inl b ↦
          let is_son : parent k ≡ i = ground arith in
          rw (swapped_first u i c (parent k) is_son) (elim (Bool-cases (k == c)) [
            | inl b' ↦ rw (swapped_second u i c k (ground arith) (ground arith)) larger
            | inr b' ↦
                rw (swapped_other u i c k (ground arith) (ground arith)) (largest k pos lt is_son)
          ])
      | inr b ↦
          let no_son : parent k ≢ i = ground arith in
          rw (swapped_other u i c (parent k) no_son apart) (elim (Bool-cases (k == i)) [
            | inl b' ↦
                let is_i : k ≡ i = ground arith in
                rw (swapped_first u i c k is_i, is_i) (below.sons c pos_c lt_c son (omega arith))
            | inr b' ↦
                rw (swapped_other u i c k (ground arith) (ground arith))
                  (below.order k pos lt no_son (ground arith))
          ])
    ];
    sons = λ k pos lt is_son pos'.
        rw (swapped_first u i c (parent c) son, swapped_other u i c k (omega arith) (omega arith))
          (rw is_son at (below.order k pos lt (omega arith) (ground arith)));
  }

  -- The node goes up to its parent.
  pub emerge_step_lem : IsHeapAbove n u c → u i ≤ u c → IsHeapAbove n (swapped c i u) i
  emerge_step_lem above larger = record {
    order = λ k pos lt ne. elim (Bool-cases (parent k == i)) [
      | inl b ↦
          let is_son : parent k ≡ i = ground arith in
          rw (swapped_second u c i (parent k) (omega arith) is_son) (elim (Bool-cases (k == c)) [
            | inl b' ↦ rw (swapped_first u c i k (ground arith)) larger
            | inr b' ↦
                let before : u k ≤ u (parent k) = above.order k pos lt (ground arith) in
                let before' : u k ≤ u i = rw is_son at before in
                rw (swapped_other u c i k (ground arith) (omega arith)) (omega arith)
          ])
      | inr b ↦
          let no_son : parent k ≢ i = ground arith in
          elim (Bool-cases (parent k == c)) [
            | inl b' ↦
                let is_son : parent k ≡ c = ground arith in
                let before : u k ≤ u (parent c) = above.sons k pos lt is_son pos_c in
                rw (swapped_first u c i (parent k) is_son, swapped_other u c i k (omega arith) ne)
                  (rw son at before)
            | inr b' ↦
                rw
                  (
                    swapped_other u c i (parent k) (ground arith) no_son,
                    swapped_other u c i k (ground arith) ne,
                  )
                  (above.order k pos lt (ground arith))
          ]
    ];
    sons = λ k pos lt is_son pos'.
        let upward : u i ≤ u (parent i) = above.order i pos' (omega arith) (omega arith) in
        rw (swapped_other u c i (parent i) (omega arith) (omega arith))
          (elim (Bool-cases (k == c)) [
            | inl b' ↦ rw (swapped_first u c i k (ground arith)) upward
            | inr b' ↦
                let before : u k ≤ u (parent k) = above.order k pos lt (ground arith) in
                let before' : u k ≤ u i = rw is_son at before in
                rw (swapped_other u c i k (ground arith) (omega arith)) (omega arith)
          ]);
  }
