-- ===== src/Malloc/Setup/Allocated.antt =====
-- What `block_allocate` of malloclab_code/mm.c leaves, in its three cases: nothing is left of the free
-- block, one unit, or a free block.
use csapp_lab_code.Base.{
  ℕ, suc, ◌+◌, ◌-◌, ◌*◌, ◌^◌, ◌≤◌, ◌<◌, ◌≡◌, ◌≢◌, refl, ap, ◌∙◌, sym, ◌⊎◌, true, false, ◌==◌,
  Bool-cases, inl, inr, arith,
}
use csapp_lab_code.Malloc.Memory.{Heap, load}
use csapp_lab_code.Malloc.Block.Fields.{IsMemory}
use csapp_lab_code.Malloc.Block.Footer.{IsHeader, foot}
use csapp_lab_code.Malloc.FreeTree.Tree.{IsTree}
use csapp_lab_code.Malloc.FreeTree.Partial.{tree-IsTreeBut, kept-IsTreeBut, but-IsTree}
use csapp_lab_code.Malloc.FreeTree.Order.{IsHeap}
use csapp_lab_code.Malloc.FreeTree.Delete.{IsDeleted, delete_but-IsDeleted}
use csapp_lab_code.Malloc.Setup.{block_allocate, block_setup_new_wandering}
use csapp_lab_code.Malloc.Setup.Written.{IsPlace, wandering_lem}
use csapp_lab_code.Malloc.Setup.Replace.{replaced}
use csapp_lab_code.Malloc.Setup.Allocate.{
  IsOwn, allocated, allocated-frame, allocated-IsTreeBut, allocated-IsMemory, kept-IsHeader,
  allocate_pointer_lem, allocate_unit_lem, split-IsReplaced, allocate_exact_lem,
}

-- `w` of the units of the block of node `i` are allocated; the tree, of `m` nodes now, is in order. It
-- has the other blocks and, where two units or more are left, these; a unit that is left wanders.
pub record IsAllocated (r n i w : ℕ) (h h' : Heap) (p u : ℕ → ℕ) (m : ℕ) (p' u' : ℕ → ℕ)
    : Type 0 where
  pub header : IsHeader h' (p i) w 1
  pub tree : IsTree r m h' p' u'
  pub order : IsHeap m u'
  pub others : (k : ℕ) → k < n → k ≢ i → (j : ℕ) × (j < m) × (p' j ≡ p k) × (u' j ≡ u k)
  pub from :
      (j : ℕ)
      → j < m
      → ((k : ℕ) × (k < n) × (k ≢ i) × (p' j ≡ p k) × (u' j ≡ u k))
        ⊎ ((p' j ≡ p i + 8 * w) × (u' j ≡ u i - w))
  pub rest :
      (u i ≡ w)
      ⊎ ((u i ≡ suc w) × (load h' (p i + 8 * w) ≡ 0x020000000000000A))
      ⊎ ((j : ℕ) × (j < m) × (p' j ≡ p i + 8 * w) × (u' j ≡ u i - w))
  pub frame :
      (a : ℕ)
      → ((k : ℕ) → k < n → r + 8 * k ≢ a)
      → ((k : ℕ) → k < n → k ≢ i → foot (p k) (u k) ≢ a)
      → ((a < p i) ⊎ (p i + 8 * u i ≤ a))
      → load h' a ≡ load h a

module _ (r l i : ℕ) (h : Heap) (p u : ℕ → ℕ) (tree : IsTree r (suc l) h p u) (lt : i < suc l)
    (own : IsOwn r (suc l) i p u) (memory : IsMemory h) (heap : IsHeap (suc l) u) (w : ℕ)
    (two : 2 ≤ w) (fits : w ≤ u i) where
  abbrev n : ℕ
  n = suc l

  abbrev h1 : Heap
  h1 = allocated r n i h p u tree lt own memory w two fits

  -- Nothing is left.
  exact-IsAllocated :
      u i ≡ w
      → (p' : ℕ → ℕ) × (u' : ℕ → ℕ) × IsAllocated r n i w h
          (block_allocate (p i) (8 * w) h).1
          p
          u
          l
          p'
          u'
  exact-IsAllocated exact =
      let but = allocated-IsTreeBut r n i h p u tree lt own memory w two fits in
      let (p', u', deleted) = delete_but-IsDeleted r l i h1 p u but lt heap in
      let word =
        deleted.frame (p i) (λ k lt_k e. own.node (p i) k (omega arith) (omega arith) lt_k (sym e))
          (λ k lt_k ne e. own.footer (p i) k (omega arith) (omega arith) lt_k ne (sym e)) in
      rw (allocate_exact_lem r n i h p u tree lt own memory w two fits exact) (
        p',
        u',
        record {
          header = kept-IsHeader r n i h p u tree lt own memory w two fits _ word;
          tree = deleted.tree;
          order = deleted.order;
          others = λ k lt_k ne. deleted.to k lt_k ne;
          from = λ j lt_j. inl (deleted.from j lt_j);
          rest = inl exact;
          frame = λ a nodes feet outside.
              deleted.frame a nodes feet
              ∙ allocated-frame r n i h p u tree lt own memory w two fits a (ground arith)
                  (ground arith);
        },
      )

  -- The unit that is left is written, after the node is deleted.
  module _ (h2 : Heap) (p' u' : ℕ → ℕ) (deleted : IsDeleted r l i h1 h2 p u p' u')
      (one : u i ≡ suc w) where
    abbrev x : ℕ
    x = p i + 8 * w

    outside : (a : ℕ) → p i ≤ a → a < p i + 8 * u i → load h2 a ≡ load h1 a
    outside a low high =
        deleted.frame a (λ k lt_k e. own.node a k low high lt_k (sym e))
          (λ k lt_k ne e. own.footer a k low high lt_k ne (sym e))

    unit-IsPlace : IsPlace h2 x 1
    unit-IsPlace =
        let header = tree.header i lt in
        let units = header.units in
        let room = header.room in
        let word : load h2 x < 2 ^ 64 =
          rw (outside x (omega arith) (omega arith))
            (allocated-IsMemory r n i h p u tree lt own memory w two fits x) in
        let foot_x : foot x 1 ≡ x = omega arith in
        record {
          units = omega arith;
          some_unit = omega arith;
          room = omega arith;
          header_word = word;
          footer_word = rw (foot_x) word;
        }

    abbrev h3 : Heap
    h3 = block_setup_new_wandering x h2

    unit-frame : (a : ℕ) → x ≢ a → load h3 a ≡ load h2 a
    unit-frame a ne =
        let other : (x == a) ≡ false = ground arith in
        wandering_lem x h2 unit-IsPlace a ∙ rw (other) refl

    unit-IsTree : IsTree r l h3 p' u'
    unfolding block_setup_new_wandering
    unit-IsTree =
        let before = deleted.tree in
        but-IsTree r l h3 p' u' (
          kept-IsTreeBut r l l h2 h3 p' u' (tree-IsTreeBut r l l h2 p' u' before) (before.root)
            (before.count)
            (λ k lt_k ne.
              unit-frame (r + 8 * k) (own.node x k (omega arith) (omega arith) (omega arith)))
            (λ k lt_k ne.
              let (m, lt_m, other, e, e') = deleted.from k lt_k in
              unit-frame (p' k)
                (λ same. own.header x m (omega arith) (omega arith) lt_m other (same ∙ e)))
            (λ k lt_k ne.
              let (m, lt_m, other, e, e') = deleted.from k lt_k in
              unit-frame (foot (p' k) (u' k)) (λ same.
                own.footer x m (omega arith) (omega arith) lt_m other
                  (same ∙ ap (λ z. foot z (u' k)) e ∙ ap (foot (p m)) e'))))

    unit-IsAllocated : IsAllocated r n i w h h3 p u l p' u'
    unit-IsAllocated =
        let self : (x == x) ≡ true = ground arith in
        let wanders : load h3 x ≡ 0x020000000000000A =
          wandering_lem x h2 unit-IsPlace x ∙ rw (self) refl in
        record {
          header =
              kept-IsHeader r n i h p u tree lt own memory w two fits h3
                (unit-frame (p i) (omega arith) ∙ outside (p i) (omega arith) (omega arith));
          tree = unit-IsTree;
          order = deleted.order;
          others = λ k lt_k ne. deleted.to k lt_k ne;
          from = λ j lt_j. inl (deleted.from j lt_j);
          rest = inr (inl (one, wanders));
          frame = λ a nodes feet apart.
              unit-frame a (ground arith)
              ∙ deleted.frame a nodes feet
              ∙ allocated-frame r n i h p u tree lt own memory w two fits a (ground arith)
                  (ground arith);
        }

  -- A free block is left.
  module _ (larger : w + 2 ≤ u i) where
    replaced_other : (v : ℕ) (f : ℕ → ℕ) (k : ℕ) → k ≢ i → replaced i v f k ≡ f k
    replaced_other v f k ne = let other : (k == i) ≡ false = ground arith in rw (other) refl

    replaced_here : (v : ℕ) (f : ℕ → ℕ) (k : ℕ) → k ≡ i → replaced i v f k ≡ v
    replaced_here v f k e = let here : (k == i) ≡ true = ground arith in rw (here) refl

    split-IsAllocated :
        (p' : ℕ → ℕ) × (u' : ℕ → ℕ) × IsAllocated r n i w h
          (block_allocate (p i) (8 * w) h).1
          p
          u
          n
          p'
          u'
    split-IsAllocated =
        let (pointer, header, p', u', result) =
          split-IsReplaced r n i h p u tree lt own memory w two fits larger heap in
        let x = p i + 8 * w in
        let same = result.same in
        let from : (j : ℕ)
            → j < n
            → ((k : ℕ) × (k < n) × (k ≢ i) × (p' j ≡ p k) × (u' j ≡ u k))
              ⊎ ((p' j ≡ x) × (u' j ≡ u i - w)) =
          λ j lt_j.
            let (k, lt_k, e, e') = same.from j lt_j in
            elim (Bool-cases (k == i)) [
              | inl b ↦
                  let here : k ≡ i = ground arith in
                  inr (e ∙ replaced_here x p k here, e' ∙ replaced_here (u i - w) u k here)
              | inr b ↦
                  let ne : k ≢ i = ground arith in
                  inl
                    (k, lt_k, ne, e ∙ replaced_other x p k ne, e' ∙ replaced_other (u i - w) u k ne)
            ] in
        (
          p',
          u',
          record {
            header = header;
            tree = result.tree;
            order = result.order;
            others = λ k lt_k ne.
                let (j, lt_j, e, e') = same.to k lt_k in
                (j, lt_j, e ∙ replaced_other x p k ne, e' ∙ replaced_other (u i - w) u k ne);
            from = from;
            rest =
                let (j, lt_j, e, e') = same.to i lt in
                inr (
                  inr
                    (j, lt_j, e ∙ replaced_here x p i refl, e' ∙ replaced_here (u i - w) u i refl));
            frame = λ a nodes feet apart.
                result.frame a nodes
                  (λ j lt_j e. elim (from j lt_j) [
                    | inl (k, lt_k, ne, f, f') ↦
                        feet k lt_k ne
                          (ap (λ z. foot z (u k)) (sym f) ∙ ap (foot (p' j)) (sym f') ∙ e)
                    | inr (f, f') ↦
                        let e' : foot x (u i - w) ≡ a =
                          ap (λ z. foot z (u i - w)) (sym f) ∙ ap (foot (p' j)) (sym f') ∙ e in
                        ground arith
                  ])
                  (ground arith)
                ∙ allocated-frame r n i h p u tree lt own memory w two fits a (ground arith)
                    (ground arith);
          },
        )

  pub block_allocate-IsAllocated :
      ((block_allocate (p i) (8 * w) h).0 ≡ p i + 8)
      × (m : ℕ) × (p' : ℕ → ℕ) × (u' : ℕ → ℕ) × IsAllocated r n i w h
          (block_allocate (p i) (8 * w) h).1
          p
          u
          m
          p'
          u'
  block_allocate-IsAllocated =
      let pointer = allocate_pointer_lem r n i h p u tree lt own memory w two fits in
      elim (Bool-cases (u i == w)) [
        | inl e ↦
            let (p', u', result) = exact-IsAllocated (ground arith) in (pointer, l, p', u', result)
        | inr e ↦ elim (Bool-cases (u i == suc w)) [
          | inl e' ↦
              let one : u i ≡ suc w = ground arith in
              let but = allocated-IsTreeBut r n i h p u tree lt own memory w two fits in
              let (p', u', deleted) = delete_but-IsDeleted r l i h1 p u but lt heap in
              rw (allocate_unit_lem r n i h p u tree lt own memory w two fits one)
                (pointer, l, p', u', unit-IsAllocated _ p' u' deleted one)
          | inr e' ↦
              let (p', u', result) = split-IsAllocated (ground arith) in
              (pointer, n, p', u', result)
        ]
      ]
