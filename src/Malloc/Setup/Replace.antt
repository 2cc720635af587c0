-- ===== src/Malloc/Setup/Replace.antt =====
-- A node of the tree of malloclab_code/mm.c is given to another free block.
use csapp_lab_code.Base.{
  ℕ, ◌+◌, ◌*◌, ◌≤◌, ◌<◌, ◌≡◌, ◌≢◌, refl, ◌∙◌, sym, true, false, ◌==◌, if◌then◌else◌, Bool-cases,
  inl, inr, arith,
}
use csapp_lab_code.Malloc.Memory.{Heap, load}
use csapp_lab_code.Malloc.Block.Footer.{IsHeader, foot}
use csapp_lab_code.Malloc.FreeTree.Tree.{IsTree, offset_at_lem}
use csapp_lab_code.Malloc.FreeTree.Partial.{IsTreeBut}
use csapp_lab_code.Malloc.Setup.{block_setup_new_freed}
use csapp_lab_code.Malloc.Setup.Written.{IsPlace, freed_lem}

-- The function with the value `v` at `i`.
abbrev pub replaced : ℕ → ℕ → (ℕ → ℕ) → ℕ → ℕ
replaced i v f k = if k == i then v else f k

-- A block of `q` units at `x` that shares nothing with the nodes, nor with the blocks of other nodes
-- than `i`.
pub record IsApart (r n i : ℕ) (p u : ℕ → ℕ) (x q : ℕ) : Type 0 where
  pub two : 2 ≤ q
  pub header_node : (k : ℕ) → k < n → x ≢ r + 8 * k
  pub footer_node : (k : ℕ) → k < n → foot x q ≢ r + 8 * k
  pub header_header : (k : ℕ) → k < n → k ≢ i → x ≢ p k
  pub header_footer : (k : ℕ) → k < n → k ≢ i → x ≢ foot (p k) (u k)
  pub footer_header : (k : ℕ) → k < n → k ≢ i → foot x q ≢ p k
  pub footer_footer : (k : ℕ) → k < n → k ≢ i → foot x q ≢ foot (p k) (u k)

module _ (r n i : ℕ) (h : Heap) (p u : ℕ → ℕ) (tree : IsTreeBut r n i h p u) (lt_i : i < n)
    (x q : ℕ) (place : IsPlace h x q) (apart : IsApart r n i p u x q) where
  -- The memory with the block, before its node is moved.
  abbrev pub written : Heap
  written = block_setup_new_freed x (8 * q) (r + 8 * i) h

  written_lem :
      (a : ℕ)
      → load written a ≡ (
          if r + 8 * i == a
          then x
          else if foot x q == a
          then i
          else if x == a
          then 8 * q
          else load h a)
  written_lem a =
      let small = tree.small in
      freed_lem x q h place (apart.two) (r + 8 * i) i
        (offset_at_lem r n h i (tree.root) (tree.room) lt_i) (omega arith) a

  pub written-frame : (a : ℕ) → r + 8 * i ≢ a → foot x q ≢ a → x ≢ a → load written a ≡ load h a
  written-frame a ne_node ne_footer ne_header =
      let n1 : (r + 8 * i == a) ≡ false = ground arith in
      let f1 : (foot x q == a) ≡ false = ground arith in
      let x1 : (x == a) ≡ false = ground arith in written_lem a ∙ rw (n1, f1, x1) refl

  new_header_lem : IsHeader written x q 0
  new_header_lem =
      let two = apart.two in
      let n1 : (r + 8 * i == x) ≡ false = ground (arith, apart.header_node i lt_i) in
      let f1 : (foot x q == x) ≡ false = ground arith in
      let self : (x == x) ≡ true = ground arith in
      record {
        word = written_lem x ∙ rw (n1, f1, self) (omega arith);
        low = omega arith;
        units = place.units;
        some_unit = place.some_unit;
        room = place.room;
      }

  old_header_lem : (k : ℕ) → k < n → k ≢ i → IsHeader written (p k) (u k) 0
  old_header_lem k lt ne =
      let header = tree.header k lt ne in
      record {
        word =
            written-frame (p k) (λ e. tree.header_node k i lt lt_i ne (sym e))
              (apart.footer_header k lt ne) (apart.header_header k lt ne)
            ∙ header.word;
        low = header.low;
        units = header.units;
        some_unit = header.some_unit;
        room = header.room;
      }

  old_footer_lem : (k : ℕ) → k < n → k ≢ i → load written (foot (p k) (u k)) ≡ k
  old_footer_lem k lt ne =
      written-frame (foot (p k) (u k)) (λ e. tree.footer_node k i lt lt_i ne (sym e))
        (apart.footer_footer k lt ne) (apart.header_footer k lt ne)
      ∙ tree.footer k lt ne

  old_node_lem : (k : ℕ) → k < n → k ≢ i → load written (r + 8 * k) ≡ p k
  old_node_lem k lt ne =
      written-frame (r + 8 * k) (omega arith) (apart.footer_node k lt) (apart.header_node k lt)
      ∙ tree.node k lt ne

  -- A property of every block, of the new one and of the others.
  by_block {ℓ} :
      (P : ℕ → ℕ → ℕ → Type ℓ)
      → P i x q
      → ((k : ℕ) → k < n → k ≢ i → P k (p k) (u k))
      → (k : ℕ) → k < n
      → P k (replaced i x p k) (replaced i q u k)
  by_block P new old k lt = elim (Bool-cases (k == i)) [
    | inl e ↦ let is_new : k ≡ i = ground arith in rw (e, is_new) new
    | inr e ↦ rw (e) (old k lt (ground arith))
  ]

  -- A property of every two different blocks.
  by_blocks :
      (P : ℕ → ℕ → ℕ → ℕ → Type 0)
      → ((k : ℕ) → k < n → k ≢ i → P x q (p k) (u k))
      → ((k : ℕ) → k < n → k ≢ i → P (p k) (u k) x q)
      → ((k m : ℕ) → k < n → m < n → k ≢ i → m ≢ i → k ≢ m → P (p k) (u k) (p m) (u m))
      → (k m : ℕ) → k < n
      → m < n
      → k ≢ m
      → P (replaced i x p k) (replaced i q u k) (replaced i x p m) (replaced i q u m)
  by_blocks P new_old old_new old_old k m lt lt' =
      by_block (λ k a w. k ≢ m → P a w (replaced i x p m) (replaced i q u m))
        (by_block (λ m b v. i ≢ m → P x q b v) (λ ne. absurd (ne refl))
          (λ m lt ne differ. new_old m lt ne) m lt')
        (λ k lt ne.
          by_block (λ m b v. k ≢ m → P (p k) (u k) b v) (λ differ. old_new k lt ne)
            (λ m lt' ne' differ. old_old k m lt lt' ne ne' differ) m lt')
        k lt

  footer_header_lem :
      (k m : ℕ) → k < n → m < n → foot (replaced i x p k) (replaced i q u k) ≢ replaced i x p m
  footer_header_lem k m lt lt' =
      let two = apart.two in
      by_block (λ k a w. foot a w ≢ replaced i x p m)
        (by_block (λ m b v. foot x q ≢ b) (omega arith) (apart.footer_header) m lt')
        (λ k lt ne.
          by_block (λ m b v. foot (p k) (u k) ≢ b) (λ e. apart.header_footer k lt ne (sym e))
            (λ m lt' ne'. tree.footer_header k m lt lt' ne ne') m lt')
        k lt

  pub written-IsTree : IsTree r n written (replaced i x p) (replaced i q u)
  unfolding block_setup_new_freed
  written-IsTree =
      let self : (a : ℕ) → (a == a) ≡ true = λ a. ground arith in
      let n1 : (r + 8 * i == foot x q) ≡ false = ground (arith, apart.footer_node i lt_i) in
      record {
        root = tree.root;
        count = tree.count;
        room = tree.room;
        small = tree.small;
        node =
            by_block (λ k a w. load written (r + 8 * k) ≡ a)
              (written_lem (r + 8 * i) ∙ rw (self (r + 8 * i)) refl) old_node_lem;
        header = by_block (λ k a w. IsHeader written a w 0) new_header_lem old_header_lem;
        two = by_block (λ k a w. 2 ≤ w) (apart.two) (tree.two);
        footer =
            by_block (λ k a w. load written (foot a w) ≡ k)
              (written_lem (foot x q) ∙ rw (n1, self (foot x q)) refl) old_footer_lem;
        header_node = λ k m lt lt'.
            by_block (λ k a w. a ≢ r + 8 * m) (apart.header_node m lt')
              (λ k lt ne. tree.header_node k m lt lt' ne) k lt;
        footer_node = λ k m lt lt'.
            by_block (λ k a w. foot a w ≢ r + 8 * m) (apart.footer_node m lt')
              (λ k lt ne. tree.footer_node k m lt lt' ne) k lt;
        footer_header = footer_header_lem;
        footer_footer =
            by_blocks (λ a w b v. foot a w ≢ foot b v) (apart.footer_footer)
              (λ k lt ne e. apart.footer_footer k lt ne (sym e)) (tree.footer_footer);
      }
