-- ===== src/Malloc/Block/Footer.antt =====
-- What the setters of malloclab_code/mm.c write to the footer of a block of `q` units at `p`.
use csapp_lab_code.Base.{
  ℕ, ◌+◌, ◌-◌, ◌*◌, ◌/◌, ◌%◌, ◌^◌, ◌≤◌, ◌<◌, ◌≡◌, refl, ap, ◌∙◌, true, false, ◌==◌, if◌then◌else◌,
  arith,
}
use csapp_lab_code.Malloc.Memory.{Heap, load, store, ptr_diff}
use csapp_lab_code.Malloc.Block.{
  block_size, block_status, footer_ptr, block_next_header, set_footer_status,
  set_footer_node_offset,
}
use csapp_lab_code.Malloc.Block.Fields.{size_field, status_field}

-- The header of a block of `q` units.
pub record IsHeader (h : Heap) (p q st : ℕ) : Type 0 where
  pub word : load h p ≡ 8 * q + st
  pub low : st < 8
  pub units : q < 2 ^ 44
  pub some_unit : 1 ≤ q
  pub room : p + 8 * q < 2 ^ 63

-- The address of the footer.
abbrev pub foot : ℕ → ℕ → ℕ
foot p q = p + (8 * q - 8)

module _ (p q st : ℕ) (h : Heap) (is_header : IsHeader h p q st) where
  pub size_lem : block_size h p ≡ 8 * q
  size_lem = rw (is_header.word) (size_field q st (is_header.units) (is_header.low))

  pub status_lem : block_status h p ≡ st
  status_lem = rw (is_header.word) (status_field q st (is_header.units) (is_header.low))

  pub next_header_lem : block_next_header h p ≡ p + 8 * q
  next_header_lem = let room = is_header.room in rw (size_lem) (omega arith)

  pub footer_ptr_lem : footer_ptr h p ≡ foot p q
  footer_ptr_lem =
      let room = is_header.room in let one = is_header.some_unit in rw (size_lem) (omega arith)

  pub footer_status_lem :
      (s : ℕ)
      → s < 256
      → (a : ℕ)
      → load (set_footer_status p s h) a
        ≡ (if foot p q == a then load h (foot p q) % 2 ^ 56 + s * 2 ^ 56 else load h a)
  unfolding set_footer_status
  footer_status_lem s fits a =
      let same : s % 256 ≡ s = omega arith in rw (footer_ptr_lem, same) refl

-- The header of a block of two units or more stands after a write to its footer.
module _ (p q st v : ℕ) (h : Heap) (two : 2 ≤ q) (is_header : IsHeader h p q st) where
  pub store-IsHeader : IsHeader (store (foot p q) v h) p q st
  store-IsHeader =
      let other : (foot p q == p) ≡ false = ground arith in
      record {
        word = rw (other) (is_header.word);
        low = is_header.low;
        units = is_header.units;
        some_unit = is_header.some_unit;
        room = is_header.room;
      }

module _ (p q st : ℕ) (h : Heap) (two : 2 ≤ q) (is_header : IsHeader h p q st) where
  pub node_offset_lem :
      (node i : ℕ)
      → ptr_diff node h.freetree_root_ptr ≡ i
      → i < 2 ^ 56
      → load h (foot p q) < 2 ^ 64
      → (a : ℕ)
      → load (set_footer_node_offset p node h) a
        ≡ (if foot p q == a then i + load h (foot p q) / 2 ^ 56 * 2 ^ 56 else load h a)
  unfolding set_footer_node_offset
  node_offset_lem node i offset small word a =
      let first : footer_ptr h p ≡ foot p q = footer_ptr_lem p q st h is_header in
      let h1 = store (foot p q) i h in
      let is_header1 : IsHeader h1 p q st = store-IsHeader p q st i h two is_header in
      let self : (foot p q == foot p q) ≡ true = ground arith in
      let low : i % 2 ^ 56 ≡ i = omega arith in
      let status : load h (foot p q) / 2 ^ 56 < 256 = omega arith in
      let old = load h (foot p q) / 2 ^ 56 in
      ap
        (λ f.
          load
            (set_footer_status p (load h f / 2 ^ 56)
              (store f (ptr_diff node h.freetree_root_ptr) h))
            a)
        first
      ∙ ap (λ o. load (set_footer_status p old (store (foot p q) o h)) a) offset
      ∙ footer_status_lem p q st h1 is_header1 old status a
      ∙ rw (self, low) (ground arith)

  -- The status of a free block is 0.
  pub synced_lem :
      (node i v : ℕ)
      → ptr_diff node h.freetree_root_ptr ≡ i
      → i < 2 ^ 56
      → load h (foot p q) ≡ v
      → v < 2 ^ 56
      → (a : ℕ) → load (set_footer_node_offset p node h) a ≡ (if foot p q == a then i else load h a)
  synced_lem node i v offset small old old_small a =
      let word : load h (foot p q) < 2 ^ 64 = omega (arith, old) in
      let top : load h (foot p q) / 2 ^ 56 ≡ 0 = omega (arith, old) in
      node_offset_lem node i offset small word a ∙ rw (top) (ground arith)
