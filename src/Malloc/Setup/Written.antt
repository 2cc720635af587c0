-- ===== src/Malloc/Setup/Written.antt =====
-- What the blocks that malloclab_code/mm.c sets up leave in the memory.
use csapp_lab_code.Base.{
  ℕ, ◌+◌, ◌*◌, ◌/◌, ◌%◌, ◌^◌, ◌≤◌, ◌<◌, ◌≡◌, refl, ap, ◌∙◌, true, false, ◌==◌, if◌then◌else◌, arith,
}
use csapp_lab_code.Malloc.Memory.{Heap, load, ptr_diff}
use csapp_lab_code.Malloc.Block.{set_header_status, set_header_size, set_footer_node_offset}
use csapp_lab_code.Malloc.Block.Fields.{header_lem}
use csapp_lab_code.Malloc.Block.Footer.{IsHeader, foot, footer_status_lem, node_offset_lem}
use csapp_lab_code.Malloc.Setup.{
  block_setup_new_allocated, block_setup_new_freed, block_setup_new_wandering,
}

-- A place for a block of `q` units at `p`, in the lower half of the address space.
pub record IsPlace (h : Heap) (p q : ℕ) : Type 0 where
  pub units : q < 2 ^ 44
  pub some_unit : 1 ≤ q
  pub room : p + 8 * q < 2 ^ 63
  pub header_word : load h p < 2 ^ 64
  pub footer_word : load h (foot p q) < 2 ^ 64

module _ (p q st : ℕ) (h : Heap) (place : IsPlace h p q) (low : st < 8) where
  -- The memory with the header.
  abbrev pub with_header : Heap
  with_header = set_header_status p st (set_header_size p (8 * q) h)

  pub with_header_lem : (a : ℕ) → load with_header a ≡ (if p == a then 8 * q + st else load h a)
  with_header_lem = header_lem p q st h (place.units) low (place.header_word)

  pub with_header-IsHeader : IsHeader with_header p q st
  with_header-IsHeader =
      let self : (p == p) ≡ true = ground arith in
      record {
        word = with_header_lem p ∙ rw (self) refl;
        low = low;
        units = place.units;
        some_unit = place.some_unit;
        room = place.room;
      }

module _ (p q : ℕ) (h : Heap) (place : IsPlace h p q) (two : 2 ≤ q) where
  other : (p == foot p q) ≡ false
  other = ground arith

  pub allocated_lem :
      (a : ℕ)
      → load (block_setup_new_allocated p (8 * q) h) a ≡ (
          if foot p q == a
          then load h (foot p q) % 2 ^ 56 + 2 ^ 56
          else if p == a
          then 8 * q + 1
          else load h a)
  unfolding block_setup_new_allocated
  allocated_lem a =
      let small : 1 < 8 = omega arith in
      footer_status_lem p q 1 _ (with_header-IsHeader p q 1 h place small) 1 (omega arith) a
      ∙ rw
          (
            with_header_lem p q 1 h place small (foot p q),
            with_header_lem p q 1 h place small a,
            other,
          )
          refl

  module _ (node i : ℕ) (offset : ptr_diff node h.freetree_root_ptr ≡ i) (small : i < 2 ^ 56) where
    -- The memory with the header and the place of the node.
    abbrev with_node : Heap
    with_node = set_footer_node_offset p node (with_header p q 0 h place (omega arith))

    same_offset : ptr_diff node ((with_header p q 0 h place (omega arith)).freetree_root_ptr) ≡ i
    unfolding set_header_status set_header_size
    same_offset = offset

    with_node_lem :
        (a : ℕ)
        → load with_node a ≡ (
            if foot p q == a
            then i + load h (foot p q) / 2 ^ 56 * 2 ^ 56
            else if p == a
            then 8 * q
            else load h a)
    with_node_lem a =
        let low : 0 < 8 = omega arith in
        let no_status : 8 * q + 0 ≡ 8 * q = omega arith in
        let written = with_header_lem p q 0 h place low in
        let before : load (with_header p q 0 h place low) (foot p q) ≡ load h (foot p q) =
          written (foot p q) ∙ rw (other) refl in
        let word : load (with_header p q 0 h place low) (foot p q) < 2 ^ 64 =
          rw (before) (place.footer_word) in
        node_offset_lem p q 0 _ two (with_header-IsHeader p q 0 h place low) node i same_offset
          small word a
        ∙ ap
            (λ b.
              if foot p q == a
              then i + b / 2 ^ 56 * 2 ^ 56
              else load (with_header p q 0 h place low) a)
            before
        ∙ ap (λ b. if foot p q == a then i + load h (foot p q) / 2 ^ 56 * 2 ^ 56 else b) (written a)
        ∙ rw (no_status) refl

    with_node-IsHeader : IsHeader with_node p q 0
    with_node-IsHeader =
        let self : (p == p) ≡ true = ground arith in
        let apart : (foot p q == p) ≡ false = ground arith in
        record {
          word = with_node_lem p ∙ rw (self, apart) (omega arith);
          low = omega arith;
          units = place.units;
          some_unit = place.some_unit;
          room = place.room;
        }

    pub freed_lem :
        (a : ℕ)
        → load (block_setup_new_freed p (8 * q) node h) a ≡ (
            if node == a
            then p
            else if foot p q == a
            then i
            else if p == a
            then 8 * q
            else load h a)
    unfolding block_setup_new_freed
    freed_lem a =
        let low : (i + load h (foot p q) / 2 ^ 56 * 2 ^ 56) % 2 ^ 56 ≡ i = omega arith in
        let self : (foot p q == foot p q) ≡ true = ground arith in
        let at_foot : load with_node (foot p q) % 2 ^ 56 + 0 ≡ i =
          ap (λ v. v % 2 ^ 56 + 0) {y = i + load h (foot p q) / 2 ^ 56 * 2 ^ 56}
            (with_node_lem (foot p q) ∙ rw (self) refl)
          ∙ (omega arith) in
        ap (λ v. if node == a then p else v)
          (footer_status_lem p q 0 with_node with_node-IsHeader 0 (omega arith) a
            ∙ ap (λ v. if foot p q == a then v else load with_node a) at_foot
            ∙ rw (with_node_lem a) (ground arith))

-- A block of one unit, whose footer is its header.
module _ (p : ℕ) (h : Heap) (place : IsPlace h p 1) where
  pub wandering_lem :
      (a : ℕ)
      → load (block_setup_new_wandering p h) a ≡ (if p == a then 0x020000000000000A else load h a)
  unfolding block_setup_new_wandering
  wandering_lem a =
      let small : 2 < 8 = omega arith in
      let header = with_header p 1 2 h place small in
      let one : foot p 1 ≡ p = omega arith in
      let self : (p == p) ≡ true = ground arith in
      let at_header : load header p ≡ 10 = with_header_lem p 1 2 h place small p ∙ rw (self) refl in
      footer_status_lem p 1 2 header (with_header-IsHeader p 1 2 h place small) 2 (omega arith) a
      ∙ rw (one, at_header, with_header_lem p 1 2 h place small a) (ground arith)
