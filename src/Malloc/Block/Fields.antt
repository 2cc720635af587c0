-- ===== src/Malloc/Block/Fields.antt =====
-- What the setters of malloclab_code/mm.c write to the header and the footer of a block.
use Prim.Native.Nat.{bit_and, bit_or}
use csapp_lab_code.Base.{ℕ, ◌+◌, ◌*◌, ◌^◌, ◌<◌, ◌≡◌, true, ◌==◌, if◌then◌else◌, arith}
use csapp_lab_code.Words.Fields.{and_mask, and_field, or_fields}
use csapp_lab_code.Malloc.Memory.{Heap, load}
use csapp_lab_code.Malloc.Block.{block_status, set_header_status, set_header_size}

-- A header of `q` units with status `st`.
module _ (q st : ℕ) (fits : q < 2 ^ 44) (low : st < 8) where
  pub size_field : bit_and (8 * q + st) 0x00007FFFFFFFFFF8 ≡ 8 * q
  size_field = omega (arith, and_field 3 44 64 (8 * q + st) (omega arith))

  pub status_field : bit_and (8 * q + st) 7 ≡ st
  status_field = omega (arith, and_mask 3 64 (8 * q + st) (omega arith))

  or_status : bit_or (8 * q) st ≡ 8 * q + st
  or_status =
      let scaled : 8 * q ≡ q * 2 ^ 3 = omega arith in rw scaled (or_fields 3 q st 44 fits low)

-- Every unit of the memory holds 64 bits.
abbrev pub IsMemory : Heap → Type 0
IsMemory h = (a : ℕ) → load h a < 2 ^ 64

module _ (p q st : ℕ) (h : Heap) (fits : q < 2 ^ 44) (low : st < 8) (word : load h p < 2 ^ 64) where
  pub header_lem :
      (a : ℕ)
      → load (set_header_status p st (set_header_size p (8 * q) h)) a
        ≡ (if p == a then 8 * q + st else load h a)
  unfolding set_header_size set_header_status
  header_lem a =
      let old = block_status h p in
      let old_low : old < 8 = omega (arith, and_mask 3 64 (load h p) word) in
      let first = or_status q old fits old_low in
      let size = size_field q old fits old_low in
      let second = or_status q st fits low in
      let self : (p == p) ≡ true = ground arith in rw (first, self, size, second) (ground arith)
