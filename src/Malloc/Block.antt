-- ===== src/Malloc/Block.antt =====
-- The header and the footer of a block in malloclab_code/mm.c. The header holds the size in bytes and a
-- status in the low three bits; the footer of a free block holds the offset of its node in the tree,
-- and a status in the highest byte.
pub mod Fields
pub mod Footer
use Prim.Native.Nat.{bit_and, bit_or}
use csapp_lab_code.Base.{ℕ, ◌+◌, ◌*◌, ◌/◌, ◌%◌, ◌^◌, Bool, ltb, ◌==◌, if◌then◌else◌}
use csapp_lab_code.Malloc.Memory.{Heap, load, store, ptr_add, ptr_back, ptr_diff, node_not_exist}

abbrev pub block_freed : ℕ
block_freed = 0

abbrev pub block_allocated : ℕ
block_allocated = 1

abbrev pub block_wandering : ℕ
block_wandering = 2

-- `BLOCK_IS_WANDERING(p)`
abbrev pub is_wandering : Heap → ℕ → Bool
is_wandering h p = load h p == 0x020000000000000A

abbrev pub block_status : Heap → ℕ → ℕ
block_status h p = bit_and (load h p) 7

abbrev pub block_size : Heap → ℕ → ℕ
block_size h p = bit_and (load h p) 0x00007FFFFFFFFFF8

abbrev pub block_unit_count : Heap → ℕ → ℕ
block_unit_count h p = block_size h p / 8

-- `BLOCK_FOOTER_PTR(pHeader)`
abbrev pub footer_ptr : Heap → ℕ → ℕ
footer_ptr h p = ptr_back (ptr_add p (block_unit_count h p))

-- `BLOCK_FOOTER_OFFSET_VALUE(pFooter)`
abbrev pub footer_offset : Heap → ℕ → ℕ
footer_offset h footer = bit_and (load h footer) 0x00FFFFFFFFFFFFFF

-- `BLOCK_FOOTER_STATUS_VALUE(pFooter)`, the highest byte
abbrev pub footer_status : Heap → ℕ → ℕ
footer_status h footer = load h footer / 2 ^ 56

-- `FOOTER_IS_VALID(pFooter)`
abbrev pub footer_is_valid : Heap → ℕ → Bool
footer_is_valid h footer = ltb (footer_offset h footer) h.freetree_node_end_offset

unfoldable pub block_node_offset : Heap → ℕ → ℕ
block_node_offset h p =
    if footer_ptr h p == p then node_not_exist else footer_offset h (footer_ptr h p)

unfoldable pub block_node_ptr : Heap → ℕ → ℕ
unfolding block_node_offset
block_node_ptr h p =
    if footer_ptr h p == p
    then node_not_exist
    else ptr_add h.freetree_root_ptr (block_node_offset h p)

abbrev pub block_footer_status : Heap → ℕ → ℕ
block_footer_status h p = footer_status h (footer_ptr h p)

abbrev pub block_next_header : Heap → ℕ → ℕ
block_next_header h p = ptr_add p (block_unit_count h p)

-- The header of the free block with this footer, by way of the tree.
abbrev pub block_header : Heap → ℕ → ℕ
block_header h footer = load h (ptr_add h.freetree_root_ptr (footer_offset h footer))

unfoldable pub set_header_status : ℕ → ℕ → Heap → Heap
set_header_status p status h = store p (bit_or (block_size h p) status) h

unfoldable pub set_header_size : ℕ → ℕ → Heap → Heap
set_header_size p size h = store p (bit_or size (block_status h p)) h

-- A write to the highest byte of the footer.
unfoldable pub set_footer_status : ℕ → ℕ → Heap → Heap
set_footer_status p status h =
    let footer = footer_ptr h p in store footer (load h footer % 2 ^ 56 + status % 256 * 2 ^ 56) h

unfoldable pub set_footer_node_offset : ℕ → ℕ → Heap → Heap
unfolding set_footer_status
set_footer_node_offset p node h =
    let status = block_footer_status h p in
    set_footer_status p status (store (footer_ptr h p) (ptr_diff node h.freetree_root_ptr) h)
