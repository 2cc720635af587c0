-- ===== src/Malloc/Memory.antt =====
-- The memory and the global variables of malloclab_code/mm.c. A pointer is a byte address below 2 ^ 64,
-- 0 is NULL; the memory is a function from the address of a unit of eight bytes to its value, and
-- every access is to a whole unit, or to a byte of one. The function also gives what stands outside of
-- the heap, where a wrong pointer leads.
use csapp_lab_code.Base.{
  ℕ, zero, suc, ◌+◌, ◌-◌, ◌*◌, ◌/◌, ◌%◌, ◌^◌, Bool, ltb, leb, ◌||◌, ◌==◌, if◌then◌else◌,
}

pub record Heap : Type 0 where
  pub mem : ℕ → ℕ
  pub heap_start : ℕ
  pub heap_end : ℕ
  pub freetree_root_ptr : ℕ
  pub freetree_node_end_offset : ℕ
  pub freetree_capacity : ℕ
  pub is_reallocating : Bool

abbrev pub address_mod : ℕ
address_mod = 2 ^ 64

abbrev pub null : ℕ
null = 0

-- `(freetree_node*)(~0)`, and the same number as an offset
abbrev pub node_not_exist : ℕ
node_not_exist = 2 ^ 64 - 1

abbrev pub unit_size : ℕ
unit_size = 8

-- `ALIGN(size)`
abbrev pub align : ℕ → ℕ
align size = (size + 7) % address_mod / 8 * 8

abbrev pub update : (ℕ → ℕ) → ℕ → ℕ → ℕ → ℕ
update f p v q = if p == q then v else f q

-- `*p`
abbrev pub load : Heap → ℕ → ℕ
load h p = h.mem p

-- `*p = v`
abbrev pub store : ℕ → ℕ → Heap → Heap
store p v h = record h { mem = update h.mem p v }

-- `p + n` on a pointer to units
abbrev pub ptr_add : ℕ → ℕ → ℕ
ptr_add p n = (p + 8 * n) % address_mod

-- `p - 1`
abbrev pub ptr_back : ℕ → ℕ
ptr_back p = (p + (address_mod - 8)) % address_mod

-- `x >> k` on a signed number of 64 bits, for 0 < k
abbrev pub sar64 : ℕ → ℕ → ℕ
sar64 x k = if ltb x (2 ^ 63) then x / 2 ^ k else x / 2 ^ k + (address_mod - 2 ^ (64 - k))

-- `p - q` on pointers to units
abbrev pub ptr_diff : ℕ → ℕ → ℕ
ptr_diff p q = sar64 ((p + (address_mod - q)) % address_mod) 3

-- `ADDRESS_OUT_OF_HEAP_BOUNDRY(ptr)`
abbrev pub out_of_heap : Heap → ℕ → Bool
out_of_heap h p = ltb p h.heap_start || leb h.heap_end p

-- The whole units of a copy from `src` to `dst`, from the lowest on.
unfoldable pub copy_units : ℕ → ℕ → ℕ → Heap → Heap
copy_units zero dst src h = h
copy_units (suc n) dst src h =
    copy_units n (ptr_add dst 1) (ptr_add src 1) (store dst (load h src) h)

-- `memmove` of `n` bytes to a lower address, or `memcpy`: a last part of a unit changes its low bytes.
unfoldable pub copy_bytes : ℕ → ℕ → ℕ → Heap → Heap
copy_bytes dst src n h =
    let h' = copy_units (n / 8) dst src h in
    let d = ptr_add dst (n / 8) in
    let s = ptr_add src (n / 8) in
    let part = 256 ^ (n % 8) in
    if n % 8 == 0 then h' else store d (load h' d / part * part + load h' s % part) h'
