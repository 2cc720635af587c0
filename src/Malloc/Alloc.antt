-- ===== src/Malloc/Alloc.antt =====
-- The routines of malloclab_code/mm.c: enlarging the heap, malloc, free, realloc, and the array of the
-- tree, which lies in a block of its own and is moved by `mm_realloc`. The lab's memlib is a parameter.
-- `pagesize`, which nothing reads, is left out.
pub mod Served
pub mod Fuel
use csapp_lab_code.Base.{
  ℕ, zero, suc, ◌+◌, ◌-◌, ◌*◌, ◌/◌, ◌%◌, ◌^◌, Bool, true, false, ltb, ◌||◌, ◌&&◌, ◌==◌,
  if◌then◌else◌,
}
use csapp_lab_code.Malloc.Memory.{
  Heap, load, ptr_add, ptr_back, address_mod, null, align, copy_bytes,
}
use csapp_lab_code.Malloc.Block.{block_size, block_node_ptr}
use csapp_lab_code.Malloc.FreeTree.{freetree_delete_node, freetree_find_suitable_node}
use csapp_lab_code.Malloc.Adopt.{request_size, move_root, adopt, place_adopted}
use csapp_lab_code.Malloc.Setup.{
  free_block, block_tryget_previous_available, block_setup_new_allocated, block_allocate,
}

-- The routines of memlib that the package calls, on a state of their own.
pub record Memlib : Type 1 where
  pub Lib : Type 0
  pub mem_heap_lo : Lib → ℕ
  pub mem_heap_hi : Lib → ℕ
  pub mem_sbrk : ℕ → Lib → ℕ × Lib

abbrev pub freetree_minimum_cap : ℕ
freetree_minimum_cap = 12

-- `ALIGN((size_t)((float)capacity * 1.5f))`, exact in `float` for a capacity below 2 ^ 22
abbrev pub grown_capacity : ℕ → ℕ
grown_capacity capacity = align (capacity * 3 / 2)

-- `(float)count / (float)capacity < 0.6f` for numbers below 2 ^ 24. The quotient is rounded to 24 bits;
-- it is below 0.6f, which is 10066330 / 2 ^ 24, if it is below the middle of 0.6f and the number before it.
abbrev pub is_sparse : ℕ → ℕ → Bool
is_sparse count capacity = ltb (count * 2 ^ 25) (20132659 * capacity)

abbrev pub set_reallocating : Bool → Heap → Heap
set_reallocating b h = record h { is_reallocating = b }

-- The package with the state of memlib, and with what a call returns.
pub record Package (memlib : Memlib) : Type 0 where
  pub heap : Heap
  pub lib : memlib.Lib

pub record Result (memlib : Memlib) : Type 0 where
  pub pointer : ℕ
  pub state : Package memlib

module _ (memlib : Memlib) where
  abbrev pub with_heap : (Heap → Heap) → Package memlib → Package memlib
  with_heap f s = record s { heap = f s.heap }

  -- `mem_sbrk` fails with `(void*)(-1)`.
  abbrev pub sbrk_failed : ℕ
  sbrk_failed = 2 ^ 64 - 1

  -- The end of `mem_enlarge_and_allocate`: the call of `mem_sbrk`, and the block at `p` if it succeeds.
  unfoldable pub enlarge : (Bool × ℕ) → ℕ → ℕ → Package memlib → Result memlib
  enlarge (at_end, p) grow size s =
      let out = memlib.mem_sbrk grow s.lib in
      let new = if at_end then p else out.0 in
      let h = record s.heap { heap_end = (memlib.mem_heap_hi out.1 + 1) % address_mod } in
      if out.0 == sbrk_failed
      then record { pointer = null; state = record { heap = s.heap; lib = out.1 } }
      else record {
        pointer = ptr_add new 1;
        state = record { heap = block_setup_new_allocated new size h; lib = out.1 };
      }

  unfoldable pub mem_enlarge_and_allocate : ℕ → Package memlib → Result memlib
  unfolding enlarge
  mem_enlarge_and_allocate size s =
      let last = block_tryget_previous_available s.heap.heap_end s.heap in
      let h = freetree_delete_node (block_node_ptr s.heap last) s.heap in
      let grow = (size + (address_mod - block_size h last)) % address_mod in
      if last == null
      then enlarge (false, null) size size s
      else enlarge (true, last) grow size (record s { heap = h })

  abbrev pub allocate_or_enlarge : ℕ → ℕ → Package memlib → Result memlib
  allocate_or_enlarge node new_size s =
      let out = block_allocate (load s.heap node) new_size s.heap in
      let enlarged = mem_enlarge_and_allocate new_size s in
      if node == null
      then enlarged
      else record { pointer = out.0; state = record s { heap = out.1 } }

  -- `mm_malloc`, `mm_free` and `mm_realloc` with `freetree_adjust_capacity_if_necessary` as an
  -- argument, which calls the last of them.
  unfoldable pub malloc_with :
      (Package memlib → Package memlib) → ℕ → Package memlib → Result memlib
  malloc_with adjust size s =
      let new_size = request_size size in
      let out = allocate_or_enlarge (freetree_find_suitable_node new_size s.heap) new_size s in
      record out { state = adjust out.state }

  unfoldable pub free_with : (Package memlib → Package memlib) → ℕ → Package memlib → Package memlib
  free_with adjust ptr s = adjust (with_heap (free_block ptr) s)

  -- No place was found: a new block, and a copy.
  unfoldable pub relocate :
      (Package memlib → Package memlib) → ℕ → ℕ → ℕ → Package memlib → Result memlib
  unfolding malloc_with free_with
  relocate adjust ptr new_size copy_size s =
      let out = malloc_with adjust new_size s in
      let moved =
        with_heap (λ h. move_root out.pointer (copy_bytes out.pointer ptr copy_size h)) out.state in
      record out { state = adjust (free_with adjust ptr moved) }

  unfoldable pub realloc_with :
      (Package memlib → Package memlib) → ℕ → ℕ → Package memlib → Result memlib
  unfolding relocate
  realloc_with adjust ptr size s =
      let new_size = request_size size in
      let own = block_size s.heap (ptr_back ptr) in
      let copy_size = if ltb size own then size else own in
      let found = adopt ptr new_size copy_size s.heap in
      let relocated = relocate adjust ptr new_size copy_size (record s { heap = found.heap }) in
      let placed = adjust (record s { heap = place_adopted new_size found }) in
      if new_size == own
      then record { pointer = ptr; state = s }
      else if found.header == null
      then relocated
      else record { pointer = ptr_add found.header 1; state = placed }

  -- The array of the tree is moved to a block for the new capacity.
  unfoldable pub set_capacity :
      (Package memlib → Package memlib) → ℕ → Package memlib → Package memlib
  unfolding realloc_with
  set_capacity adjust capacity s =
      let s1 = with_heap (set_reallocating true) s in
      let out = realloc_with adjust s.heap.freetree_root_ptr (8 * capacity % address_mod) s1 in
      with_heap
        (λ h. record h {
          freetree_root_ptr = out.pointer;
          freetree_capacity = capacity;
          is_reallocating = false;
        })
        out.state

  -- `freetree_adjust_capacity_if_necessary`. It is called again while the tree is moved, and then
  -- returns at once, so one level is fuel enough.
  unfoldable pub adjust_capacity : ℕ → Package memlib → Package memlib
  unfolding set_capacity
  adjust_capacity zero s = s
  adjust_capacity (suc fuel) s =
      let h = s.heap in
      let count = h.freetree_node_end_offset in
      let capacity = h.freetree_capacity in
      let shrunk = align ((count / 2 + capacity / 2) % address_mod) in
      let grow = set_capacity (adjust_capacity fuel) (grown_capacity capacity) s in
      let shrink = set_capacity (adjust_capacity fuel) shrunk s in
      if h.is_reallocating
      then s
      else if ltb ((capacity + (address_mod - 10)) % address_mod) count
      then grow
      else if ltb 256 capacity && is_sparse count capacity
      then if shrunk == capacity || ltb shrunk freetree_minimum_cap then s else shrink
      else s

  unfoldable pub mm_malloc : ℕ → Package memlib → Result memlib
  unfolding malloc_with adjust_capacity
  mm_malloc = malloc_with (adjust_capacity 1)

  unfoldable pub mm_free : ℕ → Package memlib → Package memlib
  unfolding free_with adjust_capacity
  mm_free = free_with (adjust_capacity 1)

  unfoldable pub mm_realloc : ℕ → ℕ → Package memlib → Result memlib
  unfolding realloc_with adjust_capacity
  mm_realloc = realloc_with (adjust_capacity 1)

  -- The variables hold what they did; the first block is that of the tree.
  unfoldable pub mm_init : Package memlib → Package memlib
  unfolding mm_malloc
  mm_init s =
      let start = memlib.mem_heap_lo s.lib in
      let h = record s.heap {
        heap_start = start;
        heap_end = start;
        freetree_root_ptr = start;
        freetree_node_end_offset = 0;
        freetree_capacity = freetree_minimum_cap;
      } in
      let out = mm_malloc (8 * freetree_minimum_cap) (record s { heap = h }) in
      with_heap (λ h. record h { freetree_root_ptr = out.pointer }) out.state
