-- ===== src/Malloc/Tests.antt =====
-- The theorems on malloclab_code/mm.c at a heap with three free blocks and an allocated one.
use csapp_lab_code.Base.{
  ℕ, suc, ◌+◌, ◌-◌, ◌*◌, ◌^◌, ◌≤◌, ◌<◌, ◌≡◌, ◌≢◌, refl, ◌⊎◌, false, ◌==◌, if◌then◌else◌, Bool-cases,
  inl, inr, arith,
}
use csapp_lab_code.Malloc.Memory.{Heap, null, update}
use csapp_lab_code.Malloc.Block.{block_next_header}
use csapp_lab_code.Malloc.Block.Fields.{IsMemory}
use csapp_lab_code.Malloc.Block.Footer.{IsHeader}
use csapp_lab_code.Malloc.FreeTree.{freetree_find_suitable_node, freetree_delete_node}
use csapp_lab_code.Malloc.FreeTree.Tree.{IsTree}
use csapp_lab_code.Malloc.FreeTree.Order.{IsHeap}
use csapp_lab_code.Malloc.FreeTree.Delete.{IsDeleted, delete_node-IsDeleted}
use csapp_lab_code.Malloc.FreeTree.Suitable.{find_suitable-IsHeap}
use csapp_lab_code.Malloc.Setup.{
  free_block, block_setup_new_wandering, block_tryget_previous_available,
  block_tryget_next_available,
}
use csapp_lab_code.Malloc.Setup.Written.{IsPlace}
use csapp_lab_code.Malloc.Setup.Neighbours.{setup_wandering-available}
use csapp_lab_code.Malloc.Setup.Replace.{IsApart}
use csapp_lab_code.Malloc.Setup.Bind.{IsReplaced}
use csapp_lab_code.Malloc.Setup.Insert.{HasNewNode}
use csapp_lab_code.Malloc.Setup.Allocate.{IsOwn}
use csapp_lab_code.Malloc.Setup.Coalesce.{free_block_one-IsReplaced}
use csapp_lab_code.Malloc.Alloc.{Memlib, Package, adjust_capacity}
use csapp_lab_code.Malloc.Alloc.Fuel.{adjust_capacity_enough}
use csapp_lab_code.Malloc.Alloc.Served.{Served, mm_malloc-Served}
use csapp_lab_code.Malloc.Setup.Free.{free_block-IsReplaced}

-- The tree at 4096 points to free blocks of 64, 24 and 40 bytes at 8192, 8256 and 8280; behind the last
-- of them are two allocated blocks of 80 bytes, at 8320 and 8400.
abbrev memory : ℕ → ℕ
memory =
    update
      (update
        (update
          (update
            (update
              (update
                (update
                  (update
                    (update (update (update (update (λ a. 0) 4096 8192) 4104 8256) 4112 8280) 8192
                      64)
                    8248 0)
                  8256 24)
                8272 1)
              8280 40)
            8312 2)
          8320 81)
        8392 (2 ^ 56))
      8400 81

abbrev blocks : Heap
blocks = record {
  mem = memory;
  heap_start = 4088;
  heap_end = 8480;
  freetree_root_ptr = 4096;
  freetree_node_end_offset = 3;
  freetree_capacity = 12;
  is_reallocating = false;
}

abbrev pointers : ℕ → ℕ
pointers k = if k == 0 then 8192 else if k == 1 then 8256 else 8280

abbrev units : ℕ → ℕ
units k = if k == 0 then 8 else if k == 1 then 3 else 5

found : freetree_find_suitable_node 32 blocks ≡ 4112
unfolding freetree_find_suitable_node
found = refl

below_suc {ℓ} : (n : ℕ) (P : ℕ → Type ℓ) → ((k : ℕ) → k < n → P k) → P n → (k : ℕ) → k < suc n → P k
below_suc n P low top k lt = elim (Bool-cases (k == n)) [
  | inl e ↦ let last : k ≡ n = ground arith in rw (last) top
  | inr e ↦ low k (ground arith)
]

below_three {ℓ} : (P : ℕ → Type ℓ) → P 0 → P 1 → P 2 → (k : ℕ) → k < 3 → P k
below_three P a b c =
    below_suc 2 P (below_suc 1 P (below_suc 0 P (λ k lt. absurd (omega arith)) a) b) c

below_four {ℓ} : (P : ℕ → Type ℓ) → P 0 → P 1 → P 2 → P 3 → (k : ℕ) → k < 4 → P k
below_four P a b c d = below_suc 3 P (below_three P a b c) d

literal-IsHeader :
    (p q st : ℕ)
    → blocks.mem p ≡ 8 * q + st
    → st < 8
    → 1 ≤ q
    → q < 100
    → p < 10000
    → IsHeader blocks p q st
literal-IsHeader p q st word low some_unit few near = record {
  word = word;
  low = low;
  units = omega arith;
  some_unit = some_unit;
  room = omega arith;
}

blocks-IsTree : IsTree 4096 3 blocks pointers units
blocks-IsTree = record {
  root = refl;
  count = refl;
  room = omega arith;
  small = omega arith;
  node = below_three (λ k. blocks.mem (4096 + 8 * k) ≡ pointers k) refl refl refl;
  header =
      below_three (λ k. IsHeader blocks (pointers k) (units k) 0)
        (literal-IsHeader 8192 8 0 refl (omega arith) (omega arith) (omega arith) (omega arith))
        (literal-IsHeader 8256 3 0 refl (omega arith) (omega arith) (omega arith) (omega arith))
        (literal-IsHeader 8280 5 0 refl (omega arith) (omega arith) (omega arith) (omega arith));
  two = below_three (λ k. 2 ≤ units k) (omega arith) (omega arith) (omega arith);
  footer = below_three (λ k. blocks.mem (pointers k + (8 * units k - 8)) ≡ k) refl refl refl;
  header_node = λ k m lt lt'. ground arith;
  footer_node = λ k m lt lt'. ground arith;
  footer_header = λ k m lt lt'. ground arith;
  footer_footer = λ k m lt lt' ne. ground arith;
}

units-IsHeap : IsHeap 3 units
units-IsHeap = λ k pos lt. ground arith

update_lem :
    (f : ℕ → ℕ) (p v : ℕ)
    → ((a : ℕ) → f a < 2 ^ 64)
    → v < 2 ^ 64
    → (a : ℕ) → update f p v a < 2 ^ 64
update_lem f p v small lt a = elim (Bool-cases (p == a)) [
  | inl e ↦ rw (e) lt
  | inr e ↦ rw (e) (small a)
]

blocks-IsMemory : IsMemory blocks
blocks-IsMemory =
    update_lem _ 8400 81
      (update_lem _ 8392 (2 ^ 56)
        (update_lem _ 8320 81
          (update_lem _ 8312 2
            (update_lem _ 8280 40
              (update_lem _ 8272 1
                (update_lem _ 8256 24
                  (update_lem _ 8248 0
                    (update_lem _ 8192 64
                      (update_lem _ 4112 8280
                        (update_lem _ 4104 8256
                          (update_lem _ 4096 8192 (λ a. omega arith) (omega arith)) (omega arith))
                        (omega arith))
                      (omega arith))
                    (omega arith))
                  (omega arith))
                (omega arith))
              (omega arith))
            (omega arith))
          (omega arith))
        (omega arith))
      (omega arith)

literal-IsPlace : (p q : ℕ) → 1 ≤ q → q < 100 → p < 10000 → IsPlace blocks p q
literal-IsPlace p q some_unit few near = record {
  units = omega arith;
  some_unit = some_unit;
  room = omega arith;
  header_word = blocks-IsMemory p;
  footer_word = blocks-IsMemory (p + (8 * q - 8));
}

find_suitable-IsHeap_example :
    ((k : ℕ) × (k < 3)
      × (freetree_find_suitable_node 32 blocks ≡ 4096 + 8 * k)
      × (4096 + 8 * k ≢ null)
      × (32 ≤ 8 * units k))
    ⊎ ((freetree_find_suitable_node 32 blocks ≡ null) × ((k : ℕ) → k < 3 → 8 * units k < 32))
find_suitable-IsHeap_example =
    find_suitable-IsHeap 4096 3 blocks pointers units blocks-IsTree 32 (omega arith) units-IsHeap

delete_node-IsDeleted_example :
    (p' : ℕ → ℕ) × (u' : ℕ → ℕ) × IsDeleted 4096 2 0 blocks
      (freetree_delete_node 4096 blocks)
      pointers
      units
      p'
      u'
delete_node-IsDeleted_example =
    delete_node-IsDeleted 4096 2 0 blocks pointers units blocks-IsTree (omega arith) units-IsHeap

block-HasNewNode : HasNewNode 4096 3 pointers units
block-HasNewNode = record {
  room = omega arith;
  small = omega arith;
  header = λ k lt. ground arith;
  footer = λ k lt. ground arith;
}

block-IsApart : IsApart 4096 4 3 pointers units 8400 10
block-IsApart = record {
  two = omega arith;
  header_node = λ k lt. ground arith;
  footer_node = λ k lt. ground arith;
  header_header = λ k lt ne. ground arith;
  header_footer = λ k lt ne. ground arith;
  footer_header = λ k lt ne. ground arith;
  footer_footer = λ k lt ne. ground arith;
}

no_previous : block_tryget_previous_available 8400 blocks ≡ null
unfolding block_tryget_previous_available
no_previous = refl

no_next : block_tryget_next_available 8400 blocks ≡ null
unfolding block_tryget_next_available
no_next = refl

free_block-IsReplaced_example :
    (p' : ℕ → ℕ) × (u' : ℕ → ℕ) × IsReplaced 4096 4 3 blocks
      (free_block 8408 blocks)
      pointers
      units
      8400
      10
      p'
      u'
free_block-IsReplaced_example =
    free_block-IsReplaced 4096 3 blocks pointers units blocks-IsTree block-HasNewNode 8400 10
      (literal-IsPlace 8400 10 (omega arith) (omega arith) (omega arith))
      (literal-IsHeader 8400 10 1 refl (omega arith) (omega arith) (omega arith) (omega arith))
      block-IsApart units-IsHeap no_previous no_next

-- The block at 8320 and the free one before it.
merged-IsApart : IsApart 4096 3 2 pointers units 8280 15
merged-IsApart = record {
  two = omega arith;
  header_node = λ k lt. ground arith;
  footer_node = λ k lt. ground arith;
  header_header = λ k lt ne. ground arith;
  header_footer = λ k lt ne. ground arith;
  footer_header = λ k lt ne. ground arith;
  footer_footer = λ k lt ne. ground arith;
}

previous_free : block_tryget_previous_available 8320 blocks ≡ 8280
unfolding block_tryget_previous_available
previous_free = refl

next_allocated : block_tryget_next_available 8320 blocks ≡ null
unfolding block_tryget_next_available
next_allocated = refl

free_block_one-IsReplaced_example :
    (p' : ℕ → ℕ) × (u' : ℕ → ℕ) × IsReplaced 4096 3 2 blocks
      (free_block 8328 blocks)
      pointers
      units
      8280
      15
      p'
      u'
free_block_one-IsReplaced_example =
    free_block_one-IsReplaced 4096 3 2 blocks pointers units blocks-IsTree (omega arith) 8320 10
      (literal-IsHeader 8320 10 1 refl (omega arith) (omega arith) (omega arith) (omega arith))
      (literal-IsPlace 8280 15 (omega arith) (omega arith) (omega arith)) merged-IsApart
      units-IsHeap (omega arith) (inl (previous_free, next_allocated))

blocks-IsOwn : (i : ℕ) → i < 3 → IsOwn 4096 3 i pointers units
blocks-IsOwn i lt = record {
  node = λ a k low high lt'. ground arith;
  header = λ a k low high lt' ne. ground arith;
  footer = λ a k low high lt' ne. ground arith;
}

-- The heap grows by whatever is asked for.
abbrev growing : Memlib
growing = record {
  Lib = ℕ;
  mem_heap_lo = λ b. 4088;
  mem_heap_hi = λ b. b - 1;
  mem_sbrk = λ n b. (b, b + n);
}

abbrev before_call : Package growing
before_call = record { heap = blocks; lib = 8480 }

mm_malloc-Served_example : Served growing 4096 3 pointers units 8 3 before_call
mm_malloc-Served_example =
    mm_malloc-Served growing 4096 3 before_call pointers units 8 blocks-IsTree units-IsHeap
      (omega arith) blocks-IsMemory blocks-IsOwn (omega arith)

-- Three nodes are more than the capacity of 12 less 10, so the tree is moved.
adjust_capacity_enough_example :
    adjust_capacity growing 4 before_call ≡ adjust_capacity growing 1 before_call
adjust_capacity_enough_example = adjust_capacity_enough growing 3 before_call

setup_wandering-available_example :
    (block_tryget_previous_available 8408 (block_setup_new_wandering 8400 blocks) ≡ null)
    × ((b : ℕ)
        → block_next_header (block_setup_new_wandering 8400 blocks) b ≡ 8400
        → block_tryget_next_available b (block_setup_new_wandering 8400 blocks) ≡ 8400)
setup_wandering-available_example =
    setup_wandering-available 8400 blocks
      (literal-IsPlace 8400 1 (omega arith) (omega arith) (omega arith)) (omega arith, omega arith)
