-- ===== src/Malloc/Alloc/Served.antt =====
-- `mm_malloc` of malloclab_code/mm.c, on a tree of free blocks in order.
use csapp_lab_code.Base.{
  ℕ, zero, suc, ◌+◌, ◌*◌, ◌/◌, ◌^◌, ◌≤◌, ◌<◌, ◌≡◌, ◌≢◌, ap, ◌∙◌, ◌⊎◌, false, ◌==◌, inl, inr, arith,
}
use csapp_lab_code.Malloc.Memory.{Heap, null}
use csapp_lab_code.Malloc.Block.Fields.{IsMemory}
use csapp_lab_code.Malloc.FreeTree.{freetree_find_suitable_node}
use csapp_lab_code.Malloc.FreeTree.Tree.{IsTree}
use csapp_lab_code.Malloc.FreeTree.Order.{IsHeap}
use csapp_lab_code.Malloc.FreeTree.Suitable.{find_suitable-IsHeap}
use csapp_lab_code.Malloc.Setup.{block_allocate}
use csapp_lab_code.Malloc.Setup.Allocate.{IsOwn}
use csapp_lab_code.Malloc.Setup.Allocated.{IsAllocated, block_allocate-IsAllocated}
use csapp_lab_code.Malloc.Adopt.{request_size}
use csapp_lab_code.Malloc.Alloc.{
  Memlib, Package, Result, adjust_capacity, malloc_with, allocate_or_enlarge,
  mem_enlarge_and_allocate, mm_malloc,
}

-- The units of a block for `size` bytes, with its header and the status byte of its footer.
abbrev pub request_units : ℕ → ℕ
request_units size = (size + 16) / 8

request_size_lem : (size : ℕ) → size < 2 ^ 47 → request_size size ≡ 8 * request_units size
request_size_lem size lt = omega arith

module _ (memlib : Memlib) where
  -- The array of the tree is resized after the call, if necessary.
  abbrev pub adjusted : Result memlib → Result memlib
  adjusted out = record out { state = adjust_capacity memlib 1 out.state }

  abbrev served_at : ℕ × Heap → Package memlib → Result memlib
  served_at out s = record { pointer = out.0; state = record s { heap = out.1 } }

  -- The call goes to a node of the tree.
  abbrev pub served : ℕ → ℕ → Package memlib → Result memlib
  served x w s = record {
    pointer = x + 8;
    state = record s { heap = (block_allocate x (8 * w) s.heap).1 };
  }

  found_lem :
      (s : Package memlib) (size : ℕ)
      → size < 2 ^ 47
      → (node : ℕ) → freetree_find_suitable_node (8 * request_units size) (s.heap) ≡ node
      → mm_malloc memlib size s
        ≡ adjusted (allocate_or_enlarge memlib node (8 * request_units size) s)
  unfolding mm_malloc malloc_with
  found_lem s size lt node found =
      ap (λ z. adjusted (allocate_or_enlarge memlib (freetree_find_suitable_node z (s.heap)) z s))
        (request_size_lem size lt)
      ∙ ap (λ x. adjusted (allocate_or_enlarge memlib x (8 * request_units size) s)) found

  module _ (r l : ℕ) (s : Package memlib) (p u : ℕ → ℕ) (tree : IsTree r (suc l) (s.heap) p u)
      (size : ℕ) where
    placed_lem :
        (i : ℕ)
        → i < suc l
        → r + 8 * i ≢ null
        → ((block_allocate (p i) (8 * request_units size) (s.heap)).0 ≡ p i + 8)
        → allocate_or_enlarge memlib (r + 8 * i) (8 * request_units size) s
          ≡ served (p i) (request_units size) s
    placed_lem i lt_i not_null pointer =
        let w = request_units size in
        let test : (r + 8 * i == null) ≡ false = ground arith in
        let place = λ (x : ℕ). served_at (block_allocate x (8 * w) (s.heap)) s in
        rw (test) (
          ap place (tree.node i lt_i)
          ∙ ap (λ q. served_at (q, (block_allocate (p i) (8 * w) (s.heap)).1) s) pointer)

  -- What a call for `w` units does: a node of the tree has a block of at least as many, or no block has
  -- and the heap is enlarged.
  abbrev pub Served : (r n : ℕ) → (p u : ℕ → ℕ) → ℕ → ℕ → Package memlib → Type 0
  Served r n p u size w s =
      ((i : ℕ) × (i < n)
        × (w ≤ u i)
        × (mm_malloc memlib size s ≡ adjusted (served (p i) w s))
        × (m : ℕ) × (p' : ℕ → ℕ) × (u' : ℕ → ℕ) × IsAllocated r n i w (s.heap)
            (block_allocate (p i) (8 * w) (s.heap)).1 p u m p' u')
      ⊎ (((k : ℕ) → k < n → u k < w)
          × (mm_malloc memlib size s ≡ adjusted (mem_enlarge_and_allocate memlib (8 * w) s)))

  hit :
      (r n : ℕ) (s : Package memlib) (p u : ℕ → ℕ) (size : ℕ)
      → IsTree r n (s.heap) p u
      → IsHeap n u
      → IsMemory (s.heap)
      → ((i : ℕ) → i < n → IsOwn r n i p u)
      → size < 2 ^ 47
      → (i : ℕ) → i < n
      → freetree_find_suitable_node (8 * request_units size) (s.heap) ≡ r + 8 * i
      → r + 8 * i ≢ null
      → request_units size ≤ u i
      → Served r n p u size (request_units size) s
  hit r zero s p u size tree heap memory own lt i lt_i found not_null fits = absurd (omega arith)
  hit r (suc l) s p u size tree heap memory own lt i lt_i found not_null fits =
      let w = request_units size in
      let (pointer, m, p', u', result) =
        block_allocate-IsAllocated r l i (s.heap) p u tree lt_i (own i lt_i) memory heap w
          (omega arith) fits in
      inl (
        i,
        lt_i,
        fits,
        found_lem s size lt (r + 8 * i) found
            ∙ ap adjusted (placed_lem r l s p u tree size i lt_i not_null pointer),
        m,
        p',
        u',
        result,
      )

  -- On a tree in order that is not at NULL, with 64-bit words in the memory and with blocks that
  -- have their units to themselves, `mm_malloc` of less than 2 ^ 47 bytes takes a block of the tree
  -- with at least the units of the request, or, if no block has as many, enlarges the heap, and
  -- then looks at the capacity of the tree. In the first case the pointer is behind the block's
  -- header, which holds the units and the status of an allocated block; before the capacity is
  -- looked at, the tree is in order again, with all other blocks and, where at least two units are
  -- left, the rest; a unit that is left is a wandering block; and nothing changes outside of the
  -- nodes, of the footers of the tree's blocks and of the block that is taken.
  pub mm_malloc-Served :
      (r n : ℕ) (s : Package memlib) (p u : ℕ → ℕ) (size : ℕ)
      → IsTree r n (s.heap) p u
      → IsHeap n u
      → 0 < r
      → IsMemory (s.heap)
      → ((i : ℕ) → i < n → IsOwn r n i p u)
      → size < 2 ^ 47
      → Served r n p u size (request_units size) s
  mm_malloc-Served r n s p u size tree heap pos memory own lt =
      elim (find_suitable-IsHeap r n (s.heap) p u tree (8 * request_units size) pos heap) [
        | inl (i, lt_i, found, not_null, fits) ↦
            hit r n s p u size tree heap memory own lt i lt_i found not_null (omega arith)
        | inr (found, small) ↦
            inr (λ k lt_k. omega (arith, small k lt_k), found_lem s size lt null found)
      ]
