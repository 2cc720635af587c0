-- ===== src/Malloc/Alloc/Fuel.antt =====
-- The recursion of `freetree_adjust_capacity_if_necessary` in malloclab_code/mm.c by way of `mm_realloc`:
-- while the tree is moved, the calls in between return at once.
use csapp_lab_code.Base.{
  ℕ, zero, suc, ◌+◌, ◌-◌, ◌*◌, ◌/◌, ◌%◌, ◌≡◌, refl, sym, ap, ◌∙◌, Bool, true, false, ltb, ◌&&◌,
  ◌||◌, ◌==◌, if◌then◌else◌, Bool-cases, inl, inr,
}
use csapp_lab_code.Malloc.Memory.{load, ptr_add, ptr_back, address_mod, null, align, copy_bytes}
use csapp_lab_code.Malloc.Block.{block_size, block_node_ptr}
use csapp_lab_code.Malloc.FreeTree.{freetree_delete_node, freetree_find_suitable_node}
use csapp_lab_code.Malloc.Setup.{block_tryget_previous_available, free_block}
use csapp_lab_code.Malloc.Adopt.{request_size, move_root, adopt, place_adopted}
use csapp_lab_code.Malloc.Flag.{flag, flag-delete, flag-allocated, flag-allocate, flag-free}
use csapp_lab_code.Malloc.Flag.Realloc.{flag-copy, flag-adopt, flag-place}
use csapp_lab_code.Malloc.Alloc.{
  Memlib, Package, Result, freetree_minimum_cap, grown_capacity, is_sparse, set_reallocating,
  with_heap, sbrk_failed, enlarge, mem_enlarge_and_allocate, allocate_or_enlarge, malloc_with,
  free_with, relocate, realloc_with, set_capacity, adjust_capacity,
}

if_true {ℓ} : {A : Type ℓ} (b : Bool) (x y : A) → b ≡ true → (if b then x else y) ≡ x
if_true b x y e = rw (e) refl

module _ (memlib : Memlib) where
  -- The tree is being moved.
  abbrev Moving : Package memlib → Type 0
  Moving s = flag (s.heap) ≡ true

  abbrev Idle : (Package memlib → Package memlib) → Type 0
  Idle adjust = (s : Package memlib) → Moving s → adjust s ≡ s

  abbrev keep : Package memlib → Package memlib
  keep s = s

  flag-enlarge :
      (at : Bool × ℕ) (grow size : ℕ) (s : Package memlib)
      → flag ((enlarge memlib at grow size s).state.heap) ≡ flag (s.heap)
  unfolding enlarge
  flag-enlarge (at_end, p) grow size s =
      let out = memlib.mem_sbrk grow s.lib in
      let new = if at_end then p else out.0 in
      elim (Bool-cases (out.0 == sbrk_failed memlib)) [
        | inl e ↦ rw (e) refl
        | inr e ↦ rw (e) (flag-allocated new size _)
      ]

  flag-mem_enlarge :
      (size : ℕ) (s : Package memlib)
      → flag ((mem_enlarge_and_allocate memlib size s).state.heap) ≡ flag (s.heap)
  unfolding mem_enlarge_and_allocate
  flag-mem_enlarge size s =
      let last = block_tryget_previous_available (s.heap.heap_end) (s.heap) in
      let h = freetree_delete_node (block_node_ptr (s.heap) last) (s.heap) in
      let grow = (size + (address_mod - block_size h last)) % address_mod in
      elim (Bool-cases (last == null)) [
        | inl e ↦ rw (e) (flag-enlarge (false, null) size size s)
        | inr e ↦ rw (e) (
            flag-enlarge (true, last) grow size (record s { heap = h })
            ∙ flag-delete (block_node_ptr (s.heap) last) (s.heap))
      ]

  flag-allocate_or_enlarge :
      (node size : ℕ) (s : Package memlib)
      → flag ((allocate_or_enlarge memlib node size s).state.heap) ≡ flag (s.heap)
  flag-allocate_or_enlarge node size s = elim (Bool-cases (node == null)) [
    | inl e ↦ rw (e) (flag-mem_enlarge size s)
    | inr e ↦ rw (e) (flag-allocate (load (s.heap) node) size (s.heap))
  ]

  flag-malloc :
      (size : ℕ) (s : Package memlib)
      → flag ((malloc_with memlib keep size s).state.heap) ≡ flag (s.heap)
  unfolding malloc_with
  flag-malloc size s =
      let new_size = request_size size in
      flag-allocate_or_enlarge (freetree_find_suitable_node new_size (s.heap)) new_size s

  -- A routine that is idle while the tree is moved could as well be left out.
  module _ (adjust : Package memlib → Package memlib) (idle : Idle adjust) where
    malloc_lem :
        (size : ℕ) (s : Package memlib)
        → Moving s
        → malloc_with memlib adjust size s ≡ malloc_with memlib keep size s
    unfolding malloc_with
    malloc_lem size s moving =
        let out = malloc_with memlib keep size s in
        ap (λ state. record out { state = state }) (idle (out.state) (flag-malloc size s ∙ moving))

    free_lem :
        (ptr : ℕ) (s : Package memlib)
        → Moving s
        → free_with memlib adjust ptr s ≡ free_with memlib keep ptr s
    unfolding free_with
    free_lem ptr s moving =
        idle (with_heap memlib (free_block ptr) s) (flag-free ptr (s.heap) ∙ moving)

    free-Moving : (ptr : ℕ) (s : Package memlib) → Moving s → Moving (free_with memlib keep ptr s)
    unfolding free_with
    free-Moving ptr s moving = flag-free ptr (s.heap) ∙ moving

    relocate_lem :
        (ptr new_size size : ℕ) (s : Package memlib)
        → Moving s
        → relocate memlib adjust ptr new_size size s ≡ relocate memlib keep ptr new_size size s
    unfolding relocate
    relocate_lem ptr new_size size s moving =
        let moved = λ (out : Result memlib).
          with_heap memlib (λ h. move_root out.pointer (copy_bytes out.pointer ptr size h))
            out.state in
        let out = malloc_with memlib keep new_size s in
        let moving' : Moving (moved out) =
          flag-copy (out.pointer) ptr size (out.state.heap) ∙ flag-malloc new_size s ∙ moving in
        ap {A = Result memlib} {B = Result memlib}
          (λ o. record o { state = adjust (free_with memlib adjust ptr (moved o)) })
          (malloc_lem new_size s moving)
        ∙ ap {A = Package memlib} {B = Result memlib} (λ state. record out { state = adjust state })
            (free_lem ptr (moved out) moving')
        ∙ ap {A = Package memlib} {B = Result memlib} (λ state. record out { state = state })
            (idle (free_with memlib keep ptr (moved out)) (free-Moving ptr (moved out) moving'))

    realloc_lem :
        (ptr size : ℕ) (s : Package memlib)
        → Moving s
        → realloc_with memlib adjust ptr size s ≡ realloc_with memlib keep ptr size s
    unfolding realloc_with
    realloc_lem ptr size s moving =
        let new_size = request_size size in
        let own = block_size s.heap (ptr_back ptr) in
        let copy_size = if ltb size own then size else own in
        let found = adopt ptr new_size copy_size s.heap in
        let adopted : flag (found.heap) ≡ true =
          flag-adopt ptr new_size copy_size (s.heap) ∙ moving in
        let choose = λ (relocated : Result memlib) (placed : Package memlib).
          if new_size == own
          then record { pointer = ptr; state = s }
          else if found.header == null
          then relocated
          else record { pointer = ptr_add found.header 1; state = placed } in
        let s' = record s { heap = found.heap } in
        let placed = record s { heap = place_adopted new_size found } in
        ap (λ out. choose out (adjust placed)) (relocate_lem ptr new_size copy_size s' adopted)
        ∙ ap (choose (relocate memlib keep ptr new_size copy_size s'))
            (idle placed (flag-place new_size found ∙ adopted))

    capacity_lem :
        (capacity : ℕ) (s : Package memlib)
        → set_capacity memlib adjust capacity s ≡ set_capacity memlib keep capacity s
    unfolding set_capacity
    capacity_lem capacity s =
        ap
          (λ out.
            with_heap memlib
              (λ h. record h {
                freetree_root_ptr = out.pointer;
                freetree_capacity = capacity;
                is_reallocating = false;
              })
              out.state)
          (realloc_lem (s.heap.freetree_root_ptr) (8 * capacity % address_mod)
            (with_heap memlib (set_reallocating true) s) refl)

  adjust-Idle : (fuel : ℕ) → Idle (adjust_capacity memlib fuel)
  unfolding adjust_capacity
  adjust-Idle zero s moving = refl
  adjust-Idle (suc fuel) s moving = if_true (s.heap.is_reallocating) s _ moving

  -- `freetree_adjust_capacity_if_necessary`, which calls itself by way of `mm_realloc`, `mm_malloc`
  -- and `mm_free`, needs no more than one level of these calls: with any more levels of fuel its
  -- result is the same.
  pub adjust_capacity_enough :
      (fuel : ℕ) (s : Package memlib)
      → adjust_capacity memlib (suc fuel) s ≡ adjust_capacity memlib 1 s
  unfolding adjust_capacity
  adjust_capacity_enough fuel s =
      let h = s.heap in
      let count = h.freetree_node_end_offset in
      let capacity = h.freetree_capacity in
      let shrunk = align ((count / 2 + capacity / 2) % address_mod) in
      let choose = λ (grow shrink : Package memlib).
        if h.is_reallocating
        then s
        else if ltb ((capacity + (address_mod - 10)) % address_mod) count
        then grow
        else if ltb 256 capacity && is_sparse count capacity
        then if shrunk == capacity || ltb shrunk freetree_minimum_cap then s else shrink
        else s in
      let same = λ (c : ℕ).
        capacity_lem (adjust_capacity memlib fuel) (adjust-Idle fuel) c s
        ∙ sym (capacity_lem (adjust_capacity memlib 0) (adjust-Idle 0) c s) in
      ap (λ g. choose g (set_capacity memlib (adjust_capacity memlib fuel) shrunk s))
        (same (grown_capacity capacity))
      ∙ ap (choose (set_capacity memlib (adjust_capacity memlib 0) (grown_capacity capacity) s))
          (same shrunk)
