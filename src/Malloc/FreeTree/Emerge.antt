-- ===== src/Malloc/FreeTree/Emerge.antt =====
-- `freetree_emerge_node` of malloclab_code/mm.c: the loop ends, and restores the order of the tree.
use csapp_lab_code.Base.{
  ℕ, zero, suc, ◌+◌, ◌-◌, ◌*◌, ◌≤◌, ◌<◌, ◌≡◌, refl, ap, ◌∙◌, inl, inr, true, false, ltb, ◌==◌,
  Bool-cases, arith,
}
use csapp_lab_code.Malloc.Memory.{Heap}
use csapp_lab_code.Malloc.FreeTree.{
  emerge_loop, freetree_emerge_node, freetree_swap_nodes, node_size,
}
use csapp_lab_code.Malloc.FreeTree.Tree.{
  IsTree, IsReordered, reorder_refl, reorder_trans, node_size_lem, parent_at_lem,
}
use csapp_lab_code.Malloc.FreeTree.Swap.{swap-IsReordered}
use csapp_lab_code.Malloc.FreeTree.Order.{parent, IsHeap, IsHeapAbove, emerge_step_lem}

module _ (fuel r n i : ℕ) (h : Heap) (p u : ℕ → ℕ) (tree : IsTree r n h p u) (lt : i < n) where
  emerge_root_lem : i ≡ 0 → emerge_loop (suc fuel) (r + 8 * i) h ≡ h
  unfolding emerge_loop
  emerge_root_lem e =
      let at_root : (r + 8 * i == h.freetree_root_ptr) ≡ true = ground (arith, tree.root) in
      rw (at_root) refl

  module _ (pos : 0 < i) where
    not_root : (r + 8 * i == h.freetree_root_ptr) ≡ false
    not_root = ground (arith, tree.root)

    sizes :
        ltb (node_size h (r + 8 * parent i)) (node_size h (r + 8 * i)) ≡ ltb (u (parent i)) (u i)
    sizes =
        rw
          (node_size_lem r n h p u tree i lt, node_size_lem r n h p u tree (parent i) (omega arith))
          (ground arith)

    emerge_stop_lem : ltb (u (parent i)) (u i) ≡ false → emerge_loop (suc fuel) (r + 8 * i) h ≡ h
    unfolding emerge_loop
    emerge_stop_lem e = rw (not_root, parent_at_lem r n h p u tree i lt pos, sizes, e) refl

    emerge_move_lem :
        ltb (u (parent i)) (u i) ≡ true
        → emerge_loop (suc fuel) (r + 8 * i) h
          ≡ emerge_loop fuel
              (r + 8 * parent i)
              (freetree_swap_nodes (r + 8 * i) (r + 8 * parent i) h)
    unfolding emerge_loop
    emerge_move_lem e = rw (not_root, parent_at_lem r n h p u tree i lt pos, sizes, e) refl

-- The loop from node `i` on, which may be too large for its parent.
emerge_loop-IsReordered :
    (fuel r n i : ℕ) (h : Heap) (p u : ℕ → ℕ)
    → IsTree r n h p u
    → i < n
    → i ≤ fuel
    → IsHeapAbove n u i
    → (p' : ℕ → ℕ) × (u' : ℕ → ℕ) × IsReordered r n h (emerge_loop fuel (r + 8 * i) h) p u p' u'
      × IsHeap n u'
unfolding emerge_loop
emerge_loop-IsReordered zero r n i h p u tree lt enough above =
    (p, u, reorder_refl r n h p u tree, λ k pos lt'. above.order k pos lt' (omega arith))
emerge_loop-IsReordered (suc fuel) r n i h p u tree lt enough above = elim (Bool-cases (i == 0)) [
  | inl e ↦
      rw (emerge_root_lem fuel r n i h p u tree lt (ground arith))
        (p, u, reorder_refl r n h p u tree, λ k pos lt'. above.order k pos lt' (ground arith))
  | inr e ↦
      let pos : 0 < i = ground arith in
      elim (Bool-cases (ltb (u (parent i)) (u i))) [
        | inl larger ↦
            let lt_p : parent i < n = omega arith in
            let step = swap-IsReordered r n h p u tree i (parent i) lt lt_p (omega arith) in
            let above' = emerge_step_lem n u (parent i) i refl pos lt above (ground arith) in
            let (p', u', rest, heap) =
              emerge_loop-IsReordered fuel r n (parent i) _ _ _ (step.tree) lt_p (omega arith)
                above' in
            rw (emerge_move_lem fuel r n i h p u tree lt pos larger)
              (p', u', reorder_trans r n h _ _ p u _ _ p' u' step rest, heap)
        | inr fits ↦ rw (emerge_stop_lem fuel r n i h p u tree lt pos fits) (
          p,
          u,
          reorder_refl r n h p u tree,
          λ k pos' lt'. elim (Bool-cases (k == i)) [
            | inl e' ↦ let same : k ≡ i = ground arith in rw (same) (ground arith)
            | inr e' ↦ above.order k pos' lt' (ground arith)
          ],
        )
      ]
]

pub emerge_node-IsReordered :
    (r n i : ℕ) (h : Heap) (p u : ℕ → ℕ)
    → IsTree r n h p u
    → i < n
    → IsHeapAbove n u i
    → (p' : ℕ → ℕ) × (u' : ℕ → ℕ) × IsReordered r n h (freetree_emerge_node (r + 8 * i) h) p u p' u'
      × IsHeap n u'
unfolding freetree_emerge_node
emerge_node-IsReordered r n i h p u tree lt above =
    emerge_loop-IsReordered (h.freetree_node_end_offset) r n i h p u tree lt
      (omega (arith, tree.count)) above

-- A node that is not too large for its parent stays where it is.
pub emerge_node_stays :
    (r n i : ℕ) (h : Heap) (p u : ℕ → ℕ)
    → IsTree r n h p u
    → i < n
    → (0 < i → u i ≤ u (parent i))
    → freetree_emerge_node (r + 8 * i) h ≡ h
unfolding freetree_emerge_node
emerge_node_stays r n i h p u tree lt fits =
    let some_node : n ≡ suc (n - 1) = omega arith in
    let fuel = λ (f : ℕ). emerge_loop f (r + 8 * i) h in
    ap fuel (tree.count) ∙ ap fuel some_node ∙ elim (Bool-cases (i == 0)) [
      | inl e ↦ emerge_root_lem (n - 1) r n i h p u tree lt (ground arith)
      | inr e ↦
          let pos : 0 < i = ground arith in
          let low = fits pos in emerge_stop_lem (n - 1) r n i h p u tree lt pos (ground arith)
    ]
