-- ===== src/Malloc/FreeTree/Suitable.antt =====
-- The search for a free block in malloclab_code/mm.c in a tree that is in order.
use csapp_lab_code.Base.{
  ℕ, zero, suc, ◌+◌, ◌*◌, ◌≤◌, ◌<◌, ◌≡◌, ◌≢◌, ◌∙◌, ◌⊎◌, inl, inr, Bool-cases, ltb, arith,
}
use csapp_lab_code.Malloc.Memory.{Heap, null}
use csapp_lab_code.Malloc.FreeTree.{freetree_find_suitable_node}
use csapp_lab_code.Malloc.FreeTree.Address.{TreeRoom}
use csapp_lab_code.Malloc.FreeTree.Find.{key, find_suitable-Fits}
use csapp_lab_code.Malloc.FreeTree.Tree.{IsTree, slot_lem, node_size_lem}
use csapp_lab_code.Malloc.FreeTree.Order.{parent, IsHeap}

-- No block is larger than that of the root.
root_lem : (fuel n : ℕ) (u : ℕ → ℕ) → IsHeap n u → (k : ℕ) → k < n → k ≤ fuel → u k ≤ u 0
root_lem zero n u heap k lt le = let at_root : k ≡ 0 = omega arith in rw (at_root) (omega arith)
root_lem (suc fuel) n u heap k lt le = elim (Bool-cases (ltb 0 k)) [
  | inl e ↦
      let above = root_lem fuel n u heap (parent k) (omega arith) (ground arith) in
      let step = heap k (ground arith) lt in omega arith
  | inr e ↦ let at_root : k ≡ 0 = ground arith in rw (at_root) (omega arith)
]

module _ (r n : ℕ) (h : Heap) (p u : ℕ → ℕ) (tree : IsTree r n h p u) where
  key_lem : (k : ℕ) → k < n → key h k ≡ 8 * u k
  key_lem k lt = rw (slot_lem r n h p u tree k (omega arith)) (node_size_lem r n h p u tree k lt)

  tree-TreeRoom : TreeRoom h
  tree-TreeRoom = rw (tree.root, tree.count) (tree.room)

  -- In a tree in order that is not at NULL, `freetree_find_suitable_node` comes to an end within
  -- its fuel: at a node of the tree, not NULL, whose block has at least the size, or with NULL, and
  -- then every block of the tree is smaller.
  pub find_suitable-IsHeap :
      (size : ℕ)
      → 0 < r
      → IsHeap n u
      → ((k : ℕ) × (k < n)
          × (freetree_find_suitable_node size h ≡ r + 8 * k)
          × (r + 8 * k ≢ null)
          × (size ≤ 8 * u k))
        ⊎ ((freetree_find_suitable_node size h ≡ null) × ((k : ℕ) → k < n → 8 * u k < size))
  find_suitable-IsHeap size pos heap =
      elim (find_suitable-Fits h size tree-TreeRoom (omega (arith, tree.root))) [
        | inl (k, found, not_null, (lt, fits)) ↦
            let lt' : k < n = omega (arith, tree.count) in
            inl (
              k,
              lt',
              found ∙ slot_lem r n h p u tree k (omega arith),
              omega arith,
              rw (key_lem k lt') at fits,
            )
        | inr (found, none_fits) ↦ inr (
          found,
          λ k lt. elim (Bool-cases (ltb (8 * u k) size)) [
            | inl e ↦ ground arith
            | inr e ↦
                let top = root_lem k n u heap k lt (omega arith) in
                let large : size ≤ key h 0 = rw (key_lem 0 (omega arith)) (ground arith) in
                absurd (none_fits (omega (arith, tree.count), large))
          ],
        )
      ]
