-- ===== src/Malloc/FreeTree/Address.antt =====
-- The addresses of nodes in malloclab_code/mm.c, for a tree that lies in the lower half of the address
-- space: node and offset are each other's inverse.
use csapp_lab_code.Base.{
  ℕ, suc, ◌+◌, ◌-◌, ◌*◌, ◌/◌, ◌%◌, ◌^◌, ◌≤◌, ◌<◌, ◌≡◌, refl, ap, true, ltb, ◌==◌, arith,
}
use csapp_lab_code.Malloc.Memory.{Heap, ptr_diff, address_mod}
use csapp_lab_code.Malloc.FreeTree.{
  node_at, left_son_of_node, right_son_of_node, parent_of_node, tree_end,
}

-- The array of the tree, with room for `n` nodes.
abbrev pub HasRoom : Heap → ℕ → Type 0
HasRoom h n = h.freetree_root_ptr + 8 * n < 2 ^ 63

module _ (h : Heap) (n : ℕ) (room : HasRoom h n) where
  pub node_at_lem : (i : ℕ) → i ≤ n → node_at h i ≡ h.freetree_root_ptr + 8 * i
  node_at_lem i le = omega arith

  pub offset_lem : (i : ℕ) → i ≤ n → ptr_diff (node_at h i) h.freetree_root_ptr ≡ i
  offset_lem i le =
      let bytes : (node_at h i + (address_mod - h.freetree_root_ptr)) % address_mod ≡ 8 * i =
        omega arith in
      let low : ltb (8 * i) (2 ^ 63) ≡ true = ground arith in rw (bytes, low) (omega arith)

  pub left_lem : (i : ℕ) → i ≤ n → left_son_of_node h (node_at h i) ≡ node_at h (2 * i + 1)
  left_lem i le = rw (offset_lem i le) (ap (node_at h) (omega arith))

  pub right_lem : (i : ℕ) → i ≤ n → right_son_of_node h (node_at h i) ≡ node_at h (2 * i + 2)
  right_lem i le = rw (offset_lem i le) (ap (node_at h) (omega arith))

  pub parent_lem : (i : ℕ) → suc i ≤ n → parent_of_node h (node_at h (suc i)) ≡ node_at h (i / 2)
  parent_lem i le =
      let before : (suc i + (address_mod - 1)) % address_mod ≡ i = omega arith in
      let low : ltb i (2 ^ 63) ≡ true = ground arith in rw (offset_lem (suc i) le, before, low) refl

-- A tree whose nodes and their sons have addresses.
abbrev pub TreeRoom : Heap → Type 0
TreeRoom h = HasRoom h (2 * h.freetree_node_end_offset + 2)

module _ (h : Heap) (room : TreeRoom h) where
  pub inside_lem :
      (k : ℕ)
      → k ≤ 2 * h.freetree_node_end_offset + 2
      → ltb (node_at h k) (tree_end h) ≡ ltb k h.freetree_node_end_offset
  inside_lem k le =
      let n = h.freetree_node_end_offset in
      ground
        (arith, node_at_lem h (2 * n + 2) room k le, node_at_lem h (2 * n + 2) room n (omega arith))

  pub equal_lem :
      (i k : ℕ)
      → i ≤ 2 * h.freetree_node_end_offset + 2
      → k ≤ 2 * h.freetree_node_end_offset + 2
      → (node_at h i == node_at h k) ≡ (i == k)
  equal_lem i k le le' =
      let n = h.freetree_node_end_offset in
      ground (arith, node_at_lem h (2 * n + 2) room i le, node_at_lem h (2 * n + 2) room k le')
