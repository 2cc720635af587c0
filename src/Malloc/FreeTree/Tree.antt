-- ===== src/Malloc/FreeTree/Tree.antt =====
-- The tree of free blocks in malloclab_code/mm.c as an array: node `k` points to a block of `u k` units
-- at `p k`, and the footer of that block holds `k`.
use csapp_lab_code.Base.{
  ℕ, ◌+◌, ◌-◌, ◌*◌, ◌/◌, ◌^◌, ◌≤◌, ◌<◌, ◌≡◌, ◌≢◌, refl, ap, ◌∙◌, sym, true, ltb, ◌%◌, arith,
}
use csapp_lab_code.Malloc.Memory.{Heap, load, ptr_diff, address_mod}
use csapp_lab_code.Malloc.Block.Footer.{IsHeader, foot, size_lem}
use csapp_lab_code.Malloc.FreeTree.{
  node_at, node_size, tree_end, left_son_of_node, right_son_of_node, parent_of_node,
}

-- `n` nodes from the address `r` on. Nodes, headers and footers are different units.
pub record IsTree (r n : ℕ) (h : Heap) (p u : ℕ → ℕ) : Type 0 where
  pub root : h.freetree_root_ptr ≡ r
  pub count : h.freetree_node_end_offset ≡ n
  pub room : r + 8 * (2 * n + 2) < 2 ^ 63
  pub small : n ≤ 2 ^ 56
  pub node : (k : ℕ) → k < n → load h (r + 8 * k) ≡ p k
  pub header : (k : ℕ) → k < n → IsHeader h (p k) (u k) 0
  pub two : (k : ℕ) → k < n → 2 ≤ u k
  pub footer : (k : ℕ) → k < n → load h (foot (p k) (u k)) ≡ k
  pub header_node : (k m : ℕ) → k < n → m < n → p k ≢ r + 8 * m
  pub footer_node : (k m : ℕ) → k < n → m < n → foot (p k) (u k) ≢ r + 8 * m
  pub footer_header : (k m : ℕ) → k < n → m < n → foot (p k) (u k) ≢ p m
  pub footer_footer : (k m : ℕ) → k < n → m < n → k ≢ m → foot (p k) (u k) ≢ foot (p m) (u m)

-- The same blocks at other nodes.
pub record IsRearranged (n : ℕ) (p u p' u' : ℕ → ℕ) : Type 0 where
  pub from : (k : ℕ) → k < n → (m : ℕ) × (m < n) × (p' k ≡ p m) × (u' k ≡ u m)
  pub to : (k : ℕ) → k < n → (m : ℕ) × (m < n) × (p' m ≡ p k) × (u' m ≡ u k)

-- What is neither a node nor a footer of the tree stays as it is.
abbrev pub IsFramed : ℕ → ℕ → (ℕ → ℕ) → (ℕ → ℕ) → Heap → Heap → Type 0
IsFramed r n p u h h' =
    (a : ℕ)
    → ((k : ℕ) → k < n → r + 8 * k ≢ a)
    → ((k : ℕ) → k < n → foot (p k) (u k) ≢ a)
    → load h' a ≡ load h a

-- A tree of the same blocks, in another memory.
pub record IsReordered (r n : ℕ) (h h' : Heap) (p u p' u' : ℕ → ℕ) : Type 0 where
  pub tree : IsTree r n h' p' u'
  pub same : IsRearranged n p u p' u'
  pub frame : IsFramed r n p u h h'

-- An address that is no footer after a rearrangement was none before.
pub footers_before :
    (n : ℕ) (p u p' u' : ℕ → ℕ) (a : ℕ)
    → IsRearranged n p u p' u'
    → ((k : ℕ) → k < n → foot (p' k) (u' k) ≢ a)
    → (k : ℕ) → k < n
    → foot (p k) (u k) ≢ a
footers_before n p u p' u' a same feet k lt e =
    let (m, lt', f, f') = same.to k lt in
    feet m lt' (ap (λ x. foot x (u' m)) f ∙ ap (foot (p k)) f' ∙ e)

pub reorder_refl :
    (r n : ℕ) (h : Heap) (p u : ℕ → ℕ) → IsTree r n h p u → IsReordered r n h h p u p u
reorder_refl r n h p u tree = record {
  tree = tree;
  same = record { from = λ k lt. (k, lt, refl, refl); to = λ k lt. (k, lt, refl, refl) };
  frame = λ a nodes feet. refl;
}

pub reorder_trans :
    (r n : ℕ) (h h' h'' : Heap) (p u p' u' p'' u'' : ℕ → ℕ)
    → IsReordered r n h h' p u p' u'
    → IsReordered r n h' h'' p' u' p'' u''
    → IsReordered r n h h'' p u p'' u''
reorder_trans r n h h' h'' p u p' u' p'' u'' one other = record {
  tree = other.tree;
  same = record {
    from = λ k lt.
        let (m, lt', e, e') = other.same.from k lt in
        let (l, lt'', f, f') = one.same.from m lt' in (l, lt'', e ∙ f, e' ∙ f');
    to = λ k lt.
        let (m, lt', e, e') = one.same.to k lt in
        let (l, lt'', f, f') = other.same.to m lt' in (l, lt'', f ∙ e, f' ∙ e');
  };
  frame = λ a nodes feet.
      other.frame a nodes (λ k lt e.
        let (m, lt', f, f') = one.same.from k lt in
        feet m lt' (ap (λ x. foot x (u m)) (sym f) ∙ ap (foot (p' k)) (sym f') ∙ e))
      ∙ one.frame a nodes feet;
}

module _ (r n : ℕ) (h : Heap) (p u : ℕ → ℕ) (tree : IsTree r n h p u) where
  pub slot_lem : (k : ℕ) → k ≤ 2 * n + 2 → node_at h k ≡ r + 8 * k
  slot_lem k le = let room = tree.room in rw (tree.root) (omega arith)

  pub node_size_lem : (k : ℕ) → k < n → node_size h (r + 8 * k) ≡ 8 * u k
  node_size_lem k lt = rw (tree.node k lt) (size_lem (p k) (u k) 0 h (tree.header k lt))

  pub end_lem : tree_end h ≡ r + 8 * n
  end_lem = rw (tree.count) (slot_lem n (omega arith))

pub offset_at_lem :
    (r n : ℕ) (g : Heap) (k : ℕ)
    → g.freetree_root_ptr ≡ r
    → r + 8 * (2 * n + 2) < 2 ^ 63
    → k < n
    → ptr_diff (r + 8 * k) g.freetree_root_ptr ≡ k
offset_at_lem r n g k root room lt =
    let bytes : (r + 8 * k + (address_mod - r)) % address_mod ≡ 8 * k = omega arith in
    let low : ltb (8 * k) (2 ^ 63) ≡ true = ground arith in rw (root, bytes, low) (omega arith)

module _ (r n : ℕ) (h : Heap) (p u : ℕ → ℕ) (tree : IsTree r n h p u) (k : ℕ) (lt : k < n) where
  pub left_at_lem : left_son_of_node h (r + 8 * k) ≡ r + 8 * (2 * k + 1)
  left_at_lem =
      rw (offset_at_lem r n h k (tree.root) (tree.room) lt)
        (slot_lem r n h p u tree (k * 2 + 1) (omega arith) ∙ omega arith)

  pub right_at_lem : right_son_of_node h (r + 8 * k) ≡ r + 8 * (2 * k + 2)
  right_at_lem =
      rw (offset_at_lem r n h k (tree.root) (tree.room) lt)
        (slot_lem r n h p u tree (k * 2 + 2) (omega arith) ∙ omega arith)

  pub parent_at_lem : 0 < k → parent_of_node h (r + 8 * k) ≡ r + 8 * ((k - 1) / 2)
  parent_at_lem pos =
      let room = tree.room in
      let before : (k + (address_mod - 1)) % address_mod ≡ k - 1 = omega arith in
      let low : ltb (k - 1) (2 ^ 63) ≡ true = ground arith in
      rw (offset_at_lem r n h k (tree.root) room lt, before, low)
        (slot_lem r n h p u tree ((k - 1) / 2) (omega arith))
