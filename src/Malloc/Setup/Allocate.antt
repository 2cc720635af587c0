-- ===== src/Malloc/Setup/Allocate.antt =====
-- `block_allocate` of malloclab_code/mm.c on a block of the tree.
use csapp_lab_code.Base.{
  ℕ, suc, ◌+◌, ◌-◌, ◌*◌, ◌%◌, ◌≤◌, ◌<◌, ◌≡◌, ◌≢◌, refl, ap, ◌∙◌, sym, true, false, ◌==◌, Bool-cases,
  inl, inr, arith,
}
use csapp_lab_code.Malloc.Memory.{Heap, load, address_mod, node_not_exist}
use csapp_lab_code.Malloc.Block.{block_node_ptr, block_next_header}
use csapp_lab_code.Malloc.Block.Fields.{IsMemory}
use csapp_lab_code.Malloc.Block.Footer.{IsHeader, foot, next_header_lem}
use csapp_lab_code.Malloc.FreeTree.{freetree_delete_node}
use csapp_lab_code.Malloc.FreeTree.Tree.{IsTree}
use csapp_lab_code.Malloc.FreeTree.Partial.{IsTreeBut, tree-IsTreeBut, kept-IsTreeBut}
use csapp_lab_code.Malloc.FreeTree.Order.{IsHeap}
use csapp_lab_code.Malloc.Setup.{
  block_allocate, block_setup_new_allocated, block_setup_new_wandering,
  block_bind_freed_with_existed_node, bind_to_node,
}
use csapp_lab_code.Malloc.Setup.Written.{IsPlace, allocated_lem}
use csapp_lab_code.Malloc.Setup.Neighbours.{tree_node_ptr_lem}
use csapp_lab_code.Malloc.Setup.Replace.{IsApart, replaced, written-IsTree}
use csapp_lab_code.Malloc.Setup.Bind.{
  IsReplaced, reordered-IsReplaced, replaced-IsHeapBelow, emerge_sink-IsReordered,
}

-- No unit of the block of node `i` is a node, or the header or footer of another block of the tree.
pub record IsOwn (r n i : ℕ) (p u : ℕ → ℕ) : Type 0 where
  pub node : (a k : ℕ) → p i ≤ a → a < p i + 8 * u i → k < n → a ≢ r + 8 * k
  pub header : (a k : ℕ) → p i ≤ a → a < p i + 8 * u i → k < n → k ≢ i → a ≢ p k
  pub footer : (a k : ℕ) → p i ≤ a → a < p i + 8 * u i → k < n → k ≢ i → a ≢ foot (p k) (u k)

module _ (r n i : ℕ) (h : Heap) (p u : ℕ → ℕ) (tree : IsTree r n h p u) (lt : i < n)
    (own : IsOwn r n i p u) (memory : IsMemory h) (w : ℕ) (two : 2 ≤ w) (fits : w ≤ u i) where
  -- The memory with the allocated block.
  abbrev pub allocated : Heap
  allocated = block_setup_new_allocated (p i) (8 * w) h

  place : IsPlace h (p i) w
  place =
      let header = tree.header i lt in
      let units = header.units in
      let room = header.room in
      record {
        units = omega arith;
        some_unit = omega arith;
        room = omega arith;
        header_word = memory (p i);
        footer_word = memory (foot (p i) w);
      }

  pub allocated-frame : (a : ℕ) → p i ≢ a → foot (p i) w ≢ a → load allocated a ≡ load h a
  allocated-frame a ne_header ne_footer =
      let f1 : (foot (p i) w == a) ≡ false = ground arith in
      let x1 : (p i == a) ≡ false = ground arith in
      allocated_lem (p i) w h place two a ∙ rw (f1, x1) refl

  allocated-IsHeader : IsHeader allocated (p i) w 1
  allocated-IsHeader =
      let f1 : (foot (p i) w == p i) ≡ false = ground arith in
      let self : (p i == p i) ≡ true = ground arith in
      record {
        word = allocated_lem (p i) w h place two (p i) ∙ rw (f1, self) refl;
        low = omega arith;
        units = place.units;
        some_unit = place.some_unit;
        room = place.room;
      }

  pub allocated-IsMemory : IsMemory allocated
  allocated-IsMemory a =
      let units = place.units in
      let old = memory a in rw (allocated_lem (p i) w h place two a) (ground arith)

  pub allocated-IsTreeBut : IsTreeBut r n i allocated p u
  unfolding block_setup_new_allocated
  allocated-IsTreeBut =
      kept-IsTreeBut r n i h allocated p u (tree-IsTreeBut r n i h p u tree) (tree.root)
        (tree.count)
        (λ k lt' ne.
          allocated-frame (r + 8 * k) (own.node (p i) k (omega arith) (omega arith) lt')
            (own.node (foot (p i) w) k (omega arith) (omega arith) lt'))
        (λ k lt' ne.
          allocated-frame (p k) (own.header (p i) k (omega arith) (omega arith) lt' ne)
            (own.header (foot (p i) w) k (omega arith) (omega arith) lt' ne))
        (λ k lt' ne.
          allocated-frame (foot (p k) (u k)) (own.footer (p i) k (omega arith) (omega arith) lt' ne)
            (own.footer (foot (p i) w) k (omega arith) (omega arith) lt' ne))

  node_lem : block_node_ptr h (p i) ≡ r + 8 * i
  node_lem = tree_node_ptr_lem r n i h p u tree lt

  abbrev rest : ℕ
  rest = u i - w

  rest_lem :
      (block_next_header h (p i) + (address_mod - block_next_header allocated (p i))) % address_mod
      ≡ 8 * rest
  rest_lem =
      let header = tree.header i lt in
      let room = header.room in
      rw
        (
          next_header_lem (p i) (u i) 0 h header,
          next_header_lem (p i) w 1 allocated allocated-IsHeader,
        )
        (omega arith)

  pub allocate_pointer_lem : (block_allocate (p i) (8 * w) h).0 ≡ p i + 8
  unfolding block_allocate
  allocate_pointer_lem = let header = tree.header i lt in let room = header.room in omega arith

  pub allocate_exact_lem :
      u i ≡ w → (block_allocate (p i) (8 * w) h).1 ≡ freetree_delete_node (r + 8 * i) allocated
  unfolding block_allocate
  allocate_exact_lem exact =
      let none : (8 * rest == 0) ≡ true = ground arith in rw (node_lem, rest_lem, none) refl

  pub allocate_unit_lem :
      u i ≡ suc w
      → (block_allocate (p i) (8 * w) h).1
        ≡ block_setup_new_wandering (p i + 8 * w) (freetree_delete_node (r + 8 * i) allocated)
  unfolding block_allocate block_bind_freed_with_existed_node
  allocate_unit_lem one =
      let some_rest : (8 * rest == 0) ≡ false = ground arith in
      let unit_rest : (8 * rest == 8) ≡ true = ground arith in
      let room = tree.room in
      let has_node : (r + 8 * i == node_not_exist) ≡ false = ground arith in
      rw
        (
          node_lem,
          rest_lem,
          some_rest,
          has_node,
          unit_rest,
          next_header_lem (p i) w 1 allocated allocated-IsHeader,
        )
        refl

  allocate_split_lem :
      w + 2 ≤ u i
      → (block_allocate (p i) (8 * w) h).1
        ≡ bind_to_node (p i + 8 * w) (8 * rest) (r + 8 * i) allocated
  unfolding block_allocate block_bind_freed_with_existed_node
  allocate_split_lem larger =
      let some_rest : (8 * rest == 0) ≡ false = ground arith in
      let units_rest : (8 * rest == 8) ≡ false = ground arith in
      let room = tree.room in
      let has_node : (r + 8 * i == node_not_exist) ≡ false = ground arith in
      rw
        (
          node_lem,
          rest_lem,
          some_rest,
          has_node,
          units_rest,
          next_header_lem (p i) w 1 allocated allocated-IsHeader,
        )
        refl

  pub kept-IsHeader : (h' : Heap) → load h' (p i) ≡ load allocated (p i) → IsHeader h' (p i) w 1
  kept-IsHeader h' same =
      let header = allocated-IsHeader in
      record {
        word = same ∙ header.word;
        low = header.low;
        units = header.units;
        some_unit = header.some_unit;
        room = header.room;
      }

  -- The header of the allocated block is no footer of the tree with the rest.
  not_footer :
      w + 2 ≤ u i
      → (m : ℕ) → m < n
      → foot (replaced i (p i + 8 * w) p m) (replaced i rest u m) ≢ p i
  not_footer larger m lt' = elim (Bool-cases (m == i)) [
    | inl e ↦ rw (e) (omega arith)
    | inr e ↦
        rw (e)
          (λ same. own.footer (p i) m (omega arith) (omega arith) lt' (ground arith) (sym same))
  ]

  pub split-IsReplaced :
      w + 2 ≤ u i
      → IsHeap n u
      → ((block_allocate (p i) (8 * w) h).0 ≡ p i + 8)
        × IsHeader (block_allocate (p i) (8 * w) h).1 (p i) w 1
        × (p' : ℕ → ℕ) × (u' : ℕ → ℕ) × IsReplaced r n i allocated
            (block_allocate (p i) (8 * w) h).1
            p
            u
            (p i + 8 * w)
            rest
            p'
            u'
  split-IsReplaced larger heap =
      let header = tree.header i lt in
      let units = header.units in
      let room = header.room in
      let x = p i + 8 * w in
      let place' : IsPlace allocated x rest = record {
        units = omega arith;
        some_unit = omega arith;
        room = omega arith;
        header_word = allocated-IsMemory x;
        footer_word = allocated-IsMemory (foot x rest);
      } in
      let apart : IsApart r n i p u x rest = record {
        two = omega arith;
        header_node = λ k lt'. own.node x k (omega arith) (omega arith) lt';
        footer_node = λ k lt'. own.node (foot x rest) k (omega arith) (omega arith) lt';
        header_header = λ k lt' ne. own.header x k (omega arith) (omega arith) lt' ne;
        header_footer = λ k lt' ne. own.footer x k (omega arith) (omega arith) lt' ne;
        footer_header = λ k lt' ne. own.header (foot x rest) k (omega arith) (omega arith) lt' ne;
        footer_footer = λ k lt' ne. own.footer (foot x rest) k (omega arith) (omega arith) lt' ne;
      } in
      let but = allocated-IsTreeBut in
      let (p', u', moved, order) =
        emerge_sink-IsReordered r n i _ _ _
          (written-IsTree r n i allocated p u but lt x rest place' apart) lt
          (replaced-IsHeapBelow n i rest u heap lt) in
      let result =
        reordered-IsReplaced r n i allocated p u but lt x rest place' apart _ p' u' moved order in
      let same = result.same in
      let word =
        result.frame (p i) (λ k lt' e. own.node (p i) k (omega arith) (omega arith) lt' (sym e))
          (λ k lt' e.
            let (m, lt_m, e1, e2) = same.from k lt' in
            not_footer larger m lt_m
              (ap (λ z. foot z (replaced i rest u m)) (sym e1) ∙ ap (foot (p' k)) (sym e2) ∙ e))
          (omega arith) in
      rw (allocate_split_lem larger) (allocate_pointer_lem, kept-IsHeader _ word, p', u', result)
