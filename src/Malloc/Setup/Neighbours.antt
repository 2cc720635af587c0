-- ===== src/Malloc/Setup/Neighbours.antt =====
-- What malloclab_code/mm.c finds next to a block that it has set up.
use Prim.Native.Nat.{bit_and}
use csapp_lab_code.Base.{
  ℕ, ◌+◌, ◌*◌, ◌/◌, ◌%◌, ◌^◌, ◌≤◌, ◌<◌, ◌≡◌, ◌≢◌, refl, ap, ◌∙◌, true, false, ltb, ◌==◌,
  if◌then◌else◌, arith,
}
use csapp_lab_code.Words.Fields.{and_mask}
use csapp_lab_code.Malloc.Memory.{Heap, load, null, out_of_heap, ptr_back}
use csapp_lab_code.Malloc.Block.{block_node_ptr, block_node_offset, block_next_header}
use csapp_lab_code.Malloc.Block.Footer.{IsHeader, foot, footer_ptr_lem, status_lem}
use csapp_lab_code.Malloc.FreeTree.{node_at}
use csapp_lab_code.Malloc.FreeTree.Address.{HasRoom, offset_lem}
use csapp_lab_code.Malloc.FreeTree.Tree.{IsTree, slot_lem}
use csapp_lab_code.Malloc.Setup.{
  block_setup_new_allocated, block_setup_new_freed, block_setup_new_wandering,
  block_tryget_previous_available, block_tryget_next_available,
}
use csapp_lab_code.Malloc.Setup.Written.{IsPlace, freed_lem, allocated_lem, wandering_lem}

-- A free block of `q` units at `p`, with the node `i` of the tree.
pub record IsFree (h : Heap) (p q i : ℕ) : Type 0 where
  pub header : IsHeader h p q 0
  pub two : 2 ≤ q
  pub footer : load h (foot p q) ≡ i
  pub node : load h (node_at h i) ≡ p
  pub small : i < 2 ^ 56

-- The block lies in the heap.
abbrev pub Inside : Heap → ℕ → ℕ → Type 0
Inside h p q = (h.heap_start ≤ p) × (p + 8 * q ≤ h.heap_end)

-- The block that ends where a block of `q` units at `p` starts, or starts where it ends.
module _ (p q i : ℕ) (h : Heap) (free : IsFree h p q i) where
  pub node_ptr_lem : block_node_ptr h p ≡ node_at h i
  unfolding block_node_ptr block_node_offset
  node_ptr_lem =
      let two = free.two in
      let i_small = free.small in
      let at_foot = footer_ptr_lem p q 0 h (free.header) in
      let apart : (foot p q == p) ≡ false = ground arith in
      let mask : bit_and i 0x00FFFFFFFFFFFFFF ≡ i = omega (arith, and_mask 56 64 i (omega arith)) in
      rw (at_foot, apart, free.footer, mask) refl

  pub previous_free_lem :
      i < h.freetree_node_end_offset
      → Inside h p q
      → block_tryget_previous_available (p + 8 * q) h ≡ p
  unfolding block_tryget_previous_available
  previous_free_lem listed inside =
      let two = free.two in
      let i_small = free.small in
      let room = free.header.room in
      let before : ptr_back (p + 8 * q) ≡ foot p q = omega arith in
      let in_heap : out_of_heap h (foot p q) ≡ false = ground arith in
      let mask : bit_and i 0x00FFFFFFFFFFFFFF ≡ i = omega (arith, and_mask 56 64 i (omega arith)) in
      let is_listed : ltb i (h.freetree_node_end_offset) ≡ true = ground arith in
      let top : i / 2 ^ 56 ≡ 0 = omega arith in
      let status = status_lem p q 0 h (free.header) in
      rw (before, in_heap, free.footer, mask, is_listed, top, free.node, status) refl

  pub next_free_lem :
      (b : ℕ) → Inside h p q → block_next_header h b ≡ p → block_tryget_next_available b h ≡ p
  unfolding block_tryget_next_available
  next_free_lem b inside next =
      let two = free.two in
      let in_heap : out_of_heap h p ≡ false = ground arith in
      let status = status_lem p q 0 h (free.header) in rw (next, in_heap, status) refl

module _ (p q i : ℕ) (h : Heap) (place : IsPlace h p q) (two : 2 ≤ q) (room : HasRoom h i)
    (small : i < 2 ^ 56) where
  pub freed-IsFree :
      node_at h i ≢ p
      → node_at h i ≢ foot p q
      → IsFree (block_setup_new_freed p (8 * q) (node_at h i) h) p q i
  unfolding block_setup_new_freed
  freed-IsFree ne_header ne_footer =
      let written =
        freed_lem p q h place two (node_at h i) i (offset_lem h i room i (omega arith)) small in
      let self : (a : ℕ) → (a == a) ≡ true = λ a. ground arith in
      let n1 : (node_at h i == p) ≡ false = ground arith in
      let n2 : (node_at h i == foot p q) ≡ false = ground arith in
      let n3 : (foot p q == p) ≡ false = ground arith in
      record {
        header = record {
          word = written p ∙ rw (n1, n3, self p) (omega arith);
          low = omega arith;
          units = place.units;
          some_unit = place.some_unit;
          room = place.room;
        };
        two = two;
        footer = written (foot p q) ∙ rw (n2, self (foot p q)) refl;
        node = written (node_at h i) ∙ rw (self (node_at h i)) refl;
        small = small;
      }

  -- After `block_setup_new_freed` of a block of two units or more in the heap, with a node inside
  -- the tree that is neither its header nor its footer, `block_tryget_previous_available` of the
  -- address behind it and `block_tryget_next_available` of a block that ends where it starts return
  -- the block, and its node pointer is the node.
  pub setup_freed-available :
      node_at h i ≢ p
      → node_at h i ≢ foot p q
      → i < h.freetree_node_end_offset
      → Inside h p q
      → (block_tryget_previous_available
            (p + 8 * q)
            (block_setup_new_freed p (8 * q) (node_at h i) h)
          ≡ p)
        × ((b : ℕ)
            → block_next_header (block_setup_new_freed p (8 * q) (node_at h i) h) b ≡ p
            → block_tryget_next_available b (block_setup_new_freed p (8 * q) (node_at h i) h) ≡ p)
        × (block_node_ptr (block_setup_new_freed p (8 * q) (node_at h i) h) p ≡ node_at h i)
  unfolding block_setup_new_freed
  setup_freed-available ne_header ne_footer listed inside =
      let free = freed-IsFree ne_header ne_footer in
      let h' = block_setup_new_freed p (8 * q) (node_at h i) h in
      (
        previous_free_lem p q i h' free listed inside,
        λ b next. next_free_lem p q i h' free b inside next,
        node_ptr_lem p q i h' free,
      )

module _ (p q : ℕ) (h : Heap) (place : IsPlace h p q) where
  -- After `block_setup_new_allocated` of a block of two units or more,
  -- `block_tryget_previous_available` of the address behind it and `block_tryget_next_available` of
  -- a block that ends where it starts return NULL.
  pub setup_allocated-unavailable :
      2 ≤ q
      → (block_tryget_previous_available (p + 8 * q) (block_setup_new_allocated p (8 * q) h) ≡ null)
        × ((b : ℕ)
            → block_next_header (block_setup_new_allocated p (8 * q) h) b ≡ p
            → block_tryget_next_available b (block_setup_new_allocated p (8 * q) h) ≡ null)
  unfolding block_tryget_previous_available block_tryget_next_available
  setup_allocated-unavailable two =
      let h' = block_setup_new_allocated p (8 * q) h in
      let room = place.room in
      let units = place.units in
      let self : (a : ℕ) → (a == a) ≡ true = λ a. ground arith in
      let apart : (foot p q == p) ≡ false = ground arith in
      let before : ptr_back (p + 8 * q) ≡ foot p q = omega arith in
      let word = load h (foot p q) in
      let at_foot : load h' (foot p q) ≡ word % 2 ^ 56 + 2 ^ 56 =
        allocated_lem p q h place two (foot p q) ∙ rw (self (foot p q)) refl in
      let at_header : load h' p ≡ 8 * q + 1 =
        allocated_lem p q h place two p ∙ rw (apart, self p) refl in
      let is_header : IsHeader h' p q 1 = record {
        word = at_header;
        low = omega arith;
        units = units;
        some_unit = place.some_unit;
        room = room;
      } in
      let status = status_lem p q 1 h' is_header in
      let top : (word % 2 ^ 56 + 2 ^ 56) / 2 ^ 56 ≡ 1 = omega arith in
      let plain : (word % 2 ^ 56 + 2 ^ 56 == 0x020000000000000A) ≡ false = ground arith in
      let odd : (8 * q + 1 == 0x020000000000000A) ≡ false = ground arith in
      (
        rw (before, at_foot, top, plain) (ground arith),
        λ b next. rw (next, status, at_header, odd) (ground arith),
      )

-- A wandering block at `p`.
module _ (p : ℕ) (h : Heap) (room : p + 8 < 2 ^ 63) (inside : Inside h p 1)
    (word : load h p ≡ 0x020000000000000A) where
  previous_wandering_lem :
      block_tryget_previous_available (p + 8) h
      ≡ (if ltb 10 (h.freetree_node_end_offset) then p else null)
  unfolding block_tryget_previous_available
  previous_wandering_lem =
      let before : ptr_back (p + 8) ≡ p = omega arith in
      let in_heap : out_of_heap h p ≡ false = ground arith in rw (before, in_heap, word) refl

  next_wandering_lem : (b : ℕ) → block_next_header h b ≡ p → block_tryget_next_available b h ≡ p
  unfolding block_tryget_next_available
  next_wandering_lem b next =
      let in_heap : out_of_heap h p ≡ false = ground arith in rw (next, in_heap, word) refl

module _ (p : ℕ) (h : Heap) (place : IsPlace h p 1) where
  -- After `block_setup_new_wandering` of a unit in the heap, `block_tryget_next_available` of a
  -- block that ends where it starts returns the unit, but `block_tryget_previous_available` of the
  -- address behind it does so only if the tree has more than ten nodes, and NULL if not.
  pub setup_wandering-available :
      Inside h p 1
      → (block_tryget_previous_available (p + 8) (block_setup_new_wandering p h)
          ≡ (if ltb 10 (h.freetree_node_end_offset) then p else null))
        × ((b : ℕ)
            → block_next_header (block_setup_new_wandering p h) b ≡ p
            → block_tryget_next_available b (block_setup_new_wandering p h) ≡ p)
  unfolding block_setup_new_wandering
  setup_wandering-available inside =
      let self : (p == p) ≡ true = ground arith in
      let room : p + 8 < 2 ^ 63 = place.room in
      let word = wandering_lem p h place p ∙ rw (self) refl in
      let h' = block_setup_new_wandering p h in
      (
        previous_wandering_lem p h' room inside word,
        λ b. next_wandering_lem p h' room inside word b,
      )

-- The node of a block of the tree.
pub tree_node_ptr_lem :
    (r n i : ℕ) (h : Heap) (p u : ℕ → ℕ)
    → IsTree r n h p u
    → i < n
    → block_node_ptr h (p i) ≡ r + 8 * i
tree_node_ptr_lem r n i h p u tree lt =
    let slot = slot_lem r n h p u tree i (omega arith) in
    let small = tree.small in
    let free : IsFree h (p i) (u i) i = record {
      header = tree.header i lt;
      two = tree.two i lt;
      footer = tree.footer i lt;
      node = ap (load h) slot ∙ tree.node i lt;
      small = omega arith;
    } in
    node_ptr_lem (p i) (u i) i h free ∙ slot
