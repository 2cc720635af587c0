-- ===== src/Malloc/FreeTree/Partial.antt =====
-- A tree of malloclab_code/mm.c while the block of one node is written anew.
use csapp_lab_code.Base.{ℕ, ◌+◌, ◌*◌, ◌^◌, ◌≤◌, ◌<◌, ◌≡◌, ◌≢◌, ◌∙◌, arith}
use csapp_lab_code.Malloc.Memory.{Heap, load}
use csapp_lab_code.Malloc.Block.Footer.{IsHeader, foot}
use csapp_lab_code.Malloc.FreeTree.Tree.{IsTree}

-- As IsTree, without what it says of the block of node `i`.
pub record IsTreeBut (r n i : ℕ) (h : Heap) (p u : ℕ → ℕ) : Type 0 where
  pub root : h.freetree_root_ptr ≡ r
  pub count : h.freetree_node_end_offset ≡ n
  pub room : r + 8 * (2 * n + 2) < 2 ^ 63
  pub small : n ≤ 2 ^ 56
  pub node : (k : ℕ) → k < n → k ≢ i → load h (r + 8 * k) ≡ p k
  pub header : (k : ℕ) → k < n → k ≢ i → IsHeader h (p k) (u k) 0
  pub two : (k : ℕ) → k < n → k ≢ i → 2 ≤ u k
  pub footer : (k : ℕ) → k < n → k ≢ i → load h (foot (p k) (u k)) ≡ k
  pub header_node : (k m : ℕ) → k < n → m < n → k ≢ i → p k ≢ r + 8 * m
  pub footer_node : (k m : ℕ) → k < n → m < n → k ≢ i → foot (p k) (u k) ≢ r + 8 * m
  pub footer_header : (k m : ℕ) → k < n → m < n → k ≢ i → m ≢ i → foot (p k) (u k) ≢ p m
  pub footer_footer :
      (k m : ℕ) → k < n → m < n → k ≢ i → m ≢ i → k ≢ m → foot (p k) (u k) ≢ foot (p m) (u m)

-- What is neither a node nor the footer of another block than that of node `i` stays as it is.
abbrev pub IsFramedBut : ℕ → ℕ → ℕ → (ℕ → ℕ) → (ℕ → ℕ) → Heap → Heap → Type 0
IsFramedBut r n i p u h h' =
    (a : ℕ)
    → ((k : ℕ) → k < n → r + 8 * k ≢ a)
    → ((k : ℕ) → k < n → k ≢ i → foot (p k) (u k) ≢ a)
    → load h' a ≡ load h a

pub tree-IsTreeBut : (r n i : ℕ) (h : Heap) (p u : ℕ → ℕ) → IsTree r n h p u → IsTreeBut r n i h p u
tree-IsTreeBut r n i h p u tree = record {
  root = tree.root;
  count = tree.count;
  room = tree.room;
  small = tree.small;
  node = λ k lt ne. tree.node k lt;
  header = λ k lt ne. tree.header k lt;
  two = λ k lt ne. tree.two k lt;
  footer = λ k lt ne. tree.footer k lt;
  header_node = λ k m lt lt' ne. tree.header_node k m lt lt';
  footer_node = λ k m lt lt' ne. tree.footer_node k m lt lt';
  footer_header = λ k m lt lt' ne ne'. tree.footer_header k m lt lt';
  footer_footer = λ k m lt lt' ne ne' differ. tree.footer_footer k m lt lt' differ;
}

-- What is written outside of the other nodes' units.
module _ (r n i : ℕ) (h h' : Heap) (p u : ℕ → ℕ) (tree : IsTreeBut r n i h p u) where
  pub kept-IsTreeBut :
      h'.freetree_root_ptr ≡ r
      → h'.freetree_node_end_offset ≡ n
      → ((k : ℕ) → k < n → k ≢ i → load h' (r + 8 * k) ≡ load h (r + 8 * k))
      → ((k : ℕ) → k < n → k ≢ i → load h' (p k) ≡ load h (p k))
      → ((k : ℕ) → k < n → k ≢ i → load h' (foot (p k) (u k)) ≡ load h (foot (p k) (u k)))
      → IsTreeBut r n i h' p u
  kept-IsTreeBut root count nodes headers footers = record {
    root = root;
    count = count;
    room = tree.room;
    small = tree.small;
    node = λ k lt ne. nodes k lt ne ∙ tree.node k lt ne;
    header = λ k lt ne.
        let header = tree.header k lt ne in
        record {
          word = headers k lt ne ∙ header.word;
          low = header.low;
          units = header.units;
          some_unit = header.some_unit;
          room = header.room;
        };
    two = tree.two;
    footer = λ k lt ne. footers k lt ne ∙ tree.footer k lt ne;
    header_node = tree.header_node;
    footer_node = tree.footer_node;
    footer_header = tree.footer_header;
    footer_footer = tree.footer_footer;
  }

-- Where there is no node `n`.
pub but-IsTree : (r n : ℕ) (h : Heap) (p u : ℕ → ℕ) → IsTreeBut r n n h p u → IsTree r n h p u
but-IsTree r n h p u tree = record {
  root = tree.root;
  count = tree.count;
  room = tree.room;
  small = tree.small;
  node = λ k lt. tree.node k lt (omega arith);
  header = λ k lt. tree.header k lt (omega arith);
  two = λ k lt. tree.two k lt (omega arith);
  footer = λ k lt. tree.footer k lt (omega arith);
  header_node = λ k m lt lt'. tree.header_node k m lt lt' (omega arith);
  footer_node = λ k m lt lt'. tree.footer_node k m lt lt' (omega arith);
  footer_header = λ k m lt lt'. tree.footer_header k m lt lt' (omega arith) (omega arith);
  footer_footer =
      λ k m lt lt' differ. tree.footer_footer k m lt lt' (omega arith) (omega arith) differ;
}
