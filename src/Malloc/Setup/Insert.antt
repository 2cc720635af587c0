-- ===== src/Malloc/Setup/Insert.antt =====
-- A new node of the tree of malloclab_code/mm.c, behind the others.
use csapp_lab_code.Base.{
  ℕ, suc, ◌+◌, ◌*◌, ◌^◌, ◌≤◌, ◌<◌, ◌≡◌, ◌≢◌, false, ◌==◌, Bool-cases, inl, inr, arith,
}
use csapp_lab_code.Malloc.Memory.{Heap}
use csapp_lab_code.Malloc.Block.Footer.{foot}
use csapp_lab_code.Malloc.FreeTree.{freetree_new_node}
use csapp_lab_code.Malloc.FreeTree.Tree.{IsTree}
use csapp_lab_code.Malloc.FreeTree.Partial.{IsTreeBut}
use csapp_lab_code.Malloc.FreeTree.Order.{parent, IsHeap, IsHeapAbove}
use csapp_lab_code.Malloc.Setup.Replace.{replaced}

-- Room for one more node, which is no header or footer of the tree.
pub record HasNewNode (r n : ℕ) (p u : ℕ → ℕ) : Type 0 where
  pub room : r + 8 * (2 * suc n + 2) < 2 ^ 63
  pub small : suc n ≤ 2 ^ 56
  pub header : (k : ℕ) → k < n → p k ≢ r + 8 * n
  pub footer : (k : ℕ) → k < n → foot (p k) (u k) ≢ r + 8 * n

pub new_node-IsTreeBut :
    (r n : ℕ) (h : Heap) (p u : ℕ → ℕ)
    → IsTree r n h p u
    → HasNewNode r n p u
    → IsTreeBut r (suc n) n (freetree_new_node h).1 p u
new_node-IsTreeBut r n h p u tree new =
    let small = new.small in
    record {
      root = tree.root;
      count = rw (tree.count) (omega arith);
      room = new.room;
      small = new.small;
      node = λ k lt ne. tree.node k (omega arith);
      header = λ k lt ne.
          let header = tree.header k (omega arith) in
          record {
            word = header.word;
            low = header.low;
            units = header.units;
            some_unit = header.some_unit;
            room = header.room;
          };
      two = λ k lt ne. tree.two k (omega arith);
      footer = λ k lt ne. tree.footer k (omega arith);
      header_node = λ k m lt lt' ne. elim (Bool-cases (m == n)) [
        | inl e ↦ let is_new : m ≡ n = ground arith in rw (is_new) (new.header k (omega arith))
        | inr e ↦ tree.header_node k m (omega arith) (ground arith)
      ];
      footer_node = λ k m lt lt' ne. elim (Bool-cases (m == n)) [
        | inl e ↦ let is_new : m ≡ n = ground arith in rw (is_new) (new.footer k (omega arith))
        | inr e ↦ tree.footer_node k m (omega arith) (ground arith)
      ];
      footer_header = λ k m lt lt' ne ne'. tree.footer_header k m (omega arith) (omega arith);
      footer_footer =
          λ k m lt lt' ne ne' differ. tree.footer_footer k m (omega arith) (omega arith) differ;
    }

pub new_node-IsHeapAbove :
    (n q : ℕ) (u : ℕ → ℕ) → IsHeap n u → IsHeapAbove (suc n) (replaced n q u) n
new_node-IsHeapAbove n q u heap = record {
  order = λ k pos lt ne.
      let t1 : (k == n) ≡ false = ground arith in
      let t2 : (parent k == n) ≡ false = ground arith in rw (t1, t2) (heap k pos (omega arith));
  sons = λ k pos lt son pos'. absurd (omega arith);
}
