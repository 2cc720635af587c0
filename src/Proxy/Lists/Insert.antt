-- ===== src/Proxy/Lists/Insert.antt =====
-- `list_insert` of proxylab_code/util.c behind the head of a list.
use csapp_lab_code.Base.{ℕ, ◌≡◌, refl, sym, ◌∙◌, ap, false, List, [], ◌∷◌, ◌==◌}
use csapp_lab_code.Proxy.Lists.{Nodes, put_field, list_insert}
use csapp_lab_code.Proxy.Lists.Ring.{
  next, prev, Seg, Seg-frame, Apart, Distinct, IsRing, elements, SameLinks, ==-sym, put-same,
  put-other,
}

module _ (h : Nodes) (head new e : ℕ) (fresh : (new == head) ≡ false) where
  abbrev after : Nodes
  after = list_insert new head e h

  insert-next : (q : ℕ) → (head == q) ≡ false → (new == q) ≡ false → next after q ≡ next h q
  unfolding list_insert
  insert-next q a b = rw (a, b) refl

  insert-prev : (q : ℕ) → (next h head == q) ≡ false → (new == q) ≡ false → prev after q ≡ prev h q
  unfolding list_insert
  insert-prev q a b = rw (put-same h.p_next new (next h head), a, b) refl

  head-next : next after head ≡ new
  unfolding list_insert
  head-next = put-same (put_field h.p_next new (next h head)) head new

  new-next : next after new ≡ next h head
  unfolding list_insert
  new-next =
      put-other (put_field h.p_next new (next h head)) head new new (==-sym new head fresh)
      ∙ put-same h.p_next new (next h head)

  new-prev : (next h head == new) ≡ false → prev after new ≡ head
  unfolding list_insert
  new-prev other = rw (put-same h.p_next new (next h head), other) (put-same h.p_prev new head)

  second-prev : prev after (next h head) ≡ new
  unfolding list_insert
  second-prev =
      rw (put-same h.p_next new (next h head))
        (put-same (put_field h.p_prev new head) (next h head) new)

  insert-elem : (q : ℕ) → (new == q) ≡ false → after.p_elem q ≡ h.p_elem q
  unfolding list_insert
  insert-elem q a = rw a refl

  new-elem : after.p_elem new ≡ e
  unfolding list_insert
  new-elem = put-same h.p_elem new e

  insert-elements : (ps : List ℕ) → Apart new ps → elements after ps ≡ elements h ps
  insert-elements [] a = refl
  insert-elements (p ∷ ps) a = rw (insert-elem p a.0, insert-elements ps a.1) refl

  insert-SameLinks :
      (ps : List ℕ) → Apart head ps → Apart (next h head) ps → Apart new ps → SameLinks h after ps
  insert-SameLinks [] a b c = tt
  insert-SameLinks (p ∷ ps) a b c =
      (insert-next p a.0 c.0, (insert-prev p b.0 c.0, insert-SameLinks ps a.1 b.1 c.1))

  insert_links :
      (ps : List ℕ)
      → Seg h head ps head
      → Distinct (head ∷ ps)
      → Apart new ps
      → Seg after head (new ∷ ps) head
  insert_links [] l d a =
      let other : (next h head == new) ≡ false = rw (l.0) (==-sym new head fresh) in
      let back : prev after head ≡ new = ap (prev after) (sym (l.0)) ∙ second-prev in
      (head-next, (new-prev other, (new-next ∙ l.0, back)))
  insert_links (p ∷ ps) l d a =
      let other : (next h head == new) ≡ false = rw (l.0) (==-sym new p a.0) in
      let back : prev after p ≡ new = ap (prev after) (sym (l.0)) ∙ second-prev in
      let first : Apart (next h head) ps = rw (l.0) (d.1.0) in
      let ends : (next h head == head) ≡ false = rw (l.0) (==-sym head p d.0.0) in
      let rest =
        Seg-frame h after p head ps (insert-next p d.0.0 a.0) (insert-prev head ends fresh)
          (insert-SameLinks ps d.0.1 first a.1) l.1.1 in
      (head-next, (new-prev other, (new-next ∙ l.0, (back, rest))))

-- On a well-formed circular list, `list_insert` of a node that is not in it behind the head leaves
-- a well-formed list, in which the new node comes first, and whose elements are the new one and the
-- old ones in order.
pub list_insert-IsRing :
    (h : Nodes) (head new e : ℕ) (ps : List ℕ)
    → IsRing h head ps
    → Apart new (head ∷ ps)
    → IsRing (list_insert new head e h) head (new ∷ ps)
      × (elements (list_insert new head e h) (new ∷ ps) ≡ e ∷ elements h ps)
list_insert-IsRing h head new e ps r a = (
  record {
    links = insert_links h head new e a.0 ps r.links r.distinct a.1;
    distinct = ((==-sym new head a.0, r.distinct.0), (a.1, r.distinct.1));
  },
  rw (new-elem h head new e a.0, insert-elements h head new e a.0 ps a.1) refl,
)
