-- ===== src/Proxy/Lists/Remove.antt =====
-- `list_remove` and `list_free` of proxylab_code/util.c.
use csapp_lab_code.Base.{
  ℕ, suc, ◌≡◌, refl, sym, ◌∙◌, ap, true, false, some, List, [], ◌∷◌, ◌++◌, length, ◌==◌, Bool-cases,
  inl, inr,
}
use csapp_lab_code.Proxy.Lists.{
  Nodes, put_field, set_next, free_node, list_remove, free_loop, list_free,
}
use csapp_lab_code.Proxy.Lists.Ring.{
  next, prev, Seg, Seg-frame, Apart, Distinct, IsRing, elements, SameLinks, ==-sym, put-same,
  put-other,
}

module _ (h : Nodes) where
  -- The node before `p` is `a` or one of `xs`, and the one behind it is one of `ys` or `b`.
  before-Apart :
      (a b p c : ℕ) (xs ys : List ℕ)
      → Seg h a (xs ++ p ∷ ys) b
      → Apart c (a ∷ xs)
      → (prev h p == c) ≡ false
  before-Apart a b p c [] ys l d = rw (l.1.0) (==-sym c a d.0)
  before-Apart a b p c (x ∷ xs) ys l d = before-Apart x b p c xs ys l.1.1 d.1

  behind-Apart :
      (a b p c : ℕ) (xs ys : List ℕ)
      → Seg h a (xs ++ p ∷ ys) b
      → Apart c ys
      → (b == c) ≡ false
      → (next h p == c) ≡ false
  behind-Apart a b p c [] [] l d e = rw (l.1.1.0) e
  behind-Apart a b p c [] (y ∷ ys) l d e = rw (l.1.1.0) (==-sym c y d.0)
  behind-Apart a b p c (x ∷ xs) ys l d e = behind-Apart x b p c xs ys l.1.1 d e

Apart-of_eq : (c d : ℕ) (ps : List ℕ) → c ≡ d → Apart d ps → Apart c ps
Apart-of_eq c d [] e a = tt
Apart-of_eq c d (p ∷ ps) e a = (ap (λ (x : ℕ). x == p) e ∙ a.0, Apart-of_eq c d ps e a.1)

Apart-left : (c : ℕ) (xs ys : List ℕ) → Apart c (xs ++ ys) → Apart c xs
Apart-left c [] ys d = tt
Apart-left c (x ∷ xs) ys d = (d.0, Apart-left c xs ys d.1)

Apart-right : (c : ℕ) (xs ys : List ℕ) → Apart c (xs ++ ys) → Apart c ys
Apart-right c [] ys d = d
Apart-right c (x ∷ xs) ys d = Apart-right c xs ys d.1

Apart-drop : (c p : ℕ) (xs ys : List ℕ) → Apart c (xs ++ p ∷ ys) → Apart c (xs ++ ys)
Apart-drop c p [] ys d = d.1
Apart-drop c p (x ∷ xs) ys d = (d.0, Apart-drop c p xs ys d.1)

Distinct-drop : (p : ℕ) (xs ys : List ℕ) → Distinct (xs ++ p ∷ ys) → Distinct (xs ++ ys)
Distinct-drop p [] ys d = d.1
Distinct-drop p (x ∷ xs) ys d = (Apart-drop x p xs ys d.0, Distinct-drop p xs ys d.1)

elements-append :
    (h : Nodes) (xs ys : List ℕ) → elements h (xs ++ ys) ≡ elements h xs ++ elements h ys
elements-append h [] ys = refl
elements-append h (x ∷ xs) ys = ap (λ es. h.p_elem x ∷ es) (elements-append h xs ys)

module _ (h : Nodes) (p : ℕ) where
  abbrev after : Nodes
  after = list_remove p h

  remove-next : (q : ℕ) → (prev h p == q) ≡ false → next after q ≡ next h q
  unfolding list_remove
  remove-next q e = rw e refl

  own-next : put_field h.p_next (prev h p) (next h p) p ≡ next h p
  own-next = elim (Bool-cases (prev h p == p)) [ inl e ↦ rw e refl | inr e ↦ rw e refl ]

  remove-prev : (q : ℕ) → (next h p == q) ≡ false → prev after q ≡ prev h q
  unfolding list_remove
  remove-prev q e = rw (own-next, e) refl

  before-next : next after (prev h p) ≡ next h p
  unfolding list_remove
  before-next = put-same h.p_next (prev h p) (next h p)

  behind-prev : prev after (next h p) ≡ prev h p
  unfolding list_remove
  behind-prev = rw own-next (put-same h.p_prev (next h p) (prev h p))

  remove-elements : (ps : List ℕ) → elements after ps ≡ elements h ps
  unfolding list_remove
  remove-elements [] = refl
  remove-elements (q ∷ qs) = ap (λ es. h.p_elem q ∷ es) (remove-elements qs)

  remove-SameLinks :
      (ps : List ℕ) → Apart (prev h p) ps → Apart (next h p) ps → SameLinks h after ps
  remove-SameLinks [] a b = tt
  remove-SameLinks (q ∷ qs) a b =
      (remove-next q a.0, (remove-prev q b.0, remove-SameLinks qs a.1 b.1))

  -- The node behind the removed one, and all that follows.
  rest_links :
      (a b : ℕ) (ys : List ℕ)
      → prev h p ≡ a
      → Seg h p ys b
      → Apart a ys
      → Distinct ys
      → Apart b ys
      → Seg after a ys b
  rest_links a b [] e l d u v =
      (ap (next after) (sym e) ∙ before-next ∙ l.0, ap (prev after) (sym (l.0)) ∙ behind-prev ∙ e)
  rest_links a b (y ∷ ys) e l d u v =
      let not_a = Apart-of_eq (prev h p) a (y ∷ ys) e d in
      let not_y = Apart-of_eq (next h p) y ys l.0 u.0 in
      let not_b : (next h p == b) ≡ false = rw (l.0) (==-sym b y v.0) in
      (
        ap (next after) (sym e) ∙ before-next ∙ l.0,
        (
          ap (prev after) (sym (l.0)) ∙ behind-prev ∙ e,
          Seg-frame h after y b ys (remove-next y not_a.0) (remove-prev b not_b)
              (remove-SameLinks ys not_a.1 not_y) l.1.1,
        ),
      )

  remove_links :
      (a b : ℕ) (xs ys : List ℕ)
      → Seg h a (xs ++ p ∷ ys) b
      → Distinct (a ∷ xs ++ p ∷ ys)
      → Apart b (xs ++ p ∷ ys)
      → Seg after a (xs ++ ys) b
  remove_links a b [] ys l d v = rest_links a b ys l.1.0 l.1.1 d.0.1 d.1.1 v.1
  remove_links a b (x ∷ xs) ys l d v =
      let far = before-Apart h x b p a xs ys l.1.1 (d.0.0, Apart-left a xs (p ∷ ys) d.0.1) in
      let near = behind-Apart h x b p x xs ys l.1.1 (Apart-right x xs (p ∷ ys) d.1.0).1 v.0 in
      (remove-next a far ∙ l.0, (remove-prev x near ∙ l.1.0, remove_links x b xs ys l.1.1 d.1 v.1))

-- On a well-formed circular list, `list_remove` of any of its nodes leaves a well-formed list of
-- the other nodes, with their elements in order, and frees this node.
pub list_remove-IsRing :
    (h : Nodes) (head p : ℕ) (xs ys : List ℕ)
    → IsRing h head (xs ++ p ∷ ys)
    → IsRing (list_remove p h) head (xs ++ ys)
      × (elements (list_remove p h) (xs ++ ys) ≡ elements h xs ++ elements h ys)
      × ((list_remove p h).freed ≡ p ∷ h.freed)
unfolding list_remove
list_remove-IsRing h head p xs ys r = (
  record {
    links = remove_links h p head head xs ys r.links r.distinct r.distinct.0;
    distinct = (Apart-drop head p xs ys r.distinct.0, Distinct-drop p xs ys r.distinct.1);
  },
  remove-elements h p (xs ++ ys) ∙ elements-append h xs ys,
  refl,
)

-- From `a` by way of `ps` to NULL.
abbrev Chain : (ℕ → ℕ) → ℕ → List ℕ → Type 0
Chain f a [] = f a ≡ 0
Chain f a (p ∷ ps) = (f a ≡ p) × Chain f p ps

last-Apart :
    (h : Nodes) (a b c : ℕ) (ps : List ℕ)
    → Seg h a ps b
    → Apart c (a ∷ ps)
    → (prev h b == c) ≡ false
last-Apart h a b c [] l d = rw (l.1) (==-sym c a d.0)
last-Apart h a b c (p ∷ ps) l d = last-Apart h p b c ps l.1.1 d.1

cut-Chain :
    (h : Nodes) (a b : ℕ) (ps : List ℕ)
    → Seg h a ps b
    → Distinct (a ∷ ps)
    → Chain (put_field h.p_next (prev h b) 0) a ps
cut-Chain h a b [] l d = rw (l.1) (put-same h.p_next a 0)
cut-Chain h a b (p ∷ ps) l d =
    let other = last-Apart h p b a ps l.1.1 d.0 in
    (put-other h.p_next (prev h b) 0 a other ∙ l.0, cut-Chain h p b ps l.1.1 d.1)

abbrev pub AllAddresses : List ℕ → Type 0
AllAddresses [] = Unit
AllAddresses (p ∷ ps) = ((p == 0) ≡ false) × AllAddresses ps

-- Nodes that are freed one after the other.
abbrev pub frees : List ℕ → List ℕ → List ℕ
frees [] fs = fs
frees (p ∷ ps) fs = frees ps (p ∷ fs)

loop_frees :
    (h : Nodes) (a : ℕ) (ps : List ℕ)
    → Chain h.p_next a ps
    → AllAddresses (a ∷ ps)
    → (h' : Nodes) × (free_loop (suc (length ps)) a h ≡ some h')
      × (h'.freed ≡ frees (a ∷ ps) h.freed)
unfolding free_loop
loop_frees h a [] c v =
    let end : (h.p_next a == 0) ≡ true = rw c refl in (free_node a h, rw (v.0, end) refl, refl)
loop_frees h a (p ∷ ps) c v =
    let (h', e, f) = loop_frees (free_node a h) p ps c.1 v.1 in (h', rw (v.0, c.0) e, f)

-- On a well-formed list whose nodes are not NULL, `list_free` of the head ends after one round for
-- each node, and frees the head and every node once, in order.
pub list_free-frees :
    (h : Nodes) (head : ℕ) (ps : List ℕ)
    → IsRing h head ps
    → AllAddresses (head ∷ ps)
    → (h' : Nodes) × (list_free (suc (length ps)) head h ≡ some h')
      × (h'.freed ≡ frees (head ∷ ps) h.freed)
unfolding list_free
list_free-frees h head ps r v =
    loop_frees (set_next (prev h head) 0 h) head ps (cut-Chain h head head ps r.links r.distinct) v
