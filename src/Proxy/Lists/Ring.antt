-- ===== src/Proxy/Lists/Ring.antt =====
-- When a list of proxylab_code/util.c is well formed: the nodes behind its head, in order.
use csapp_lab_code.Base.{
  ℕ, ◌≡◌, refl, ◌∙◌, ap, true, false, some, List, [], ◌∷◌, length, ◌==◌, arith,
}
use csapp_lab_code.Proxy.Lists.{Nodes, put_field, list_init, list_get_first, elements_from}

abbrev pub next : Nodes → ℕ → ℕ
next h p = h.p_next p

abbrev pub prev : Nodes → ℕ → ℕ
prev h p = h.p_prev p

-- From `a` by way of `ps` to `b`, and back.
abbrev pub Seg : Nodes → ℕ → List ℕ → ℕ → Type 0
Seg h a [] b = (next h a ≡ b) × (prev h b ≡ a)
Seg h a (p ∷ ps) b = (next h a ≡ p) × ((prev h p ≡ a) × Seg h p ps b)

abbrev pub Apart : ℕ → List ℕ → Type 0
Apart p [] = Unit
Apart p (q ∷ qs) = ((p == q) ≡ false) × Apart p qs

abbrev pub Distinct : List ℕ → Type 0
Distinct [] = Unit
Distinct (p ∷ ps) = Apart p ps × Distinct ps

pub record IsRing (h : Nodes) (head : ℕ) (ps : List ℕ) : Type 0 where
  pub links : Seg h head ps head
  pub distinct : Distinct (head ∷ ps)

abbrev pub elements : Nodes → List ℕ → List ℕ
elements h [] = []
elements h (p ∷ ps) = h.p_elem p ∷ elements h ps

abbrev pub SameLinks : Nodes → Nodes → List ℕ → Type 0
SameLinks h h' [] = Unit
SameLinks h h' (p ∷ ps) = (next h' p ≡ next h p) × ((prev h' p ≡ prev h p) × SameLinks h h' ps)

pub Seg-frame :
    (h h' : Nodes) (a b : ℕ) (ps : List ℕ)
    → next h' a ≡ next h a
    → prev h' b ≡ prev h b
    → SameLinks h h' ps
    → Seg h a ps b
    → Seg h' a ps b
Seg-frame h h' a b [] n p s l = (n ∙ l.0, p ∙ l.1)
Seg-frame h h' a b (q ∷ qs) n p s l =
    (n ∙ l.0, (s.1.0 ∙ l.1.0, Seg-frame h h' q b qs s.0 p s.1.1 l.1.1))

pub ==-sym : (p q : ℕ) → (p == q) ≡ false → (q == p) ≡ false
==-sym p q e = ground arith

pub put-same : (f : ℕ → ℕ) (p v : ℕ) → put_field f p v p ≡ v
put-same f p v = let self : (p == p) ≡ true = ground arith in rw self refl

pub put-other : (f : ℕ → ℕ) (p v q : ℕ) → (p == q) ≡ false → put_field f p v q ≡ f q
put-other f p v q e = rw e refl

pub list_init-IsRing : (h : Nodes) (head : ℕ) → IsRing (list_init head h) head []
unfolding list_init
list_init-IsRing h head =
    let self : (head == head) ≡ true = ground arith in
    record { links = (rw self refl, rw self refl); distinct = (tt, tt) }

loop_lem :
    (h : Nodes) (head a : ℕ) (ps : List ℕ)
    → Seg h a ps head
    → Apart head ps
    → elements_from (length ps) head (next h a) h ≡ some (elements h ps)
unfolding elements_from
loop_lem h head a [] l d =
    let end : (next h a == head) ≡ true = rw (l.0) (ground arith) in rw end refl
loop_lem h head a (p ∷ ps) l d =
    let more : (p == head) ≡ false = ==-sym head p d.0 in
    let rest = loop_lem h head p ps l.1.1 d.1 in
    rw (l.0, more, rest) (ap (λ x. some (h.p_elem x ∷ elements h ps)) l.0)

-- The loop over a list comes to its end after as many rounds as there are nodes, and meets them in order.
pub elements_from_lem :
    (h : Nodes) (head : ℕ) (ps : List ℕ)
    → IsRing h head ps
    → elements_from (length ps) head (list_get_first head h) h ≡ some (elements h ps)
unfolding list_get_first
elements_from_lem h head ps r = loop_lem h head head ps r.links r.distinct.0
