-- ===== src/Proxy/ObjectCache/Members.antt =====
-- The objects in a list of proxylab_code/cache.c, told apart by their addresses, and what `list_remove`
-- and the search for a key do with them.
use csapp_lab_code.Base.{
  ℕ, ◌≡◌, refl, sym, ap, ◌∙◌, ◌⊎◌, inl, inr, true, false, none, some, List, [], ◌∷◌, ◌==◌,
  Bool-cases, arith,
}
use csapp_lab_code.Proxy.ObjectCache.{ObjectMeta, list_remove, same_key, stored_text, find_key}

abbrev pub In : ObjectMeta → List ObjectMeta → Type 0
In m [] = ⊥
In m (x ∷ xs) = (m ≡ x) ⊎ In m xs

-- No object of the list is at the address.
abbrev pub Away : ℕ → List ObjectMeta → Type 0
Away a [] = Unit
Away a (x ∷ xs) = ((x.address == a) ≡ false) × Away a xs

abbrev pub Single : List ObjectMeta → Type 0
Single [] = Unit
Single (x ∷ xs) = Away x.address xs × Single xs

pub Away-In :
    (a : ℕ) (m : ObjectMeta) (xs : List ObjectMeta) → Away a xs → In m xs → (m.address == a) ≡ false
Away-In a m [] d i = absurd i
Away-In a m (x ∷ xs) d (inl e) = ap (λ (y : ObjectMeta). y.address == a) e ∙ d.0
Away-In a m (x ∷ xs) d (inr i) = Away-In a m xs d.1 i

pub Away-of :
    (a : ℕ) (xs : List ObjectMeta)
    → ((m : ObjectMeta) → In m xs → (m.address == a) ≡ false)
    → Away a xs
Away-of a [] h = tt
Away-of a (x ∷ xs) h = (h x (inl refl), Away-of a xs (λ m i. h m (inr i)))

pub Single-eq :
    (m n : ObjectMeta) (xs : List ObjectMeta)
    → Single xs
    → In m xs
    → In n xs
    → (m.address == n.address) ≡ true
    → m ≡ n
Single-eq m n [] s i j e = absurd i
Single-eq m n (x ∷ xs) s (inl i) (inl j) e = i ∙ sym j
Single-eq m n (x ∷ xs) s (inl i) (inr j) e =
    let far = Away-In x.address n xs s.0 j in
    let here : m.address ≡ x.address = ap (λ (y : ObjectMeta). y.address) i in absurd (ground arith)
Single-eq m n (x ∷ xs) s (inr i) (inl j) e =
    let far = Away-In x.address m xs s.0 i in
    let here : n.address ≡ x.address = ap (λ (y : ObjectMeta). y.address) j in absurd (ground arith)
Single-eq m n (x ∷ xs) s (inr i) (inr j) e = Single-eq m n xs s.1 i j e

pub remove-In : (a : ℕ) (m : ObjectMeta) (xs : List ObjectMeta) → In m (list_remove a xs) → In m xs
unfolding list_remove
remove-In a m [] i = i
remove-In a m (x ∷ xs) i = elim (Bool-cases (x.address == a)) [
  | inl here ↦ inr (rw here at i)
  | inr other ↦ elim (rw other at i) [ inl e ↦ inl e | inr j ↦ inr (remove-In a m xs j) ]
]

pub remove-keeps :
    (a : ℕ) (m : ObjectMeta) (xs : List ObjectMeta)
    → In m xs
    → (m.address == a) ≡ false
    → In m (list_remove a xs)
unfolding list_remove
remove-keeps a m [] i ne = i
remove-keeps a m (x ∷ xs) (inl e) ne =
    let same : (x.address == a) ≡ false = ap (λ (y : ObjectMeta). y.address == a) (sym e) ∙ ne in
    rw same (inl e)
remove-keeps a m (x ∷ xs) (inr i) ne = elim (Bool-cases (x.address == a)) [
  | inl here ↦ rw here i
  | inr other ↦ rw other (inr (remove-keeps a m xs i ne))
]

remove-Away : (a b : ℕ) (xs : List ObjectMeta) → Away b xs → Away b (list_remove a xs)
remove-Away a b xs d = Away-of b (list_remove a xs) (λ m i. Away-In b m xs d (remove-In a m xs i))

pub remove-Single : (a : ℕ) (xs : List ObjectMeta) → Single xs → Single (list_remove a xs)
unfolding list_remove
remove-Single a [] s = tt
remove-Single a (x ∷ xs) s = elim (Bool-cases (x.address == a)) [
  | inl here ↦ rw here s.1
  | inr other ↦ rw other (remove-Away a x.address xs s.0, remove-Single a xs s.1)
]

pub remove-gone : (a : ℕ) (xs : List ObjectMeta) → Single xs → Away a (list_remove a xs)
unfolding list_remove
remove-gone a [] s = tt
remove-gone a (x ∷ xs) s = elim (Bool-cases (x.address == a)) [
  | inl here ↦ let same : x.address ≡ a = ground arith in rw here (rw same at s.0)
  | inr other ↦ rw other (other, remove-gone a xs s.1)
]

pub same_key-eq : (s t : List ℕ) → same_key s t ≡ true → s ≡ t
same_key-eq [] [] e = refl
same_key-eq [] (d ∷ ds) e = absurd (cc)
same_key-eq (c ∷ cs) [] e = absurd (cc)
same_key-eq (c ∷ cs) (d ∷ ds) e =
    let head : c ≡ d = ground arith in
    let tail = same_key-eq cs ds (ground arith) in rw (head, tail) refl

pub find_key-some :
    (behind : ℕ → List ℕ) (key : List ℕ) (m : ObjectMeta) (xs : List ObjectMeta)
    → find_key behind key xs ≡ some m
    → In m xs × (same_key (stored_text behind m) key ≡ true)
unfolding find_key
find_key-some behind key m [] e = absurd (cc)
find_key-some behind key m (x ∷ xs) e = elim (Bool-cases (same_key (stored_text behind x) key)) [
  | inl hit ↦
      let found = rw (hit, find_key) at e in
      let here : x ≡ m = cc in
      (
        inl (sym here),
        ap (λ (y : ObjectMeta). same_key (stored_text behind y) key) (sym here) ∙ hit,
      )
  | inr miss ↦ let (i, h) = find_key-some behind key m xs (rw (miss, find_key) at e) in (inr i, h)
]

pub find_key-none :
    (behind : ℕ → List ℕ) (key : List ℕ) (m : ObjectMeta) (xs : List ObjectMeta)
    → find_key behind key xs ≡ none
    → In m xs
    → same_key (stored_text behind m) key ≡ false
unfolding find_key
find_key-none behind key m [] e i = absurd i
find_key-none behind key m (x ∷ xs) e i = elim (Bool-cases (same_key (stored_text behind x) key)) [
  | inl hit ↦ let found = rw (hit, find_key) at e in absurd (cc)
  | inr miss ↦ elim i [
    | inl here ↦ ap (λ (y : ObjectMeta). same_key (stored_text behind y) key) here ∙ miss
    | inr j ↦ find_key-none behind key m xs (rw (miss, find_key) at e) j
  ]
]
