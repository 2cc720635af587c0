-- ===== src/Base/Lists.antt =====
-- C arrays and strings as lists, indexed by native numbers, under the library's names.
use Prim.Native.Nat.{ℕ, zero, suc, ◌+◌, ◌≤◌, ◌<◌}
use mathlib.Core.Path.{◌≡◌, refl, ap}
use mathlib.Core.Logic.{◌≢◌}
use mathlib.Core.List.{List, [], ◌∷◌, ◌++◌}
use mathlib.Core.Option.{Option, none, some}
use native.Mathlib.Omega.{arith}
use mathlib.Core.Bool.{Bool, true, false}
use mathlib.Core.Logic.{inl, inr}
use csapp_lab_code.Base.Tests.{◌==◌, if◌then◌else◌, Bool-cases}

module _ {ℓ} {A : Type ℓ} where
  abbrev pub length : List A → ℕ
  length [] = 0
  length (x ∷ xs) = suc (length xs)

  abbrev pub get_elem? : List A → ℕ → Option A
  get_elem? [] i = none
  get_elem? (x ∷ xs) zero = some x
  get_elem? (x ∷ xs) (suc i) = get_elem? xs i

  -- A write out of bounds changes nothing.
  abbrev pub set : List A → ℕ → A → List A
  set [] i v = []
  set (x ∷ xs) zero v = v ∷ xs
  set (x ∷ xs) (suc i) v = x ∷ set xs i v

  abbrev pub get_or : List A → ℕ → A → A
  get_or [] i d = d
  get_or (x ∷ xs) zero d = x
  get_or (x ∷ xs) (suc i) d = get_or xs i d

  abbrev pub replicate : ℕ → A → List A
  replicate zero a = []
  replicate (suc n) a = a ∷ replicate n a

module _ {ℓ} {A : Type ℓ} where
  pub length-append : (xs ys : List A) → length (xs ++ ys) ≡ length xs + length ys
  length-append [] ys = omega arith
  length-append (x ∷ xs) ys = omega (arith, length-append xs ys)

  pub length-replicate : (n : ℕ) (a : A) → length (replicate n a) ≡ n
  length-replicate zero a = refl
  length-replicate (suc n) a = ap suc (length-replicate n a)

  pub get_elem?-replicate :
      (n : ℕ) (a : A) (i : ℕ) (b : A) → get_elem? (replicate n a) i ≡ some b → b ≡ a
  get_elem?-replicate zero a i b e = absurd (cc)
  get_elem?-replicate (suc n) a zero b e = cc
  get_elem?-replicate (suc n) a (suc i) b e = get_elem?-replicate n a i b e

  pub length-set : (xs : List A) (i : ℕ) (v : A) → length (set xs i v) ≡ length xs
  length-set [] i v = refl
  length-set (x ∷ xs) zero v = refl
  length-set (x ∷ xs) (suc i) v = ap suc (length-set xs i v)

  pub get_elem?-set_self :
      (xs : List A) (i : ℕ) (v : A) → i < length xs → get_elem? (set xs i v) i ≡ some v
  get_elem?-set_self [] i v h = absurd (omega arith)
  get_elem?-set_self (x ∷ xs) zero v h = refl
  get_elem?-set_self (x ∷ xs) (suc i) v h = get_elem?-set_self xs i v (omega arith)

  pub get_elem?-set_ne :
      (xs : List A) (i j : ℕ) (v : A) → i ≢ j → get_elem? (set xs i v) j ≡ get_elem? xs j
  get_elem?-set_ne [] i j v ne = refl
  get_elem?-set_ne (x ∷ xs) zero zero v ne = absurd (ne refl)
  get_elem?-set_ne (x ∷ xs) zero (suc j) v ne = refl
  get_elem?-set_ne (x ∷ xs) (suc i) zero v ne = refl
  get_elem?-set_ne (x ∷ xs) (suc i) (suc j) v ne = get_elem?-set_ne xs i j v (λ e. ne (ap suc e))

  pub get_elem?-lt : (xs : List A) (i : ℕ) {a : A} → get_elem? xs i ≡ some a → i < length xs
  get_elem?-lt [] i e = absurd (cc)
  get_elem?-lt (x ∷ xs) zero e = omega arith
  get_elem?-lt (x ∷ xs) (suc i) e = omega (arith, get_elem?-lt xs i e)

  pub get_elem?-some : (xs : List A) (i : ℕ) → i < length xs → (a : A) × (get_elem? xs i ≡ some a)
  get_elem?-some [] i h = absurd (omega arith)
  get_elem?-some (x ∷ xs) zero h = (x, refl)
  get_elem?-some (x ∷ xs) (suc i) h = get_elem?-some xs i (omega arith)

module _ {ℓ} {A : Type ℓ} where
  pub get_or-get : (xs : List A) (i : ℕ) (d a : A) → get_elem? xs i ≡ some a → get_or xs i d ≡ a
  get_or-get [] i d a e = absurd (cc)
  get_or-get (x ∷ xs) zero d a e = cc
  get_or-get (x ∷ xs) (suc i) d a e = get_or-get xs i d a e

  pub set-set : (xs : List A) (i : ℕ) (v w : A) → set (set xs i v) i w ≡ set xs i w
  set-set [] i v w = refl
  set-set (x ∷ xs) zero v w = refl
  set-set (x ∷ xs) (suc i) v w = ap (λ ys. x ∷ ys) (set-set xs i v w)

  pub get_or-set_self :
      (xs : List A) (i : ℕ) (d v : A) → i < length xs → get_or (set xs i v) i d ≡ v
  get_or-set_self [] i d v h = absurd (omega arith)
  get_or-set_self (x ∷ xs) zero d v h = refl
  get_or-set_self (x ∷ xs) (suc i) d v h = get_or-set_self xs i d v (omega arith)

-- One law for a write, in the form of a test.
module _ {ℓ} {A : Type ℓ} where
  pub get_or-set :
      (xs : List A) (i j : ℕ) (d v : A)
      → i < length xs
      → get_or (set xs i v) j d ≡ (if i == j then v else get_or xs j d)
  get_or-set [] i j d v h = absurd (omega arith)
  get_or-set (x ∷ xs) zero zero d v h = refl
  get_or-set (x ∷ xs) zero (suc j) d v h = ground arith
  get_or-set (x ∷ xs) (suc i) zero d v h = ground arith
  get_or-set (x ∷ xs) (suc i) (suc j) d v h = ground (arith, get_or-set xs i j d v)

  pub get_elem?-set :
      (xs : List A) (i j : ℕ) (v : A)
      → i < length xs
      → get_elem? (set xs i v) j ≡ (if i == j then some v else get_elem? xs j)
  get_elem?-set [] i j v h = absurd (omega arith)
  get_elem?-set (x ∷ xs) zero zero v h = refl
  get_elem?-set (x ∷ xs) zero (suc j) v h = ground arith
  get_elem?-set (x ∷ xs) (suc i) zero v h = ground arith
  get_elem?-set (x ∷ xs) (suc i) (suc j) v h = ground (arith, get_elem?-set xs i j v)

-- A sum over a list.
module _ {ℓ} {A : Type ℓ} where
  abbrev pub total : (A → ℕ) → List A → ℕ
  total w [] = 0
  total w (x ∷ xs) = w x + total w xs

module _ {ℓ} {A : Type ℓ} where
  pub total-set :
      (w : A → ℕ) (xs : List A) (i : ℕ) (a b : A)
      → get_elem? xs i ≡ some a
      → total w (set xs i b) + w a ≡ total w xs + w b
  total-set w [] i a b e = absurd (cc)
  total-set w (x ∷ xs) zero a b e = let here : x ≡ a = cc in rw here (omega arith)
  total-set w (x ∷ xs) (suc i) a b e = omega (arith, total-set w xs i a b e)

  pub le-total :
      (w : A → ℕ) (xs : List A) (i : ℕ) (a : A) → get_elem? xs i ≡ some a → w a ≤ total w xs
  le-total w [] i a e = absurd (cc)
  le-total w (x ∷ xs) zero a e = let here : x ≡ a = cc in rw here (omega arith)
  le-total w (x ∷ xs) (suc i) a e = omega (arith, le-total w xs i a e)

  pub total-replicate : (w : A → ℕ) (n : ℕ) (a : A) → w a ≡ 0 → total w (replicate n a) ≡ 0
  total-replicate w zero a e = refl
  total-replicate w (suc n) a e = omega (arith, e, total-replicate w n a e)

-- The index of the first element that passes a test: the search loops of the C code.
abbrev pub later : Option ℕ → Option ℕ
later none = none
later (some i) = some (suc i)

module _ {ℓ} {A : Type ℓ} where
  unfoldable pub find_index : (A → Bool) → List A → Option ℕ
  find_index p [] = none
  find_index p (x ∷ xs) = if p x then some 0 else later (find_index p xs)

  pub find_index-some :
      (p : A → Bool) (xs : List A) (i : ℕ)
      → find_index p xs ≡ some i
      → (a : A) × (get_elem? xs i ≡ some a) × (p a ≡ true)
  unfolding find_index
  find_index-some p [] i e = absurd (cc)
  find_index-some p (x ∷ xs) zero e = (x, refl, ground arith)
  find_index-some p (x ∷ xs) (suc i) e = find_index-some p xs i (ground arith)

  pub find_index-none :
      (p : A → Bool) (xs : List A)
      → find_index p xs ≡ none
      → (i : ℕ) (a : A) → get_elem? xs i ≡ some a
      → p a ≡ false
  unfolding find_index
  find_index-none p [] e i a h = absurd (cc)
  find_index-none p (x ∷ xs) e zero a h = ground arith
  find_index-none p (x ∷ xs) e (suc i) a h = find_index-none p xs (ground arith) i a h

  -- Nothing before the index found passes the test.
  pub find_index_least :
      (p : A → Bool) (xs : List A) (i : ℕ)
      → find_index p xs ≡ some i
      → (j : ℕ) (a : A) → j < i
      → get_elem? xs j ≡ some a
      → p a ≡ false
  unfolding find_index
  find_index_least p [] i e j a lt h = absurd (cc)
  find_index_least p (x ∷ xs) i e zero a lt h = ground arith
  find_index_least p (x ∷ xs) zero e (suc j) a lt h = absurd (omega arith)
  find_index_least p (x ∷ xs) (suc i) e (suc j) a lt h =
      find_index_least p xs i (ground arith) j a (omega arith) h

  -- An element that passes is found, at its place or before.
  pub find_index-hit :
      (p : A → Bool) (xs : List A) (j : ℕ) {a : A}
      → get_elem? xs j ≡ some a
      → p a ≡ true
      → (i : ℕ) × (find_index p xs ≡ some i) × (i < suc j)
  unfolding find_index
  find_index-hit p [] j h t = absurd (cc)
  find_index-hit p (x ∷ xs) zero h t = (0, ground arith, omega arith)
  find_index-hit p (x ∷ xs) (suc j) h t = elim (Bool-cases (p x)) [
    | inl hit ↦ (0, rw hit, omega arith)
    | inr miss ↦
        let (i, found, le) = find_index-hit p xs j h t in (suc i, rw (miss, found), omega arith)
  ]
