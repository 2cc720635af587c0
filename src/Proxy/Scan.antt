-- ===== src/Proxy/Scan.antt =====
-- The conversions of `sscanf` that proxylab_code/request.c uses, on texts without their NUL: `%Ns`,
-- `%N[^...]` and a character that must be there. A conversion returns its item and the rest of the text.
pub mod Laws
use csapp_lab_code.Base.{
  ℕ, zero, suc, Bool, true, false, ◌&&◌, ◌||◌, Option, none, some, List, [], ◌∷◌, leb, ◌==◌,
  if◌then◌else◌,
}

abbrev pub Text : Type 0
Text = List ℕ

infixl 5 ◌>>=◌
abbrev pub ◌>>=◌ {ℓ κ} : {A : Type ℓ} {B : Type κ} → Option A → (A → Option B) → Option B
none >>= f = none
some a >>= f = f a

-- `isspace`
abbrev pub is_space : ℕ → Bool
is_space c = c == 32 || (leb 9 c && leb c 13)

abbrev pub colon : ℕ
colon = b':'

abbrev pub slash : ℕ
slash = b'/'

unfoldable pub skip_space : Text → Text
skip_space [] = []
skip_space (c ∷ cs) = let rest = skip_space cs in if is_space c then rest else c ∷ cs

-- Up to `n` characters, as far as none of them stops the conversion.
unfoldable pub span : (ℕ → Bool) → ℕ → Text → Text × Text
span stops zero t = ([], t)
span stops (suc n) [] = ([], [])
span stops (suc n) (c ∷ cs) =
    let rest = span stops n cs in if stops c then ([], c ∷ cs) else (c ∷ rest.0, rest.1)

-- A conversion of no character fails.
abbrev pub nonempty : Text × Text → Option (Text × Text)
nonempty ([], rest) = none
nonempty (c ∷ cs, rest) = some (c ∷ cs, rest)

-- `%N[^...]`
unfoldable pub scan_set : (ℕ → Bool) → ℕ → Text → Option (Text × Text)
unfolding span
scan_set stops n t = nonempty (span stops n t)

-- `%Ns`
unfoldable pub scan_word : ℕ → Text → Option (Text × Text)
unfolding scan_set skip_space
scan_word n t = scan_set is_space n (skip_space t)

unfoldable pub scan_char : ℕ → Text → Option Text
scan_char c [] = none
scan_char c (d ∷ ds) = if c == d then some ds else none
