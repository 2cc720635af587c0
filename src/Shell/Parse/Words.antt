-- ===== src/Shell/Parse/Words.antt =====
-- What `parseline` makes of a line: the bound on the arguments, and the words of a printed line.
use csapp_lab_code.Base.{
  ℕ, zero, suc, ◌+◌, ◌*◌, ◌≤◌, ◌<◌, ◌≡◌, refl, ◌≢◌, Bool, true, false, none, some, List, [], ◌∷◌,
  ◌++◌, arith, ◌==◌, Option-cases, Bool-cases, inl, inr, length, ap,
}
use csapp_lab_code.Shell.Jobs.{Text}
use csapp_lab_code.Shell.Parse.{
  maxargs, ampersand, space, quote, skip_spaces, split_at, next_arg, args_loop, space_last, overrun,
  parseline,
}

skip_spaces-length : (t : Text) → length (skip_spaces t) ≤ length t
unfolding skip_spaces
skip_spaces-length [] = omega arith
skip_spaces-length (c ∷ cs) = ground (arith, skip_spaces-length cs)

split_at-length :
    (d : ℕ) (t token rest : Text)
    → split_at d t ≡ some (token, rest)
    → length token + length rest + 1 ≡ length t
unfolding split_at
split_at-length d [] token rest e = cc
split_at-length d (c ∷ cs) token rest e = elim (Bool-cases (c == d)) [
  | inl hit ↦ ground arith
  | inr miss ↦ elim (Option-cases (split_at d cs)) [
    | inl gone ↦ absurd (ground arith)
    | inr ((t, r), found) ↦ ground (arith, split_at-length d cs t r found)
  ]
]

abbrev NoLead : Text → Type 0
NoLead [] = Unit
NoLead (c ∷ cs) = c ≢ space

skip_spaces-NoLead : (t : Text) → NoLead (skip_spaces t)
unfolding skip_spaces
skip_spaces-NoLead [] = tt
skip_spaces-NoLead (c ∷ cs) = elim (Bool-cases (c == space)) [
  | inl hit ↦ rw hit (skip_spaces-NoLead cs)
  | inr miss ↦ rw miss (ground arith)
]

-- An unquoted argument holds a byte and ends with a space, a quoted one has two quotes.
next_arg-length :
    (t token rest : Text) → NoLead t → next_arg t ≡ some (token, rest) → length rest + 2 ≤ length t
unfolding next_arg
next_arg-length [] token rest l e = absurd (cc)
next_arg-length (c ∷ cs) token rest l e = elim (Bool-cases (c == quote)) [
  | inl hit ↦ ground (arith, split_at-length quote cs token rest)
  | inr miss ↦ elim (Option-cases (split_at space cs)) [
    | inl gone ↦ absurd (ground arith)
    | inr ((t, r), found) ↦ ground (arith, split_at-length space cs t r found)
  ]
]

args_loop-some :
    (fuel : ℕ) (t token rest : Text)
    → next_arg (skip_spaces t) ≡ some (token, rest)
    → args_loop (suc fuel) t ≡ token ∷ args_loop fuel rest
unfolding args_loop
args_loop-some fuel t token rest e = ground arith

args_loop-none :
    (fuel : ℕ) (t : Text) → next_arg (skip_spaces t) ≡ none → args_loop (suc fuel) t ≡ []
unfolding args_loop
args_loop-none fuel t e = ground arith

args_loop-length : (fuel : ℕ) (t : Text) → 2 * length (args_loop fuel t) ≤ length t
unfolding args_loop
args_loop-length zero t = omega arith
args_loop-length (suc fuel) t = elim (Option-cases (next_arg (skip_spaces t))) [
  | inl done ↦ rw (args_loop-none fuel t done) (omega arith)
  | inr ((token, rest), e) ↦ rw (args_loop-some fuel t token rest e) (
      omega (
        arith,
        args_loop-length fuel rest,
        next_arg-length (skip_spaces t) token rest (skip_spaces-NoLead t) e,
        skip_spaces-length t,
      ))
]

space_last-length : (t : Text) → length (space_last t) ≡ length t
unfolding space_last
space_last-length [] = refl
space_last-length (c ∷ []) = refl
space_last-length (c ∷ d ∷ cs) = ap suc (space_last-length (d ∷ cs))

-- A line that is not empty and has fewer than 256 bytes overruns neither the buffer nor `argv`.
pub parseline_short : (t : Text) → t ≢ [] → length t < 2 * maxargs → parseline t ≢ overrun
unfolding parseline
parseline_short [] ne lt = absurd (ne refl)
parseline_short (c ∷ cs) ne lt =
    ground
      (arith, args_loop-length (length (c ∷ cs)) (space_last (c ∷ cs)), space_last-length (c ∷ cs))

-- A word as it is typed: plain, or between single quotes.
pub data Word : Type 0 where
  plain : Text → Word
  quoted : Text → Word

abbrev pub text : Word → Text
text (plain t) = t
text (quoted t) = t

abbrev pub texts : List Word → List Text
texts [] = []
texts (w ∷ ws) = text w ∷ texts ws

abbrev pub Free : ℕ → Text → Type 0
Free d [] = Unit
Free d (c ∷ cs) = (c ≢ d) × Free d cs

abbrev pub IsPlain : Text → Type 0
IsPlain [] = ⊥
IsPlain (c ∷ cs) = (c ≢ quote) × (c ≢ space) × Free space cs

-- A plain word is not empty, holds no space and does not start with a quote; a quoted one holds no
-- quote.
abbrev pub IsWord : Word → Type 0
IsWord (plain t) = IsPlain t
IsWord (quoted t) = Free quote t

abbrev pub AllWords : List Word → Type 0
AllWords [] = Unit
AllWords (w ∷ ws) = IsWord w × AllWords ws

-- The words with one space behind each.
abbrev pub line : List Word → Text
line [] = []
line (plain t ∷ ws) = t ++ space ∷ line ws
line (quoted t ∷ ws) = quote ∷ (t ++ quote ∷ space ∷ line ws)

-- What a list of words asks for, and its arguments: nothing, in the background, if there is no word; the
-- words before the last, in the background, if that starts with `&`; and else all, in the foreground.
pub data Asks : List Text → Bool → List Text → Type 0 where
  no_words : Asks [] true []
  background : (as' : List Text) (rest : Text) → Asks (as' ++ (ampersand ∷ rest) ∷ []) true as'
  foreground :
      (as' : List Text) (a : Text)
      → ((rest : Text) → a ≢ ampersand ∷ rest)
      → Asks (as' ++ a ∷ []) false (as' ++ a ∷ [])
