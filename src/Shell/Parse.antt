-- ===== src/Shell/Parse.antt =====
-- `parseline` of tsh.c, on the bytes of the line without its NUL. A pointer into the buffer is the
-- rest of the text from there; `*delim = '\0'` ends the argument in front of it.
pub mod Words
use csapp_lab_code.Base.{
  ℕ, zero, suc, ◌+◌, Bool, true, false, Option, none, some, List, [], ◌∷◌, ltb, leb, ◌==◌,
  if◌then◌else◌, length,
}
use csapp_lab_code.Shell.Jobs.{Text}

abbrev pub maxargs : ℕ
maxargs = 128

abbrev pub maxline : ℕ
maxline = 1024

abbrev pub space : ℕ
space = b' '

abbrev pub quote : ℕ
quote = 39

abbrev pub ampersand : ℕ
ampersand = b'&'

-- `while (*buf && (*buf == ' ')) buf++;`
unfoldable pub skip_spaces : Text → Text
skip_spaces [] = []
skip_spaces (c ∷ cs) = let rest = skip_spaces cs in if c == space then rest else c ∷ cs

abbrev pub cons_part : ℕ → Option (Text × Text) → Option (Text × Text)
cons_part c none = none
cons_part c (some (token, rest)) = some (c ∷ token, rest)

-- `strchr(buf, d)`: what stands in front of the delimiter, and what behind it
unfoldable pub split_at : ℕ → Text → Option (Text × Text)
split_at d [] = none
split_at d (c ∷ cs) = if c == d then some ([], cs) else cons_part c (split_at d cs)

-- the `if (*buf == '\'')` of the two places that look for the next delimiter
unfoldable pub next_arg : Text → Option (Text × Text)
unfolding split_at
next_arg [] = none
next_arg (c ∷ cs) = if c == quote then split_at quote cs else split_at space (c ∷ cs)

-- Each round takes the delimiter at least, so the length of the text is fuel enough.
unfoldable pub args_loop : ℕ → Text → List Text
args_loop zero buf = []
args_loop (suc fuel) buf = elim (next_arg (skip_spaces buf)) [
  | none ↦ []
  | some r ↦ r.0 ∷ args_loop fuel r.1
]

-- `buf[strlen(buf) - 1] = ' '`
unfoldable pub space_last : Text → Text
space_last [] = []
space_last (c ∷ []) = space ∷ []
space_last (c ∷ d ∷ cs) = c ∷ space_last (d ∷ cs)

abbrev pub starts_amp : Text → Bool
starts_amp [] = false
starts_amp (c ∷ cs) = c == ampersand

-- Whether the last argument starts with `&`, and the arguments without such a last one.
unfoldable pub split_bg : List Text → Bool × List Text
split_bg [] = (true, [])
split_bg (a ∷ []) = if starts_amp a then (true, []) else (false, a ∷ [])
split_bg (a ∷ b ∷ as') = let r = split_bg (b ∷ as') in (r.0, a ∷ r.1)

-- `overrun`: a write outside of the buffer (an empty line, or one with its NUL behind MAXLINE bytes) or of
-- `argv` (MAXARGS arguments).
pub data Parsed : Type 0 where
  parsed : Bool → List Text → Parsed
  overrun : Parsed

unfoldable pub parseline : Text → Parsed
unfolding skip_spaces next_arg args_loop space_last split_bg
parseline [] = overrun
parseline (c ∷ cs) =
    let args = args_loop (length (c ∷ cs)) (space_last (c ∷ cs)) in
    let r = split_bg args in
    if leb maxline (length (c ∷ cs))
    then overrun
    else if leb maxargs (length args)
    then overrun
    else parsed r.0 r.1
