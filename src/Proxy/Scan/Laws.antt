-- ===== src/Proxy/Scan/Laws.antt =====
-- What the conversions of `sscanf` find in a text that is printed from its items.
use csapp_lab_code.Base.{
  ℕ, zero, suc, ◌≤◌, ◌≡◌, ◌≢◌, refl, ap, Bool, true, false, some, [], ◌∷◌, ◌++◌, length, arith,
}
use csapp_lab_code.Proxy.Scan.{
  Text, is_space, skip_space, span, nonempty, scan_set, scan_word, scan_char,
}

-- No character of a text passes a test.
abbrev pub Free : (ℕ → Bool) → Text → Type 0
Free stops [] = Unit
Free stops (c ∷ cs) = (stops c ≡ false) × Free stops cs

abbrev pub Starts : (ℕ → Bool) → Text → Type 0
Starts stops [] = Unit
Starts stops (c ∷ cs) = stops c ≡ true

span-append :
    (stops : ℕ → Bool) (n : ℕ) (item rest : Text)
    → length item ≤ n
    → Free stops item
    → Starts stops rest
    → span stops n (item ++ rest) ≡ (item, rest)
unfolding span
span-append stops zero [] rest h f s = refl
span-append stops zero (c ∷ cs) rest h f s = absurd (omega arith)
span-append stops (suc n) [] [] h f s = refl
span-append stops (suc n) [] (d ∷ ds) h f s = rw s refl
span-append stops (suc n) (c ∷ cs) rest h f s =
    rw (f.0, span-append stops n cs rest (omega arith) f.1 s) refl

module _ (stops : ℕ → Bool) (n : ℕ) where
  -- An item that is not empty, fits, and ends where the conversion stops is found as it is.
  pub scan_set-append :
      (item rest : Text)
      → item ≢ []
      → length item ≤ n
      → Free stops item
      → Starts stops rest
      → scan_set stops n (item ++ rest) ≡ some (item, rest)
  unfolding scan_set
  scan_set-append [] rest ne h f s = absurd (ne refl)
  scan_set-append (c ∷ cs) rest ne h f s = ap nonempty (span-append stops n (c ∷ cs) rest h f s)

skip-Free :
    (item rest : Text) → item ≢ [] → Free is_space item → skip_space (item ++ rest) ≡ item ++ rest
unfolding skip_space
skip-Free [] rest ne f = absurd (ne refl)
skip-Free (c ∷ cs) rest ne f = rw (f.0) refl

module _ (n : ℕ) (item rest : Text) where
  pub scan_word-append :
      item ≢ []
      → length item ≤ n
      → Free is_space item
      → Starts is_space rest
      → scan_word n (item ++ rest) ≡ some (item, rest)
  unfolding scan_word
  scan_word-append ne h f s =
      rw (skip-Free item rest ne f) (scan_set-append is_space n item rest ne h f s)

  pub scan_word-space :
      item ≢ []
      → length item ≤ n
      → Free is_space item
      → Starts is_space rest
      → scan_word n (32 ∷ (item ++ rest)) ≡ some (item, rest)
  unfolding scan_word skip_space
  scan_word-space ne h f s = scan_word-append ne h f s

pub scan_char-same : (c : ℕ) (t : Text) → scan_char c (c ∷ t) ≡ some t
unfolding scan_char
scan_char-same c t = ground arith
