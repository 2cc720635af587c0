-- ===== src/Proxy/Request/Decimal.antt =====
-- The decimal digits of a port: `atoi` reads what `%d` writes.
use native.Mathlib.Nat.{pow-suc}
use csapp_lab_code.Base.{
  ℕ, zero, suc, ◌+◌, ◌-◌, ◌*◌, ◌/◌, ◌%◌, ◌^◌, ◌≤◌, ◌<◌, ◌≡◌, ◌≢◌, refl, ◌∙◌, true, [], ◌∷◌, ◌++◌,
  length, length-append, ltb, Bool-cases, inl, inr, arith,
}
use csapp_lab_code.Proxy.Scan.{Text}
use csapp_lab_code.Proxy.Request.{is_digit, is_number, atoi_loop, digits_loop}

atoi-append : (n c : ℕ) (cs : Text) → atoi_loop n (cs ++ c ∷ []) ≡ 10 * atoi_loop n cs + (c - 48)
unfolding atoi_loop
atoi-append n c [] = refl
atoi-append n c (d ∷ ds) = atoi-append (10 * n + (d - 48)) c ds

is_number-append :
    (c : ℕ) (cs : Text) → is_digit c ≡ true → is_number cs ≡ true → is_number (cs ++ c ∷ []) ≡ true
unfolding is_number
is_number-append c [] h e = rw h refl
is_number-append c (d ∷ ds) h e = elim (Bool-cases (is_digit d)) [
  | inl digit ↦ rw digit (is_number-append c ds h (rw digit at e))
  | inr other ↦ absurd (ground arith)
]

-- What the digits of a number of at most `k` digits are.
pub record IsDecimal (k n : ℕ) (t : Text) : Type 0 where
  pub number : is_number t ≡ true
  pub value : atoi_loop 0 t ≡ n
  pub short : length t ≤ k
  pub some_digit : t ≢ []

append-some : (cs : Text) (c : ℕ) → cs ++ c ∷ [] ≢ []
append-some [] c = cc
append-some (d ∷ ds) c = cc

one_more :
    (k n : ℕ) (front : Text)
    → IsDecimal k (n / 10) front
    → IsDecimal (suc k) n (front ++ (48 + n % 10) ∷ [])
one_more k n front d = record {
  number = is_number-append (48 + n % 10) front (ground arith) d.number;
  value = atoi-append 0 (48 + n % 10) front ∙ omega (arith, d.value);
  short = omega (arith, length-append front ((48 + n % 10) ∷ []), d.short);
  some_digit = append-some front (48 + n % 10);
}

-- A number below 10 ^ (k + 1) has at most k + 1 digits.
pub digits-IsDecimal :
    (k fuel n : ℕ) → n < 10 ^ suc k → k < fuel → IsDecimal (suc k) n (digits_loop fuel n)
unfolding digits_loop is_number atoi_loop
digits-IsDecimal k zero n h lt = absurd (omega arith)
digits-IsDecimal zero (suc fuel) n h lt =
    let one : ltb n 10 ≡ true = ground arith in
    let digit : is_digit (48 + n) ≡ true = ground arith in
    rw one
      (record { number = rw digit refl; value = omega arith; short = omega arith; some_digit = cc })
digits-IsDecimal (suc k) (suc fuel) n h lt = elim (Bool-cases (ltb n 10)) [
  | inl one ↦
      let digit : is_digit (48 + n) ≡ true = ground arith in
      rw one (record {
        number = rw digit refl;
        value = omega arith;
        short = omega arith;
        some_digit = cc;
      })
  | inr more ↦
      let front =
        digits-IsDecimal k fuel (n / 10) (omega (arith, pow-suc 10 (suc k))) (omega arith) in
      rw more (one_more (suc k) n (digits_loop fuel (n / 10)) front)
]
