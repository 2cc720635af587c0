-- ===== src/Words/Digits.antt =====
-- The bit operations by their lowest digit, and laws of all widths from that.
use Prim.Native.Nat.{
  min, max, digits, bitwise, bit_and, bit_or, bit_xor, differ, bit_and-bitwise, bit_or-bitwise,
  bit_xor-bitwise,
}
use csapp_lab_code.Base.{
  ℕ, zero, suc, ◌+◌, ◌-◌, ◌*◌, ◌/◌, ◌%◌, ◌^◌, ◌≤◌, ◌<◌, ◌≡◌, refl, ap, ◌∙◌, arith,
}
use native.Mathlib.Nat.{pow-suc, one-le-pow}

-- The count of rounds does not matter once it reaches the first number.
rounds_lem :
    (rest : ℕ → ℕ) (digit : ℕ → ℕ → ℕ) (x y k l : ℕ)
    → x ≤ k
    → x ≤ l
    → digits rest digit k x y ≡ digits rest digit l x y
rounds_lem rest digit (suc x) y zero l h g = absurd (omega arith)
rounds_lem rest digit (suc x) y (suc k) zero h g = absurd (omega arith)
rounds_lem rest digit zero y zero zero h g = refl
rounds_lem rest digit zero y zero (suc l) h g = refl
rounds_lem rest digit zero y (suc k) zero h g = refl
rounds_lem rest digit zero y (suc k) (suc l) h g = refl
rounds_lem rest digit (suc x) y (suc k) (suc l) h g =
    let halves = rounds_lem rest digit (suc x / 2) (y / 2) k l (omega arith) (omega arith) in
    omega (arith, halves)

-- One digit of an operation that works digit by digit.
one_digit :
    (rest : ℕ → ℕ) (digit : ℕ → ℕ → ℕ) (x y : ℕ)
    → bitwise rest digit (suc x) y
      ≡ digit (suc x % 2) (y % 2) + 2 * bitwise rest digit (suc x / 2) (y / 2)
one_digit rest digit x y =
    let fewer =
      rounds_lem rest digit (suc x / 2) (y / 2) x (suc x / 2) (omega arith) (omega arith) in
    omega (arith, fewer)

differ-add : (x y : ℕ) → x < 2 → y < 2 → differ x y ≡ (x + y) % 2
differ-add zero zero p q = refl
differ-add zero (suc zero) p q = refl
differ-add (suc zero) zero p q = refl
differ-add (suc zero) (suc zero) p q = refl
differ-add (suc (suc x)) y p q = absurd (omega arith)
differ-add zero (suc (suc y)) p q = absurd (omega arith)
differ-add (suc zero) (suc (suc y)) p q = absurd (omega arith)

pub and_step : (x y : ℕ) → bit_and x y ≡ bit_and (x / 2) (y / 2) * 2 + min (x % 2) (y % 2)
and_step zero y = simp bit_and-bitwise (omega arith)
and_step (suc x) y =
    let top = one_digit (λ r. 0) min x y in simp bit_and-bitwise (omega (arith, top))

pub or_step : (x y : ℕ) → bit_or x y ≡ bit_or (x / 2) (y / 2) * 2 + max (x % 2) (y % 2)
or_step zero y = simp bit_or-bitwise (omega arith)
or_step (suc x) y = let top = one_digit (λ r. r) max x y in simp bit_or-bitwise (omega (arith, top))

xor_digits : (x y : ℕ) → bit_xor x y ≡ bit_xor (x / 2) (y / 2) * 2 + differ (x % 2) (y % 2)
xor_digits zero y = simp bit_xor-bitwise (omega arith)
xor_digits (suc x) y =
    let top = one_digit (λ r. r) differ x y in simp bit_xor-bitwise (omega (arith, top))

pub xor_step : (a b : ℕ) → bit_xor a b ≡ bit_xor (a / 2) (b / 2) * 2 + (a + b) % 2
xor_step a b = omega (arith, xor_digits a b, differ-add (a % 2) (b % 2) (omega arith) (omega arith))

-- Laws for words of `w` bits, by recursion on `w`; a word has halves of one bit less.
pub half-lt : (w a : ℕ) → a < 2 ^ suc w → a / 2 < 2 ^ w
half-lt w a p = omega (arith, pow-suc 2 w)

pub zero-and : (b : ℕ) → bit_and 0 b ≡ 0
zero-and b = bit_and-bitwise 0 b

pub zero-or : (b : ℕ) → bit_or 0 b ≡ b
zero-or b = bit_or-bitwise 0 b

pub zero-xor : (b : ℕ) → bit_xor 0 b ≡ b
zero-xor b = bit_xor-bitwise 0 b

pub and-lt : (w a b : ℕ) → a < 2 ^ w → bit_and a b < 2 ^ w
and-lt zero zero b p = rw zero-and p
and-lt zero (suc a) b p = absurd (omega arith)
and-lt (suc w) a b p =
    omega (arith, pow-suc 2 w, and_step a b, and-lt w (a / 2) (b / 2) (half-lt w a p))

pub or-lt : (w a b : ℕ) → a < 2 ^ w → b < 2 ^ w → bit_or a b < 2 ^ w
or-lt zero zero b p q = rw zero-or q
or-lt zero (suc a) b p q = absurd (omega arith)
or-lt (suc w) a b p q =
    omega (arith, pow-suc 2 w, or_step a b, or-lt w (a / 2) (b / 2) (half-lt w a p) (half-lt w b q))

pub xor-lt : (w a b : ℕ) → a < 2 ^ w → b < 2 ^ w → bit_xor a b < 2 ^ w
xor-lt zero zero b p q = rw zero-xor q
xor-lt zero (suc a) b p q = absurd (omega arith)
xor-lt (suc w) a b p q =
    omega
      (arith, pow-suc 2 w, xor_step a b, xor-lt w (a / 2) (b / 2) (half-lt w a p) (half-lt w b q))

pub xor_self : (w a : ℕ) → a < 2 ^ w → bit_xor a a ≡ 0
xor_self zero zero p = refl
xor_self zero (suc a) p = absurd (omega arith)
xor_self (suc w) a p = omega (arith, xor_step a a, xor_self w (a / 2) (half-lt w a p))

pub eq_of_xor : (w a b : ℕ) → a < 2 ^ w → b < 2 ^ w → bit_xor a b ≡ 0 → a ≡ b
eq_of_xor zero a b p q e = omega arith
eq_of_xor (suc w) a b p q e = omega (
  arith,
  xor_step a b,
  eq_of_xor w (a / 2) (b / 2) (half-lt w a p) (half-lt w b q) (omega (arith, xor_step a b)),
)

pub zero_of_or : (w a b : ℕ) → a < 2 ^ w → b < 2 ^ w → bit_or a b ≡ 0 → (a ≡ 0) × (b ≡ 0)
zero_of_or zero a b p q e = omega arith
zero_of_or (suc w) a b p q e =
    let e' : bit_or (a / 2) (b / 2) ≡ 0 = omega (arith, or_step a b) in
    let h = zero_of_or w (a / 2) (b / 2) (half-lt w a p) (half-lt w b q) e' in
    omega (arith, or_step a b)

pub and-zero : (w a : ℕ) → a < 2 ^ w → bit_and a 0 ≡ 0
and-zero zero zero p = refl
and-zero zero (suc a) p = absurd (omega arith)
and-zero (suc w) a p = omega (arith, and_step a 0, and-zero w (a / 2) (half-lt w a p))

abbrev inv_of : ℕ → ℕ → ℕ
inv_of w m = 2 ^ w - 1 - m

inv_low : (w m : ℕ) → m < 2 ^ suc w → inv_of (suc w) m % 2 ≡ 1 - m % 2
inv_low w m q = omega (arith, pow-suc 2 w)

inv_high : (w m : ℕ) → m < 2 ^ suc w → inv_of (suc w) m / 2 ≡ inv_of w (m / 2)
inv_high w m q = omega (arith, pow-suc 2 w)

inv-lt : (w m : ℕ) → inv_of w m < 2 ^ w
inv-lt w m = omega (arith, one-le-pow w 2)

-- The step of `&` for operands given by their halves.
and_halves :
    (a b h k : ℕ) → a / 2 ≡ h → b / 2 ≡ k → bit_and a b ≡ bit_and h k * 2 + min (a % 2) (b % 2)
and_halves a b h k e f = rw (← e, ← f) (and_step a b)

-- A mask and its complement split a word.
pub and_split : (w a m : ℕ) → a < 2 ^ w → m < 2 ^ w → bit_and a m + bit_and a (2 ^ w - 1 - m) ≡ a
and_split zero zero m p q = omega (arith, zero-and m, zero-and (2 ^ 0 - 1 - m))
and_split zero (suc a) m p q = absurd (omega arith)
and_split (suc w) a m p q =
    let ih = and_split w (a / 2) (m / 2) (half-lt w a p) (half-lt w m q) in
    let rest = and_halves a (inv_of (suc w) m) (a / 2) (inv_of w (m / 2)) refl (inv_high w m q) in
    omega (arith, and_step a m, inv_low w m q)

pub and_ones : (w a : ℕ) → a < 2 ^ w → bit_and (2 ^ w - 1) a ≡ a
and_ones zero a p = rw zero-and (omega arith)
and_ones (suc w) a p =
    let low : (2 ^ suc w - 1) % 2 ≡ 1 = omega (arith, pow-suc 2 w) in
    let high : (2 ^ suc w - 1) / 2 ≡ 2 ^ w - 1 = omega (arith, pow-suc 2 w) in
    let rest = rw (low, high) at (and_step (2 ^ suc w - 1) a) in
    omega (arith, and_ones w (a / 2) (half-lt w a p))

-- `^` from `&` and `~` alone.
pub xor_from_and :
    (w x y : ℕ)
    → x < 2 ^ w
    → y < 2 ^ w
    → bit_and (2 ^ w - 1 - bit_and x y) (2 ^ w - 1 - bit_and (2 ^ w - 1 - x) (2 ^ w - 1 - y))
      ≡ bit_xor x y
xor_from_and zero x y p q =
    let nx : x ≡ 0 = omega arith in let ny : y ≡ 0 = omega arith in rw (nx, ny) refl
xor_from_and (suc w) x y p q =
    let a = bit_and x y in
    let b = bit_and (inv_of (suc w) x) (inv_of (suc w) y) in
    let a-half : a / 2 ≡ bit_and (x / 2) (y / 2) = omega (arith, and_step x y) in
    let b_step =
      and_halves (inv_of (suc w) x) (inv_of (suc w) y) (inv_of w (x / 2)) (inv_of w (y / 2))
        (inv_high w x p) (inv_high w y q) in
    let b-half : b / 2 ≡ bit_and (inv_of w (x / 2)) (inv_of w (y / 2)) = omega (arith, b_step) in
    let a-fits = and-lt (suc w) x y p in
    let b-fits = and-lt (suc w) (inv_of (suc w) x) (inv_of (suc w) y) (inv-lt (suc w) x) in
    let out =
      and_halves (inv_of (suc w) a) (inv_of (suc w) b) (inv_of w (bit_and (x / 2) (y / 2)))
        (inv_of w (bit_and (inv_of w (x / 2)) (inv_of w (y / 2))))
        (inv_high w a a-fits ∙ ap (inv_of w) a-half) (inv_high w b b-fits ∙ ap (inv_of w) b-half) in
    omega (
      arith,
      out,
      xor_step x y,
      and_step x y,
      b_step,
      inv_low w a a-fits,
      inv_low w b b-fits,
      inv_low w x p,
      inv_low w y q,
      xor_from_and w (x / 2) (y / 2) (half-lt w x p) (half-lt w y q),
    )
