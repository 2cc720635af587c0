-- ===== src/Words/Fields.antt =====
-- Masks, fields and powers of two: the bit operations on whole ranges of bits.
use Prim.Native.Nat.{bit_and, bit_or}
use csapp_lab_code.Base.{ℕ, zero, suc, ◌+◌, ◌-◌, ◌*◌, ◌/◌, ◌%◌, ◌^◌, ◌<◌, ◌≡◌, refl, ap, ◌∙◌, arith}
use native.Mathlib.Nat.{pow-suc, one-le-pow, div-div-eq-div-mul}
use csapp_lab_code.Words.Digits.{and_step, or_step, half-lt, zero-and, zero-or, and-zero}

pub mod_double : (t a : ℕ) → 0 < t → a % (2 * t) ≡ a / 2 % t * 2 + a % 2
mod_double t a p = grind arith

pub and_mask : (k w a : ℕ) → a < 2 ^ w → bit_and a (2 ^ k - 1) ≡ a % 2 ^ k
and_mask zero w a p = rw (and-zero w a p) (omega arith)
and_mask (suc k) zero a p =
    let nil : a ≡ 0 = omega arith in rw nil (rw zero-and (omega (arith, pow-suc 2 k)))
and_mask (suc k) (suc w) a p =
    let low : (2 ^ suc k - 1) % 2 ≡ 1 = omega (arith, pow-suc 2 k, one-le-pow k 2) in
    let high : (2 ^ suc k - 1) / 2 ≡ 2 ^ k - 1 = omega (arith, pow-suc 2 k, one-le-pow k 2) in
    let rest = rw (low, high) at (and_step a (2 ^ suc k - 1)) in
    let double : 2 ^ suc k ≡ 2 * 2 ^ k = omega (arith, pow-suc 2 k) in
    let ih = and_mask k w (a / 2) (half-lt w a p) in
    rw (double)
      (omega (arith, rw double at rest, mod_double (2 ^ k) a (one-le-pow k 2 (omega arith))))

or-zero : (w a : ℕ) → a < 2 ^ w → bit_or a 0 ≡ a
or-zero zero a p = let nil : a ≡ 0 = omega arith in rw nil (zero-or 0)
or-zero (suc w) a p = omega (arith, or_step a 0, or-zero w (a / 2) (half-lt w a p))

-- `|` of disjoint fields is their sum.
pub or_fields : (k q r w : ℕ) → q < 2 ^ w → r < 2 ^ k → bit_or (q * 2 ^ k) r ≡ q * 2 ^ k + r
or_fields zero q r w fits p =
    let nil : r ≡ 0 = omega arith in
    let one : q * 2 ^ 0 ≡ q = omega arith in rw (nil, one) (or-zero w q fits ∙ omega arith)
or_fields (suc k) q r w fits p =
    let double : q * 2 ^ suc k ≡ 2 * (q * 2 ^ k) =
      omega (arith, ap (λ (t : ℕ). q * t) (pow-suc 2 k)) in
    let ih = or_fields k q (r / 2) w fits (half-lt k r p) in
    let low : 2 * (q * 2 ^ k) % 2 ≡ 0 = omega arith in
    let high : 2 * (q * 2 ^ k) / 2 ≡ q * 2 ^ k = omega arith in
    rw double (omega (arith, rw (low, high) at (or_step (2 * (q * 2 ^ k)) r)))

-- The mask of `n` ones from bit `k` on.
pub and_field :
    (k n w a : ℕ) → a < 2 ^ w → bit_and a ((2 ^ n - 1) * 2 ^ k) ≡ a / 2 ^ k % 2 ^ n * 2 ^ k
and_field zero n w a p =
    let one : (2 ^ n - 1) * 2 ^ 0 ≡ 2 ^ n - 1 = omega arith in
    let whole : a / 2 ^ 0 ≡ a = omega arith in rw (one, whole) (omega (arith, and_mask n w a p))
and_field (suc k) n w a p =
    let m = 2 ^ n - 1 in
    let double : m * 2 ^ suc k ≡ 2 * (m * 2 ^ k) =
      omega (arith, ap (λ (t : ℕ). m * t) (pow-suc 2 k)) in
    let ih = and_field k n w (a / 2) (omega arith) in
    let halves : a / 2 / 2 ^ k ≡ a / 2 ^ suc k =
      div-div-eq-div-mul a 2 (2 ^ k) ∙ ap (λ (t : ℕ). a / t) (omega (arith, pow-suc 2 k)) in
    let field = a / 2 ^ suc k % 2 ^ n in
    let twice : field * 2 ^ suc k ≡ 2 * (field * 2 ^ k) =
      omega (arith, ap (λ (t : ℕ). field * t) (pow-suc 2 k)) in
    let low : 2 * (m * 2 ^ k) % 2 ≡ 0 = omega arith in
    let high : 2 * (m * 2 ^ k) / 2 ≡ m * 2 ^ k = omega arith in
    let rest = rw (low, high) at (and_step a (2 * (m * 2 ^ k))) in
    rw (double, twice) (omega (arith, rw halves at ih))

-- `a | b` where `b` is clear in the low `k` bits
pub or_low : (k q p r : ℕ) → r < 2 ^ k → bit_or (q * 2 ^ k + r) (p * 2 ^ k) ≡ bit_or q p * 2 ^ k + r
or_low zero q p r lt =
    let nil : r ≡ 0 = omega arith in
    let one : (a : ℕ) → a * 2 ^ 0 + 0 ≡ a = λ a. omega arith in
    let one' : (a : ℕ) → a * 2 ^ 0 ≡ a = λ a. omega arith in
    rw (nil, one q, one' p, one (bit_or q p)) refl
or_low (suc k) q p r lt =
    let double : 2 ^ suc k ≡ 2 * 2 ^ k = omega (arith, pow-suc 2 k) in
    let half_a : (q * 2 ^ suc k + r) / 2 ≡ q * 2 ^ k + r / 2 = rw double (grind arith) in
    let half_b : p * 2 ^ suc k / 2 ≡ p * 2 ^ k = rw double (grind arith) in
    let low_a : (q * 2 ^ suc k + r) % 2 ≡ r % 2 = rw double (grind arith) in
    let low_b : p * 2 ^ suc k % 2 ≡ 0 = rw double (grind arith) in
    let step = rw (half_a, half_b, low_a, low_b) at (or_step (q * 2 ^ suc k + r) (p * 2 ^ suc k)) in
    let ih = or_low k q p (r / 2) (half-lt k r lt) in
    let goal : bit_or q p * 2 ^ suc k ≡ 2 * (bit_or q p * 2 ^ k) = rw double (grind arith) in
    omega (arith, step, ih, goal)

pub pow_add : (a b : ℕ) → 2 ^ (a + b) ≡ 2 ^ a * 2 ^ b
pow_add zero b = ap (λ (t : ℕ). 2 ^ t) {x = 0 + b} {y = b} (omega arith) ∙ omega arith
pow_add (suc a) b =
    let next : 2 ^ (suc a + b) ≡ 2 ^ suc (a + b) =
      ap (λ (t : ℕ). 2 ^ t) {x = suc a + b} {y = suc (a + b)} (omega arith) in
    next ∙ pow-suc 2 (a + b) ∙ rw (pow_add a b, pow-suc 2 a) (grind arith)
