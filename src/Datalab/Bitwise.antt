-- ===== src/Datalab/Bitwise.antt =====
-- The puzzles about single bits and masks.
use Prim.Native.Nat.{bit_and, bit_or, bit_xor}
use csapp_lab_code.Base.{
  ℕ, zero, suc, ◌+◌, ◌-◌, ◌*◌, ◌/◌, ◌%◌, ◌^◌, ◌≡◌, refl, ap, Bool, true, arith, leb, ◌&&◌, ◌==◌,
  if◌then◌else◌, Bool-cases, inl, inr, ==_iff,
}
use csapp_lab_code.Words.{IsWord, inv, lnot, add32, sar}
use csapp_lab_code.Words.Digits.{
  xor_from_and, and_step, and-lt, or-lt, xor-lt, xor_self, eq_of_xor, zero_of_or, zero-and,
  and_ones,
}
use csapp_lab_code.Datalab.{
  bit_xor_puzzle, tmin, is_tmax, all_odd_bits, negate, is_ascii_digit, conditional,
}

-- `bitXor` is the exclusive or, on all pairs of words.
pub bit_xor_puzzle-eq-xor : (x y : ℕ) → IsWord x → IsWord y → bit_xor_puzzle x y ≡ bit_xor x y
unfolding bit_xor_puzzle
bit_xor_puzzle-eq-xor x y p q = xor_from_and 32 x y p q

-- `tmin` is the pattern of the least integer.
pub tmin_value : tmin ≡ 2 ^ 31
unfolding tmin
tmin_value = refl

-- `!(a ^ b)` tests equality of words.
pub lnot-xor : (a b : ℕ) → IsWord a → IsWord b → lnot (bit_xor a b) ≡ (if a == b then 1 else 0)
lnot-xor a b p q = elim (Bool-cases (a == b)) [
  | inl same ↦ let e = (==_iff a b).0 same in rw same (rw e (ap lnot (xor_self 32 b q)))
  | inr other ↦ rw other (ground (arith, eq_of_xor 32 a b p q))
]

-- `isTmax` is 1 at the greatest integer and 0 at every other word.
pub is_tmax_lem : (x : ℕ) → IsWord x → is_tmax x ≡ (if x == 2 ^ 31 - 1 then 1 else 0)
unfolding is_tmax
is_tmax_lem x p =
    rw (lnot-xor (add32 (add32 x x) 1) (inv 0) (omega arith) (omega arith)) (ground arith)

-- `negate` gives the word that sums with `x` to 0.
pub negate-add : (x : ℕ) → IsWord x → add32 x (negate x) ≡ 0 × IsWord (negate x)
unfolding negate
negate-add x p = omega arith

-- `conditional` is `x ? y : z` for any `x` and any words `y` and `z`.
pub conditional_lem :
    (x y z : ℕ) → IsWord y → IsWord z → conditional x y z ≡ (if x == 0 then z else y)
unfolding conditional
conditional_lem x y z p q = elim (Bool-cases (x == 0)) [
  | inl nil ↦ rw nil (rw (zero-and y, and_ones 32 z q) (omega arith))
  | inr other ↦ rw other (rw (zero-and z, and_ones 32 y p) (omega arith))
]

-- Every odd bit of `x`, from bit 1 up to bit `2 * n - 1`, is set.
abbrev odd_bits_set : ℕ → ℕ → Bool
odd_bits_set zero x = true
odd_bits_set (suc n) x = (x / 2 % 2 == 1) && odd_bits_set n (x / 4)

abbrev odd_mask : ℕ → ℕ
odd_mask zero = 0
odd_mask (suc n) = odd_mask n * 4 + 2

odd_mask_step : (m x : ℕ) → bit_and (m * 4 + 2) x ≡ bit_and m (x / 4) * 4 + x / 2 % 2 * 2
odd_mask_step m x =
    let first = and_step (m * 4 + 2) x in
    let half : (m * 4 + 2) / 2 ≡ m * 2 + 1 = omega arith in
    let second = and_step (m * 2 + 1) (x / 2) in
    let half' : (m * 2 + 1) / 2 ≡ m = omega arith in
    let quarter : x / 2 / 2 ≡ x / 4 = omega arith in
    let first' = rw half at first in
    let second' = rw (half', quarter) at second in omega (arith, first', second')

odd_mask_iff : (n x : ℕ) → (odd_mask n == bit_and (odd_mask n) x) ≡ odd_bits_set n x
odd_mask_iff zero x = rw (zero-and x) refl
odd_mask_iff (suc n) x = rw (odd_mask_step (odd_mask n) x) (ground (arith, odd_mask_iff n (x / 4)))

-- `allOddBits` of a word is 1 if its sixteen odd bits are all set, and 0 if not.
pub all_odd_bits_lem : (x : ℕ) → IsWord x → all_odd_bits x ≡ (if odd_bits_set 16 x then 1 else 0)
unfolding all_odd_bits
all_odd_bits_lem x p =
    rw
      (lnot-xor 0xAAAAAAAA (bit_and 0xAAAAAAAA x) (omega arith)
        (and-lt 32 0xAAAAAAAA x (omega arith)))
      (ap (λ b. if b then 1 else 0) (odd_mask_iff 16 x))

-- `!(a | b | c)` tests that all three are 0.
lnot_or3 :
    (a b c : ℕ)
    → IsWord a
    → IsWord b
    → IsWord c
    → lnot (bit_or (bit_or a b) c) ≡ (if a == 0 && b == 0 && c == 0 then 1 else 0)
lnot_or3 a b c p q r = elim (Bool-cases (a == 0 && b == 0 && c == 0)) [
  | inl all ↦
      let na : a ≡ 0 = ground arith in
      let nb : b ≡ 0 = ground arith in let nc : c ≡ 0 = ground arith in rw (na, nb, nc) refl
  | inr other ↦
      rw other
        (ground (arith, zero_of_or 32 a b p q, zero_of_or 32 (bit_or a b) c (or-lt 32 a b p q) r))
]

xor-zero : (a b : ℕ) → IsWord a → IsWord b → (bit_xor a b == 0) ≡ (a == b)
xor-zero a b p q = ground (arith, lnot-xor a b p q)

-- `10 & x` and `12 & x`, by the bits that the masks keep.
mask_a : (x : ℕ) → bit_and 0xA x ≡ x / 2 % 2 * 2 + x / 8 % 2 * 8
mask_a x = omega (
  arith,
  and_step 10 x,
  and_step 5 (x / 2),
  and_step 2 (x / 2 / 2),
  and_step 1 (x / 2 / 2 / 2),
  zero-and (x / 2 / 2 / 2 / 2),
)

mask_c : (x : ℕ) → bit_and 0xC x ≡ x / 4 % 2 * 4 + x / 8 % 2 * 8
mask_c x = omega (
  arith,
  and_step 12 x,
  and_step 6 (x / 2),
  and_step 3 (x / 2 / 2),
  and_step 1 (x / 2 / 2 / 2),
  zero-and (x / 2 / 2 / 2 / 2),
)

-- `isAsciiDigit` of a word is 1 on the codes of the ten digits and 0 on the others.
pub is_ascii_digit_lem :
    (x : ℕ) → IsWord x → is_ascii_digit x ≡ (if leb 0x30 x && leb x 0x39 then 1 else 0)
unfolding is_ascii_digit
is_ascii_digit_lem x p =
    let high : IsWord (sar x 4) = ground arith in
    let ma = bit_and 0xA x in
    let mc = bit_and 0xC x in
    let fit_a : IsWord ma = omega (arith, mask_a x) in
    let fit_c : IsWord mc = omega (arith, mask_c x) in
    let small = xor-lt 32 0x3 (sar x 4) (omega arith) high in
    let ua = lnot-xor ma 0xA fit_a (omega arith) in
    let uc = lnot-xor mc 0xC fit_c (omega arith) in
    rw
      (
        lnot_or3 (bit_xor 0x3 (sar x 4)) (lnot (bit_xor ma 0xA)) (lnot (bit_xor mc 0xC)) small
            (ground arith) (ground arith),
        xor-zero 0x3 (sar x 4) (omega arith) high,
        ua,
        uc,
      )
      (ground (arith, mask_a x, mask_c x))
