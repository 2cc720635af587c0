-- ===== src/Datalab/Width.antt =====
-- `howManyBits`: the binary search for the highest bit.
use Prim.Native.Nat.{max}
use csapp_lab_code.Base.{
  ℕ, zero, suc, ◌+◌, ◌-◌, ◌*◌, ◌/◌, ◌^◌, ◌≤◌, ◌<◌, ◌≡◌, refl, ◌≢◌, arith, ltb, ◌==◌, if◌then◌else◌,
  Bool-cases, inl, inr, ap,
}
use mathlib.Core.Path.{subst}
use native.Mathlib.Nat.{
  pow-suc, one-le-pow, mul-le-mul_right, div-mul-le_self, lt-div-mul-add, div-lt_iff_lt-mul,
}
use csapp_lab_code.Words.{IsWord, word_mod, inv, shl, sar}
use csapp_lab_code.Words.Digits.{and_ones, zero-and}
use csapp_lab_code.Datalab.Bitwise.{lnot-xor}
use csapp_lab_code.Datalab.{need_rs, sar_by, fold_sign, count_bits, how_many_bits}

-- The value whose bits are counted: `x`, or `~x` if `x` is negative.
fold_sign_lem : (x : ℕ) → IsWord x → fold_sign x ≡ (if ltb x (2 ^ 31) then x else inv x)
unfolding fold_sign
fold_sign_lem x p = elim (Bool-cases (ltb x (2 ^ 31))) [
  | inl plus ↦
      let nil : sar x 31 ≡ 0 = ground arith in
      rw (nil, plus) (rw (zero-and (inv x), and_ones 32 x p) (omega arith))
  | inr minus ↦
      let ones : sar x 31 ≡ 0xffffffff = ground arith in
      rw (ones, minus) (rw (and_ones 32 (inv x) (omega arith), zero-and x) (omega arith))
]

pow_sum : (a b : ℕ) → 2 ^ (a + b) ≡ 2 ^ a * 2 ^ b
pow_sum a zero = let e : a + 0 ≡ a = omega arith in rw e (omega arith)
pow_sum a (suc b) =
    let e : a + suc b ≡ suc (a + b) = omega arith in
    rw e (omega (arith, pow-suc 2 (a + b), ap (λ (t : ℕ). 2 ^ a * t) (pow-suc 2 b), pow_sum a b))

-- What a round finds: `k` if a bit of `x` stands at `k` or above, else 0.
abbrev found : ℕ → ℕ → ℕ
found k x = if x / 2 ^ k == 0 then 0 else k

need_rs_lem :
    (k log x : ℕ) → x < 2 ^ 31 → x / 2 ^ k < 2 ^ 32 → shl 1 log ≡ k → need_rs k log x ≡ found k x
unfolding need_rs
need_rs_lem k log x small fits e =
    let plain : sar x k ≡ x / 2 ^ k = ground arith in
    rw plain (rw (lnot-xor (x / 2 ^ k) 0 fits (omega arith)) (ground (arith, e)))

-- After shifts by `s` in all `x` is left of `v`, in fewer than `b` bits.
record Left (v s x b : ℕ) : Type 0 where
  low : x * 2 ^ s ≤ v
  high : v < (x + 1) * 2 ^ s
  fits : x < 2 ^ b
  nonzero : v ≢ 0 → 0 < x
  empty : v ≡ 0 → s ≡ 0

Left-shift : (v s x k : ℕ) → Left v s x (k + k) → x / 2 ^ k ≢ 0 → Left v (s + k) (x / 2 ^ k) k
Left-shift v s x k h ne =
    let step = one-le-pow k 2 (omega arith) in
    let down = mul-le-mul_right (2 ^ s) (div-mul-le_self x (2 ^ k)) in
    let up = mul-le-mul_right (2 ^ s) (lt-div-mul-add {a = x} step) in
    let sum = pow_sum s k in
    record {
      low = rw sum (grind (arith, h.low));
      high = rw sum (grind (arith, h.high));
      fits = (div-lt_iff_lt-mul step).1 (rw (← pow_sum k k) h.fits);
      nonzero = λ _. omega arith;
      empty = λ e. absurd (grind (arith, h.low, one-le-pow s 2));
    }

Left-round :
    (v s x k : ℕ)
    → 0 < k
    → x < 2 ^ 31
    → Left v s x (k + k)
    → Left v (s + found k x) (sar_by x (found k x)) k
unfolding sar_by
Left-round v s x k pos small h = elim (Bool-cases (x / 2 ^ k == 0)) [
  | inl nil ↦
      let step = one-le-pow k 2 (omega arith) in
      let same : s + 0 ≡ s = omega arith in
      let none_left : x / 2 ^ k ≡ 0 = ground arith in
      let below = lt-div-mul-add {a = x} step in
      rw (nil, same)
        (record {
          low = h.low;
          high = h.high;
          fits = omega (arith, rw none_left at below);
          nonzero = h.nonzero;
          empty = h.empty;
        })
  | inr more ↦
      let plain : sar_by x k ≡ x / 2 ^ k = ground arith in
      rw (more, plain) (Left-shift v s x k h (ground arith))
]

-- The five rounds, with the plain form of each `need_rs`.
Left-bits : (v : ℕ) → v < 2 ^ 31 → (s x : ℕ) × (count_bits v ≡ s + x) × Left v s x 1
unfolding count_bits
Left-bits v small =
    let l0 : Left v 0 v 32 = record {
      low = omega arith;
      high = omega arith;
      fits = omega arith;
      nonzero = λ ne. omega arith;
      empty = λ e. refl;
    } in
    let x1 = sar_by v (found 16 v) in
    let x2 = sar_by x1 (found 8 x1) in
    let x3 = sar_by x2 (found 4 x2) in
    let x4 = sar_by x3 (found 2 x3) in
    let l1 = Left-round v 0 v 16 (omega arith) small l0 in
    let l2 = Left-round v _ x1 8 (omega arith) (omega (arith, l1.fits)) l1 in
    let l3 = Left-round v _ x2 4 (omega arith) (omega (arith, l2.fits)) l2 in
    let l4 = Left-round v _ x3 2 (omega arith) (omega (arith, l3.fits)) l3 in
    let l5 = Left-round v _ x4 1 (omega arith) (omega (arith, l4.fits)) l4 in
    (
      _,
      _,
      rw
          (
            need_rs_lem 16 4 v small (omega arith) refl,
            need_rs_lem 8 3 x1 (omega (arith, l1.fits)) (omega (arith, l1.fits)) refl,
            need_rs_lem 4 2 x2 (omega (arith, l2.fits)) (omega (arith, l2.fits)) refl,
            need_rs_lem 2 1 x3 (omega (arith, l3.fits)) (omega (arith, l3.fits)) refl,
            need_rs_lem 1 0 x4 (omega (arith, l4.fits)) (omega (arith, l4.fits)) refl,
          )
          (omega arith),
      l5,
    )

count_bits_bounds :
    (v : ℕ)
    → v < 2 ^ 31
    → (v < 2 ^ count_bits v) × (v ≢ 0 → 2 ^ count_bits v ≤ 2 * v) × (v ≡ 0 → count_bits v ≡ 0)
count_bits_bounds v small =
    let (s, x, total, l) = Left-bits v small in
    elim (Bool-cases (x == 0)) [
      | inl nil ↦
          let z : x ≡ 0 = ground arith in
          let none_set : v ≡ 0 = grind (arith, l.nonzero) in
          let none_counted : count_bits v ≡ 0 = omega (arith, total, l.empty none_set) in
          rw (none_counted, none_set) (omega arith)
      | inr one ↦
          let o : x ≡ 1 = grind (arith, l.fits) in
          let counted : count_bits v ≡ suc s = omega arith in
          let low : 1 * 2 ^ s ≤ v = subst (λ t. t * 2 ^ s ≤ v) o l.low in
          let high : v < (1 + 1) * 2 ^ s = subst (λ t. v < (t + 1) * 2 ^ s) o l.high in
          rw counted (omega (arith, pow-suc 2 s, one-le-pow s 2))
    ]

-- The integer that stands for `x`, or for `~x` if it is negative.
abbrev pub magnitude : ℕ → ℕ
magnitude x = if ltb x (2 ^ 31) then x else word_mod - 1 - x

least_width : (m n : ℕ) → (m ≢ 0 → 2 ^ n ≤ 2 * m) → (m ≡ 0 → n ≡ 0) → 2 ^ n ≤ max 1 (2 * m)
least_width zero n h e = rw (e refl) (omega arith)
least_width (suc m) n h e = omega (arith, h (λ z. omega arith))

-- `howManyBits` of a word is the least width of a two's complement representation of its integer:
-- the magnitude (`x`, or `~x` of a negative integer) fits in one bit less and, unless it is 0, in
-- no smaller width; a magnitude of 0 takes one bit.
pub how_many_bits_lem :
    (x : ℕ)
    → IsWord x
    → (magnitude x < 2 ^ (how_many_bits x - 1))
      × (2 ^ (how_many_bits x - 1) ≤ max 1 (2 * magnitude x))
      × (0 < how_many_bits x)
unfolding how_many_bits
how_many_bits_lem x p =
    let small : magnitude x < 2 ^ 31 = ground arith in
    let folded : fold_sign x ≡ magnitude x = fold_sign_lem x p in
    let less : count_bits (magnitude x) + 1 - 1 ≡ count_bits (magnitude x) = omega arith in
    let (fits, least, empty) = count_bits_bounds (magnitude x) small in
    rw (folded, less)
      (fits, least_width (magnitude x) (count_bits (magnitude x)) least empty, omega arith)
