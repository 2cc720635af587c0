-- ===== src/Datalab/Float/ToInt.antt =====
-- The conversion to `int` of datalab_code/bits.c: truncation of the magnitude towards zero.
use Prim.Native.Nat.{bit_and, bit_or}
use native.Mathlib.Nat.{
  one-le-pow, pow-le-pow_right, mul-div-mul_right, mul-div_cancel, div-le_self, mul-le-mul_left,
  div-eq_of_lt,
}
use csapp_lab_code.Base.{
  ℕ, ◌+◌, ◌-◌, ◌*◌, ◌/◌, ◌%◌, ◌^◌, ◌≤◌, ◌<◌, ◌≡◌, refl, sym, ◌∙◌, arith, leb, ◌==◌, if◌then◌else◌,
  Bool-cases, true, false, inl, inr, ap, suc, zero,
}
use csapp_lab_code.Base.Int.{ℤ, pos, negsuc}
use csapp_lab_code.Words.{shl, shr}
use csapp_lab_code.Words.Fields.{or_low, and_mask, pow_add}
use csapp_lab_code.Datalab.{float_val, float_float2int}
use csapp_lab_code.Datalab.Float.{pack, IsFloat, magnitude, exp_part, frac_part}

pow_split : (n a b : ℕ) → n ≡ a + b → 2 ^ n ≡ 2 ^ a * 2 ^ b
pow_split n a b e = rw e (pow_add a b)

-- `m * 2 ^ e` over `2 ^ (e + n)`
down : (m e n t : ℕ) → t ≡ e + n → m * 2 ^ e / 2 ^ t ≡ m / 2 ^ n
down m e n t h =
    rw (pow_split t n e (omega arith)) (mul-div-mul_right m (2 ^ n) (one-le-pow e 2 (omega arith)))

up : (m e d t : ℕ) → e ≡ d + t → m * 2 ^ e / 2 ^ t ≡ m * 2 ^ d
up m e d t h = rw (pow_split e d t h) (
    ap (λ (y : ℕ). y / 2 ^ t) {x = m * (2 ^ d * 2 ^ t)} {y = m * 2 ^ d * 2 ^ t} (grind arith)
    ∙ mul-div_cancel (m * 2 ^ d) (one-le-pow t 2 (omega arith)))

-- a 24-bit significand, moved up by less than 8 places, still fits below the sign bit
shift_up : (m d : ℕ) → m < 2 ^ 24 → d < 8 → (shl m d ≡ m * 2 ^ d) × (m * 2 ^ d < 2 ^ 31)
shift_up m d small lt =
    let bound : 2 ^ d ≤ 2 ^ 7 = pow-le-pow_right (omega arith) {i = d} {j = 7} (omega arith) in
    let p1 : m * 2 ^ d ≤ m * 2 ^ 7 = mul-le-mul_left m bound in
    let fits : m * 2 ^ d < 2 ^ 31 = omega arith in (omega (arith, fits), fits)

shift_out : (m n : ℕ) → m < 2 ^ 24 → 24 ≤ n → m / 2 ^ n ≡ 0
shift_out m n small le =
    let bound : 2 ^ 24 ≤ 2 ^ n = pow-le-pow_right (omega arith) {i = 24} {j = n} le in
    div-eq_of_lt (omega arith)

-- `m` with the hidden one, as the code forms it
abbrev significand : ℕ → ℕ → ℕ
significand e m = if e == 0 then m else bit_or m 0x00800000

hidden : (m : ℕ) → m < 2 ^ 23 → bit_or m 0x00800000 ≡ 2 ^ 23 + m
hidden m lt = let here : 0 * 2 ^ 23 + m ≡ m = omega arith in rw here at (or_low 23 0 1 m lt)

abbrev scale : ℕ → ℤ
scale e = if leb 150 e then pos (e - 150) else negsuc (150 - e - 1)

val_pos : (d m : ℕ) → m < 2 ^ 24 → d < 8 → float_val (pos d) m ≡ m * 2 ^ d
val_pos d m small lt = let moved = shift_up m d small lt in ground (arith, moved.0)

val_neg : (k m : ℕ) → m < 2 ^ 24 → float_val (negsuc k) m ≡ m / 2 ^ (k + 1)
val_neg k m small = elim (Bool-cases (leb (k + 1) 23)) [
  | inl near ↦ rw near refl
  | inr far ↦ rw far (sym (shift_out m (k + 1) small (ground arith)))
]

value_lem :
    (e m : ℕ)
    → e < 158
    → m < 2 ^ 23
    → float_val (scale e) (significand e m) ≡ magnitude e m / 2 ^ 149
value_lem zero m h lt = omega (arith, lt)
value_lem (suc e) m h lt =
    let normal : (suc e == 0) ≡ false = ground arith in
    let sig : significand (suc e) m ≡ 2 ^ 23 + m = rw normal (hidden m lt) in
    rw sig (elim (Bool-cases (leb 150 (suc e))) [
      | inl high ↦
          let d = suc e - 150 in
          rw (high, up (2 ^ 23 + m) e d 149 (ground arith))
            (val_pos d (2 ^ 23 + m) (omega arith) (ground arith))
      | inr low ↦
          let k = 150 - suc e - 1 in
          rw (low, down (2 ^ 23 + m) e (k + 1) 149 (ground arith))
            (val_neg k (2 ^ 23 + m) (omega arith))
    ])

val-lt : (z : ℤ) (m : ℕ) → m < 2 ^ 24 → float_val z m < 2 ^ 32
val-lt (pos d) m small = ground arith
val-lt (negsuc k) m small = ground (arith, div-le_self m (2 ^ (k + 1)))

significand-lt : (e m : ℕ) → m < 2 ^ 23 → significand e m < 2 ^ 24
significand-lt e m lt = ground (arith, hidden m lt)

sign_part : (s e m : ℕ) → IsFloat s e m → bit_and (shr (pack s e m) 31) 1 ≡ s
sign_part s e m f =
    let top : shr (pack s e m) 31 ≡ s = omega (arith, f.0, f.1, f.2) in
    rw top (omega (arith, and_mask 1 1 s (f.0), f.0))

-- For a number with an exponent field below 158, that is below 2 ^ 31 in magnitude,
-- `floatFloat2Int` returns the magnitude rounded down to an integer, negated modulo 2 ^ 32 where
-- the sign bit is set.
pub float_float2int-truncates :
    (s e m : ℕ)
    → IsFloat s e m
    → e < 158
    → float_float2int (pack s e m)
      ≡ (let t = magnitude e m / 2 ^ 149 in if s == 0 then t else (2 ^ 32 - t) % 2 ^ 32)
unfolding float_float2int
float_float2int-truncates s e m f h =
    let field : shr (e * 2 ^ 23) 23 ≡ e = omega arith in
    let sign : bit_and (shr (pack s e m) 31) 1 ≡ s = sign_part s e m f in
    let value = value_lem e m h (f.2) in
    let bound = val-lt (scale e) (significand e m) (significand-lt e m (f.2)) in
    let finite : (e == 255) ≡ false = ground arith in
    rw (exp_part s e m f, frac_part s e m f, field, sign, finite, value)
      (ap (λ (t : ℕ). if s == 0 then magnitude e m / 2 ^ 149 else t % 2 ^ 32)
        (omega (arith, rw value at bound)))

-- For a word with an exponent field from 158 on, a number of at least 2 ^ 31 in magnitude, an
-- infinity or a NaN, `floatFloat2Int` returns 0x80000000.
pub float_float2int_out_of_range :
    (s e m : ℕ) → IsFloat s e m → 158 ≤ e → float_float2int (pack s e m) ≡ 0x80000000
unfolding float_float2int
float_float2int_out_of_range s e m f h =
    let field : shr (e * 2 ^ 23) 23 ≡ e = omega arith in
    let high : leb 150 e ≡ true = ground arith in
    rw (exp_part s e m f, frac_part s e m f, field, high) (ground (arith, f.1))
