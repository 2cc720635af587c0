-- ===== src/Datalab/Float.antt =====
-- The puzzles on the bits of a single-precision number: sign, exponent field and fraction.
pub mod ToInt
use Prim.Native.Nat.{bit_and, bit_or, bit_xor}
use csapp_lab_code.Base.{
  ℕ, ◌+◌, ◌-◌, ◌*◌, ◌/◌, ◌%◌, ◌^◌, ◌≤◌, ◌<◌, ◌≡◌, refl, ◌≢◌, ◌∙◌, Bool, true, false, arith, ltb,
  leb, ◌==◌, ◌||◌, if◌then◌else◌, Bool-cases, inl, inr, ap, suc, zero,
}
use native.Mathlib.Nat.{pow-suc}
use csapp_lab_code.Base.Int.{ℤ, pos, negsuc}
use csapp_lab_code.Words.{IsWord, word_mod, inv, lnot, add32, shl, shr}
use csapp_lab_code.Words.Digits.{and_split, and-lt}
use csapp_lab_code.Words.Fields.{and_mask, and_field, or_fields, or_low}
use csapp_lab_code.Datalab.{expmask, mmask, float_scale2, float_val, float_float2int, float_power2}

-- The word with sign `s`, exponent field `e` and fraction `m`.
abbrev pub pack : ℕ → ℕ → ℕ → ℕ
pack s e m = (s * 256 + e) * 2 ^ 23 + m

abbrev pub IsFloat : ℕ → ℕ → ℕ → Type 0
IsFloat s e m = (s < 2) × (e < 256) × (m < 2 ^ 23)

module _ (s e m : ℕ) (f : IsFloat s e m) where
  pub word : IsWord (pack s e m)
  word = omega (arith, f.0, f.1, f.2)

  pub exp_part : bit_and (pack s e m) expmask ≡ e * 2 ^ 23
  exp_part = omega (arith, and_field 23 8 32 (pack s e m) word, f.0, f.1, f.2)

  pub frac_part : bit_and (pack s e m) mmask ≡ m
  frac_part = omega (arith, and_mask 23 32 (pack s e m) word, f.0, f.1, f.2)

  no_exp : bit_and (pack s e m) (inv expmask) ≡ s * 2 ^ 31 + m
  no_exp = omega (arith, and_split 32 (pack s e m) expmask word (omega arith), exp_part)

  no_frac : bit_and (pack s e m) (inv mmask) ≡ (s * 256 + e) * 2 ^ 23
  no_frac = omega (arith, and_split 32 (pack s e m) mmask word (omega arith), frac_part)

-- `a | b << 23` of a field that is clear in `a`
or_exp : (s e m : ℕ) → IsFloat s e m → bit_or (s * 2 ^ 31 + m) (e * 2 ^ 23) ≡ pack s e m
or_exp s e m f =
    let wide : s * 2 ^ 31 + m ≡ s * 256 * 2 ^ 23 + m = omega arith in
    rw wide (
      omega (
        arith,
        or_low 23 (s * 256) e m (omega (arith, f.2)),
        or_fields 8 s e 1 (omega (arith, f.0)) (omega (arith, f.1)),
        f.0,
        f.1,
        f.2,
      ))

-- The magnitude of a finite number, in units of 2 ^ -149.
abbrev pub magnitude : ℕ → ℕ → ℕ
magnitude zero m = m
magnitude (suc e) m = (2 ^ 23 + m) * 2 ^ e

scale2_normal :
    (s e m : ℕ) → IsFloat s e m → 0 < e → e < 255 → float_scale2 (pack s e m) ≡ pack s (e + 1) m
unfolding float_scale2
scale2_normal s e m f lo hi =
    let next : shr (add32 (shl (e * 2 ^ 23) 1) 0x01000000) 1 ≡ (e + 1) * 2 ^ 23 = omega arith in
    rw
      (
        exp_part s e m f,
        frac_part s e m f,
        no_exp s e m f,
        no_frac s e m f,
        next,
        or_exp s (e + 1) m (f.0, omega arith, f.2),
      )
      (ground (arith, f.0, f.1, f.2))

scale2_denormal : (s m : ℕ) → IsFloat s 0 m → float_scale2 (pack s 0 m) ≡ s * 2 ^ 31 + 2 * m
unfolding float_scale2
scale2_denormal s m f =
    let double : shl m 1 ≡ 2 * m = omega (arith, f.2) in
    let high : (s * 256 + 0) * 2 ^ 23 ≡ s * 2 ^ 31 = omega arith in
    let merged = or_fields 31 s (2 * m) 1 (f.0) (omega (arith, f.2)) in
    rw (exp_part s 0 m f, frac_part s 0 m f, no_frac s 0 m f, double, high, merged)
      (ground (arith, f.0, f.1, f.2))

-- `floatScale2` of a number with an exponent field below 254 has the same sign, is again finite and
-- has exactly twice the magnitude, denormal numbers and zeros included.
pub float_scale2-magnitude :
    (s e m : ℕ)
    → IsFloat s e m
    → e < 254
    → (e' m' : ℕ) × (float_scale2 (pack s e m) ≡ pack s e' m')
      × IsFloat s e' m'
      × (e' < 255)
      × (magnitude e' m' ≡ 2 * magnitude e m)
float_scale2-magnitude s zero m f h = elim (Bool-cases (ltb m (2 ^ 22))) [
  | inl small ↦ (
    0,
    2 * m,
    scale2_denormal s m f ∙ omega arith,
    (f.0, omega arith, ground arith),
    omega arith,
    refl,
  )
  | inr large ↦ (
    1,
    2 * m - 2 ^ 23,
    scale2_denormal s m f ∙ ground arith,
    (f.0, omega arith, omega (arith, f.2)),
    omega arith,
    ground arith,
  )
]
float_scale2-magnitude s (suc e) m f h = (
  suc (suc e),
  m,
  scale2_normal s (suc e) m f (omega arith) (omega arith) ∙ omega arith,
  (f.0, omega arith, f.2),
  omega arith,
  rw (pow-suc 2 e) (grind arith),
)

-- `floatScale2` returns a word with the exponent field 255, an infinity or a NaN, as it is.
pub float_scale2-special : (s m : ℕ) → IsFloat s 255 m → float_scale2 (pack s 255 m) ≡ pack s 255 m
unfolding float_scale2
float_scale2-special s m f = rw (exp_part s 255 m f) (ground (arith, f.0, f.1, f.2))

-- `floatScale2` of a finite number with the exponent field 254, whose double is too large, has the
-- exponent field 255 and keeps its fraction: where the fraction is not 0 that is a NaN, not an
-- infinity.
pub float_scale2-overflow : (s m : ℕ) → IsFloat s 254 m → float_scale2 (pack s 254 m) ≡ pack s 255 m
float_scale2-overflow s m f = scale2_normal s 254 m f (omega arith) (omega arith)

scaled : (x : ℕ) → (2 ^ 23 + 0) * 2 ^ x ≡ 2 ^ (x + 23)
scaled zero = refl
scaled (suc x) =
    let next : 2 ^ (suc x + 23) ≡ 2 ^ suc (x + 23) =
      ap (λ (t : ℕ). 2 ^ t) {x = suc x + 23} {y = suc (x + 23)} (omega arith) in
    omega (arith, next, scaled x, pow-suc 2 x, pow-suc 2 (x + 23))

-- `floatPower2` of an exponent from -126 up to 127, here the exponent plus 126 for `k`, is the
-- normal number of exactly that power of two: 2 ^ (k + 23) units of 2 ^ -149.
pub float_power2-magnitude :
    (k : ℕ)
    → k < 254
    → (float_power2 (if ltb k 126 then negsuc (125 - k) else pos (k - 126)) ≡ pack 0 (k + 1) 0)
      × (magnitude (k + 1) 0 ≡ 2 ^ (k + 23))
unfolding float_power2
float_power2-magnitude k h = (
  elim (Bool-cases (ltb k 126)) [
    | inl low ↦ rw low (ground arith)
    | inr high ↦ rw high (ground arith)
  ],
  ap (λ (t : ℕ). magnitude t 0) {x = k + 1} {y = suc k} (omega arith) ∙ scaled k,
)
