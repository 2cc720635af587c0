-- ===== src/Datalab/Compare.antt =====
-- The puzzles that read a sign.
use Prim.Native.Nat.{bit_and, bit_or, bit_xor}
use csapp_lab_code.Base.{
  ℕ, ◌+◌, ◌-◌, ◌^◌, ◌≡◌, ◌≢◌, arith, ltb, ◌==◌, if◌then◌else◌, Bool-cases, inl, inr, ◌⊎◌, ◌∙◌,
}
use csapp_lab_code.Base.Int.{pos, negsuc, ltb_ℤ}
use csapp_lab_code.Words.{IsWord, word_mod, inv, lnot, add32, sar, signed}
use csapp_lab_code.Words.Fields.{and_mask}
use csapp_lab_code.Datalab.{sign_bit, is_less_or_equal, logical_neg, negate}

abbrev neg_flag : ℕ → ℕ
neg_flag x = if ltb x (2 ^ 31) then 0 else 1

sign_bit_lem : (x : ℕ) → IsWord x → sign_bit x ≡ neg_flag x
sign_bit_lem x p =
    let fits : IsWord (sar x 31) = ground arith in ground (arith, and_mask 1 32 (sar x 31) fits)

neg_flag-cases : (x : ℕ) → (neg_flag x ≡ 0) ⊎ (neg_flag x ≡ 1)
neg_flag-cases x = elim (Bool-cases (ltb x (2 ^ 31))) [
  | inl small ↦ inl (rw small)
  | inr big ↦ inr (rw big)
]

-- The formula of `isLessOrEqual` on the three signs.
le_signs : ℕ → ℕ → ℕ → ℕ
le_signs a b d = bit_or (bit_and a (lnot b)) (bit_and (lnot (bit_and (lnot a) b)) (lnot d))

le_signs_lem :
    (a b d : ℕ)
    → (a ≡ 0) ⊎ (a ≡ 1)
    → (b ≡ 0) ⊎ (b ≡ 1)
    → (d ≡ 0) ⊎ (d ≡ 1)
    → le_signs a b d ≡ (if a == b then lnot d else a)
unfolding le_signs
le_signs_lem a b d (inl p) (inl q) (inl r) = rw (p, q, r)
le_signs_lem a b d (inl p) (inl q) (inr r) = rw (p, q, r)
le_signs_lem a b d (inl p) (inr q) (inl r) = rw (p, q, r)
le_signs_lem a b d (inl p) (inr q) (inr r) = rw (p, q, r)
le_signs_lem a b d (inr p) (inl q) (inl r) = rw (p, q, r)
le_signs_lem a b d (inr p) (inl q) (inr r) = rw (p, q, r)
le_signs_lem a b d (inr p) (inr q) (inl r) = rw (p, q, r)
le_signs_lem a b d (inr p) (inr q) (inr r) = rw (p, q, r)

le_signs_flags :
    (x y d : ℕ)
    → le_signs (neg_flag x) (neg_flag y) (neg_flag d)
      ≡ (if neg_flag x == neg_flag y then lnot (neg_flag d) else neg_flag x)
le_signs_flags x y d =
    le_signs_lem (neg_flag x) (neg_flag y) (neg_flag d) (neg_flag-cases x) (neg_flag-cases y)
      (neg_flag-cases d)

nonzero_signs :
    (a b : ℕ) → (a ≡ 0) ⊎ (a ≡ 1) → (b ≡ 0) ⊎ (b ≡ 1) → bit_xor (bit_or a b) 1 ≡ lnot (a + b)
nonzero_signs a b (inl p) (inl q) = rw (p, q)
nonzero_signs a b (inl p) (inr q) = rw (p, q)
nonzero_signs a b (inr p) (inl q) = rw (p, q)
nonzero_signs a b (inr p) (inr q) = rw (p, q)

-- For any two words `isLessOrEqual` is 1 if x ≤ y as signed integers and 0 if not, also where y - x
-- overflows.
pub is_less_or_equal_lem :
    (x y : ℕ)
    → IsWord x
    → IsWord y
    → is_less_or_equal x y ≡ (if ltb_ℤ (signed y) (signed x) then 0 else 1)
unfolding is_less_or_equal le_signs
is_less_or_equal_lem x y p q =
    let delta = add32 y (add32 (inv x) 1) in
    let shape = le_signs_flags x y delta in
    rw (sign_bit_lem x p, sign_bit_lem y q, sign_bit_lem delta (omega arith)) (shape ∙ ground arith)

-- `logicalNeg` of a word is 1 at 0 and 0 elsewhere, as `!` is.
pub logical_neg-eq-lnot : (x : ℕ) → IsWord x → logical_neg x ≡ lnot x
unfolding logical_neg
logical_neg-eq-lnot x p =
    let conv = add32 (inv x) 1 in
    rw (sign_bit_lem x p, sign_bit_lem conv (omega arith))
      (nonzero_signs (neg_flag x) (neg_flag conv) (neg_flag-cases x) (neg_flag-cases conv)
        ∙ ground arith)

-- `negate` of a word other than the least integer is the word of the negative of its integer.
pub signed-negate :
    (x : ℕ)
    → IsWord x
    → x ≢ 2 ^ 31
    → signed (negate x)
      ≡ (if x == 0 then pos 0 else if ltb x (2 ^ 31) then negsuc (x - 1) else pos (word_mod - x))
unfolding negate
signed-negate x p ne = ground arith
