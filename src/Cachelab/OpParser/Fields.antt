-- ===== src/Cachelab/OpParser/Fields.antt =====
-- The fields that `parseOp` of cachelab_code/opparser.c cuts out of an address.
use Prim.Native.Nat.{bit_and, bit_or}
use native.Mathlib.Nat.{
  one-le-pow, div-div-eq-div-mul, mul-div_cancel, mod-add-div', mod-lt, mul-mod_left,
  pow-le-pow_right,
}
use csapp_lab_code.Base.{
  ℕ, ◌+◌, ◌-◌, ◌*◌, ◌/◌, ◌%◌, ◌^◌, ◌≤◌, ◌<◌, ◌≡◌, refl, sym, ap, ◌∙◌, arith, some, zero, suc,
}
use csapp_lab_code.Words.Digits.{and_split, zero-or}
use csapp_lab_code.Words.Fields.{and_mask, and_field, or_low, pow_add}
use csapp_lab_code.Cachelab.OpParser.{OpInfo, Scanned, new_opparser, parse_op}

two_pos : (n : ℕ) → 0 < 2 ^ n
two_pos n = one-le-pow n 2 (omega arith)

nines : (p q : ℕ) → 0 < p → 0 < q → (p - 1) * q + (q - 1) ≡ q * p - 1
nines zero q h g = absurd (omega arith)
nines (suc p) q h g =
    let less : suc p - 1 ≡ p = omega arith in
    let all : q * suc p ≡ p * q + q = grind arith in rw (less, all) (omega arith)

masks : (s b : ℕ) → bit_or (2 ^ b - 1) ((2 ^ s - 1) * 2 ^ b) ≡ 2 ^ (b + s) - 1
masks s b =
    let here : 0 * 2 ^ b + (2 ^ b - 1) ≡ 2 ^ b - 1 = omega arith in
    let low =
      rw (here, zero-or (2 ^ s - 1)) at
        (or_low b 0 (2 ^ s - 1) (2 ^ b - 1) (omega (arith, two_pos b))) in
    rw low (rw (pow_add b s) (nines (2 ^ s) (2 ^ b) (two_pos s) (two_pos b)))

widen : (r c p q : ℕ) → (r + c * p) * q ≡ r * q + c * (q * p)
widen r c p q = grind arith

-- `a` modulo a product, by its digits
digits : (a q p : ℕ) → a % (q * p) ≡ a / q % p * q + a % q
digits a q p =
    let whole = mod-add-div' a (q * p) in
    let outer = rw (sym (div-div-eq-div-mul a q p)) at whole in
    let lower = mod-add-div' a q in
    let upper = mod-add-div' (a / q) p in
    let spread : a / q * q ≡ a / q % p * q + a / q / p * (q * p) =
      ap (λ (t : ℕ). t * q) (sym upper) ∙ widen (a / q % p) (a / q / p) p q in
    omega (arith, outer, lower, spread)

-- The fields that a parser for `s` set bits and `b` offset bits, `b + s` below 31, cuts out of a
-- 64-bit address are the digits of the address: the offset is below 2 ^ b, the set's number below
-- the number of sets, the tag a multiple of 2 ^ (b + s), and with their weights they add up to the
-- address.
pub parse_op-fields :
    (s b : ℕ) (t : Scanned)
    → b + s < 31
    → t.address < 2 ^ 64
    → (info : OpInfo) × (parse_op (new_opparser s b) (some t) ≡ some info)
      × (info.tag + info.set_index * 2 ^ b + info.block_offset ≡ t.address)
      × (info.block_offset < 2 ^ b)
      × (info.set_index < (new_opparser s b).set_cnt)
      × (info.tag % 2 ^ (b + s) ≡ 0)
unfolding new_opparser parse_op
parse_op-fields s b t h lt =
    let a = t.address in
    let offset = and_mask b 64 a lt in
    let set = and_field b s 64 a lt in
    let cut : a / 2 ^ b % 2 ^ s * 2 ^ b / 2 ^ b ≡ a / 2 ^ b % 2 ^ s =
      mul-div_cancel (a / 2 ^ b % 2 ^ s) (two_pos b) in
    let index = ap (λ (x : ℕ). x / 2 ^ b) set ∙ cut in
    let small : 2 ^ (b + s) ≤ 2 ^ 64 =
      pow-le-pow_right (omega arith) {i = b + s} {j = 64} (omega arith) in
    let whole = and_split 64 a (2 ^ (b + s) - 1) lt (omega (arith, two_pos (b + s), small)) in
    let both = and_mask (b + s) 64 a lt in
    let sum : a % 2 ^ (b + s) ≡ a / 2 ^ b % 2 ^ s * 2 ^ b + a % 2 ^ b =
      rw (pow_add b s) (digits a (2 ^ b) (2 ^ s)) in
    let tag : bit_and a (2 ^ 64 - 1 - (2 ^ (b + s) - 1)) ≡ a / 2 ^ (b + s) * 2 ^ (b + s) =
      omega (arith, whole, both, mod-add-div' a (2 ^ (b + s))) in
    (
      _,
      refl,
      rw (masks s b, index, offset) (omega (arith, whole, both, sum)),
      rw offset (mod-lt a (two_pos b)),
      rw index (mod-lt (a / 2 ^ b) (two_pos s)),
      rw (masks s b, tag) (mul-mod_left (a / 2 ^ (b + s)) (2 ^ (b + s))),
    )
