-- ===== src/Datalab.antt =====
-- The puzzles of datalab_code/bits.c, on 32-bit words. Arithmetic of `int` wraps, and `>>` copies
-- the sign, as the rules at the head of that file allow to assume.
pub mod Bitwise
pub mod Compare
pub mod Width
pub mod Float
pub mod Tests
use Prim.Native.Nat.{bit_and, bit_or, bit_xor}
use csapp_lab_code.Base.{ℕ, ◌+◌, ◌-◌, ltb, leb, ◌==◌, ◌||◌, if◌then◌else◌}
use csapp_lab_code.Base.Int.{ℤ, pos, negsuc}
use csapp_lab_code.Words.{word_mod, inv, lnot, add32, shl, shr, sar}

unfoldable pub bit_xor_puzzle : ℕ → ℕ → ℕ
bit_xor_puzzle x y =
    let one_bits = bit_and x y in
    let zero_bits = bit_and (inv x) (inv y) in
    let rev_one_bits = inv one_bits in
    let rev_zero_bits = inv zero_bits in bit_and rev_one_bits rev_zero_bits

unfoldable pub tmin : ℕ
tmin = shl 1 31

unfoldable pub is_tmax : ℕ → ℕ
is_tmax x =
    let flag = add32 (add32 x x) 1 in if x == 0xffffffff then 0 else lnot (bit_xor flag (inv 0))

unfoldable pub all_odd_bits : ℕ → ℕ
all_odd_bits x =
    let mask_int = bit_or (bit_or (bit_or 0xAA (shl 0xAA 8)) (shl 0xAA 16)) (shl 0xAA 24) in
    let even_num_ignored = bit_and mask_int x in lnot (bit_xor mask_int even_num_ignored)

unfoldable pub negate : ℕ → ℕ
negate x = add32 (inv x) 1

unfoldable pub is_ascii_digit : ℕ → ℕ
is_ascii_digit x =
    let flag3 = bit_xor 0x3 (sar x 4) in
    let masked_a = bit_and 0xA x in
    let masked_c = bit_and 0xC x in
    let flag_a = lnot (bit_xor masked_a 0xA) in
    let flag_c = lnot (bit_xor masked_c 0xC) in lnot (bit_or (bit_or flag3 flag_a) flag_c)

unfoldable pub conditional : ℕ → ℕ → ℕ → ℕ
conditional x y z =
    let boolean = lnot (lnot x) in
    let mask_false = add32 (inv 0) boolean in
    let mask_true = add32 (inv 0) (lnot boolean) in
    add32 (bit_and mask_true y) (bit_and mask_false z)

-- `x >> 31 & 1`
abbrev pub sign_bit : ℕ → ℕ
sign_bit x = bit_and (sar x 31) 1

unfoldable pub is_less_or_equal : ℕ → ℕ → ℕ
is_less_or_equal x y =
    let is_neg_x = sign_bit x in
    let is_neg_y = sign_bit y in
    let must_be_less = bit_and is_neg_x (lnot is_neg_y) in
    let must_be_more = bit_and (lnot is_neg_x) is_neg_y in
    let delta = add32 y (add32 (inv x) 1) in
    let is_neg_delta = sign_bit delta in
    let less_or_equal = lnot is_neg_delta in
    bit_or must_be_less (bit_and (lnot must_be_more) less_or_equal)

unfoldable pub logical_neg : ℕ → ℕ
logical_neg x =
    let is_neg_x = sign_bit x in
    let conv_x = add32 (inv x) 1 in
    let is_neg_conv_x = sign_bit conv_x in
    let is_not_zero = bit_or is_neg_x is_neg_conv_x in bit_xor is_not_zero 1

-- `!!((x >> k) ^ 0) << log2 k`: k, or 0 if nothing is left of x above bit k
unfoldable pub need_rs : ℕ → ℕ → ℕ → ℕ
need_rs k log x = shl (lnot (lnot (bit_xor (sar x k) 0))) log

-- `x >>= n`, where n may be 0
unfoldable pub sar_by : ℕ → ℕ → ℕ
sar_by x n = if n == 0 then x else sar x n

-- `x` if its sign is 0, else `~x`
unfoldable pub fold_sign : ℕ → ℕ
fold_sign x = let ls31 = sar x 31 in add32 (bit_and ls31 (inv x)) (bit_and (inv ls31) x)

unfoldable pub count_bits : ℕ → ℕ
count_bits x0 =
    let need_rs16 = need_rs 16 4 x0 in
    let x1 = sar_by x0 need_rs16 in
    let need_rs8 = need_rs 8 3 x1 in
    let x2 = sar_by x1 need_rs8 in
    let need_rs4 = need_rs 4 2 x2 in
    let x3 = sar_by x2 need_rs4 in
    let need_rs2 = need_rs 2 1 x3 in
    let x4 = sar_by x3 need_rs2 in
    let need_rs1 = need_rs 1 0 x4 in
    let x5 = sar_by x4 need_rs1 in need_rs16 + need_rs8 + need_rs4 + need_rs2 + need_rs1 + x5

unfoldable pub how_many_bits : ℕ → ℕ
unfolding fold_sign count_bits need_rs sar_by
how_many_bits x = count_bits (fold_sign x) + 1

abbrev pub expmask : ℕ
expmask = 0x7f800000

abbrev pub mmask : ℕ
mmask = 0x007fffff

unfoldable pub float_scale2 : ℕ → ℕ
float_scale2 uf =
    let exp = shl (bit_and uf expmask) 1 in
    let m = shl (bit_and uf mmask) 1 in
    if uf == 0 || uf == 0x80000000
    then uf
    else if exp == 0xff000000
    then uf
    else if exp == 0
    then bit_or (bit_and uf (inv mmask)) m
    else bit_or (bit_and uf (inv expmask)) (shr (add32 exp 0x01000000) 1)

-- `exp` is the exponent field less 127 + 23, an `int`.
abbrev pub float_val : ℤ → ℕ → ℕ
float_val (pos e) m = if leb 8 e then 0x80000000 else shl m e
float_val (negsuc e) m = if leb (e + 1) 23 then shr m (e + 1) else 0

unfoldable pub float_float2int : ℕ → ℕ
float_float2int uf =
    let field = shr (bit_and uf expmask) 23 in
    let frac = bit_and uf mmask in
    let m = if field == 0 then frac else bit_or frac 0x00800000 in
    let exp : ℤ = if leb 150 field then pos (field - 150) else negsuc (150 - field - 1) in
    let val = float_val exp m in
    if field == 0xff
    then 0x80000000
    else if bit_and (shr uf 31) 1 == 0
    then val
    else add32 (inv val) 1

unfoldable pub float_power2 : ℤ → ℕ
float_power2 (pos x) = if ltb 127 x then shl 255 23 else shl (x + 127) 23
float_power2 (negsuc x) = if ltb 126 (x + 1) then shl 0 23 else shl (127 - (x + 1)) 23
