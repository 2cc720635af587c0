-- ===== src/Datalab/Tests.antt =====
-- The theorems on datalab_code/bits.c at concrete words.
use csapp_lab_code.Base.{ℕ, ◌-◌, ◌^◌, ◌≤◌, ◌<◌, ◌≡◌, arith}
use csapp_lab_code.Datalab.{is_less_or_equal, how_many_bits, float_scale2, float_float2int}
use csapp_lab_code.Datalab.Compare.{is_less_or_equal_lem}
use csapp_lab_code.Datalab.Width.{how_many_bits_lem}
use csapp_lab_code.Datalab.Float.{
  pack, IsFloat, magnitude, float_scale2-magnitude, float_scale2-overflow,
}
use csapp_lab_code.Datalab.Float.ToInt.{float_float2int-truncates}

is_less_or_equal_lem_example : is_less_or_equal 0x80000000 0x7fffffff ≡ 1
is_less_or_equal_lem_example =
    is_less_or_equal_lem 0x80000000 0x7fffffff (omega arith) (omega arith)

how_many_bits_lem_example :
    (12 < 2 ^ (how_many_bits 12 - 1)) × (2 ^ (how_many_bits 12 - 1) ≤ 24) × (0 < how_many_bits 12)
how_many_bits_lem_example = how_many_bits_lem 12 (omega arith)

one_IsFloat : IsFloat 0 127 0
one_IsFloat = (omega arith, omega arith, omega arith)

float_scale2-magnitude_example :
    (e' m' : ℕ) × (float_scale2 (pack 0 127 0) ≡ pack 0 e' m')
    × IsFloat 0 e' m'
    × (e' < 255)
    × (magnitude e' m' ≡ 2 ^ 150)
float_scale2-magnitude_example = float_scale2-magnitude 0 127 0 one_IsFloat (omega arith)

float_scale2-overflow_example : float_scale2 0x7f000001 ≡ 0x7f800001
float_scale2-overflow_example = float_scale2-overflow 0 1 (omega arith, omega arith, omega arith)

float_float2int-truncates_example : float_float2int (pack 1 128 0x200000) ≡ 0xfffffffe
float_float2int-truncates_example =
    float_float2int-truncates 1 128 0x200000 (omega arith, omega arith, omega arith) (omega arith)
