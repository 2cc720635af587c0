-- ===== src/Words.antt =====
-- 32-bit words as natural numbers below 2 ^ 32, with the operators of C on `int` and `unsigned`:
-- two's complement, wrap-around, and the arithmetic right shift that the lab's rules grant.
pub mod Digits
pub mod Fields
use Prim.Native.Nat.{bit_and, bit_or, bit_xor}
use csapp_lab_code.Base.{ℕ, ◌+◌, ◌-◌, ◌*◌, ◌/◌, ◌%◌, ◌^◌, ◌<◌, Bool, ltb, ◌==◌, if◌then◌else◌}
use csapp_lab_code.Base.Int.{ℤ, pos, negsuc}

abbrev pub word_mod : ℕ
word_mod = 2 ^ 32

abbrev pub IsWord : ℕ → Type 0
IsWord x = x < word_mod

-- `~x`
abbrev pub inv : ℕ → ℕ
inv x = word_mod - 1 - x

-- `!x`
abbrev pub lnot : ℕ → ℕ
lnot x = if x == 0 then 1 else 0

abbrev pub add32 : ℕ → ℕ → ℕ
add32 x y = (x + y) % word_mod

abbrev pub shl : ℕ → ℕ → ℕ
shl x k = x * 2 ^ k % word_mod

-- `x >> k` on `unsigned`
abbrev pub shr : ℕ → ℕ → ℕ
shr x k = x / 2 ^ k

-- `x >> k` on `int`, for 0 < k: copies of the sign come in at the top
abbrev pub sar : ℕ → ℕ → ℕ
sar x k = if ltb x (2 ^ 31) then x / 2 ^ k else x / 2 ^ k + (word_mod - 2 ^ (32 - k))

-- the integer that a bit pattern stands for
abbrev pub signed : ℕ → ℤ
signed x = if ltb x (2 ^ 31) then pos x else negsuc (word_mod - x - 1)
