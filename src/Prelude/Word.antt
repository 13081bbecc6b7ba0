-- ===== src/Prelude/Word.antt =====
-- 32-bit words. An `i32` is its bit pattern, a number below 2 ^ 32; the tests below read the sign.
use Prim.Native.Nat.{ℕ, ◌+◌, ◌-◌, ◌%◌, ◌^◌}
use mathlib.Core.Bool.{Bool, ◌||◌}
use gdiroh.Prelude.Tests.{leb, ltb, nat_beq, if◌then◌else◌}

abbrev pub word_size : ℕ
word_size = 2 ^ 32

-- i32::MIN, and the first pattern of a negative number
abbrev pub sign_bit : ℕ
sign_bit = 2 ^ 31

-- x <= 0
abbrev pub not_positive : ℕ → Bool
not_positive x = nat_beq x 0 || leb sign_bit x

-- -x, as it wraps
abbrev pub neg : ℕ → ℕ
neg x = (word_size - x) % word_size

-- x.wrapping_add(1)
abbrev pub wrapping_inc : ℕ → ℕ
wrapping_inc x = (x + 1) % word_size

-- x.wrapping_sub(y) on `u32`
abbrev pub wrapping_sub : ℕ → ℕ → ℕ
wrapping_sub x y = (x + word_size - y) % word_size

-- x.max(y) on `i32`, for a `y` that is not negative
abbrev pub signed_max : ℕ → ℕ → ℕ
signed_max x y = if leb sign_bit x then y else if ltb x y then y else x

-- x.max(y) on `u32`
abbrev pub unsigned_max : ℕ → ℕ → ℕ
unsigned_max x y = if ltb x y then y else x
