-- ===== src/Common/Words.antt =====
-- Machine integers as bit patterns: an `int` is a number below 2 ^ 32, read as two's complement.
use Prim.Native.Nat.{ℕ, ◌+◌, ◌-◌, ◌%◌}
use mathlib.Core.Bool.{Bool}
use mtrdma_artifact.Common.Tests.{leb, ltb}

abbrev pub u32_mod : ℕ
u32_mod = 4294967296

abbrev pub u64_mod : ℕ
u64_mod = 18446744073709551616

abbrev pub add32 : ℕ → ℕ → ℕ
add32 a b = (a + b) % u32_mod

abbrev pub sub32 : ℕ → ℕ → ℕ
sub32 a b = (a + u32_mod - b) % u32_mod

abbrev pub add64 : ℕ → ℕ → ℕ
add64 a b = (a + b) % u64_mod

abbrev pub sub64 : ℕ → ℕ → ℕ
sub64 a b = (a + u64_mod - b) % u64_mod

-- `(int)w < 0`
abbrev pub is_negative : ℕ → Bool
is_negative w = leb 2147483648 w

-- `(int)a > (int)b`
abbrev pub int_gt : ℕ → ℕ → Bool
int_gt a b = ltb ((b + 2147483648) % u32_mod) ((a + 2147483648) % u32_mod)
