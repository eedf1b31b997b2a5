-- ===== src/Prelude/Words.antt =====
-- 32-bit words. A C `int` is its bit pattern, a number below 2 ^ 32; signed comparison goes through
-- the pattern shifted by 2 ^ 31. Addition wraps round for `int` too, as the targets compute it (C
-- leaves signed overflow undefined).
use Prim.Native.Nat.{ℕ, ◌+◌, ◌-◌, ◌%◌, ◌^◌}
use mathlib.Core.Bool.{Bool}
use balloon_suchai_flight_so.Prelude.Tests.{ltb, leb}

abbrev pub u32_mod : ℕ
u32_mod = 2 ^ 32

abbrev pub int_max : ℕ
int_max = 2 ^ 31 - 1

abbrev pub int_min : ℕ
int_min = 2 ^ 31

abbrev pub minus_one : ℕ
minus_one = 2 ^ 32 - 1

abbrev pub add_32 : ℕ → ℕ → ℕ
add_32 a b = (a + b) % u32_mod

abbrev pub sub_32 : ℕ → ℕ → ℕ
sub_32 a b = (a + u32_mod - b) % u32_mod

abbrev pub bias : ℕ → ℕ
bias a = (a + 2 ^ 31) % u32_mod

-- `a < b` and `a <= b` on `int`.
abbrev pub slt : ℕ → ℕ → Bool
slt a b = ltb (bias a) (bias b)

abbrev pub sle : ℕ → ℕ → Bool
sle a b = leb (bias a) (bias b)
