-- ===== src/Base/Words.antt =====
-- Go's uint64 and int64 as bit patterns below 2 ^ 64; an int64 is read in two's complement.
use Prim.Native.Nat.{ℕ, ◌+◌, ◌-◌, ◌/◌, ◌%◌, ◌^◌}
use mathlib.Core.Bool.{Bool}
use devops_platform.Base.Tests.{ltb, leb, if◌then◌else◌}
use devops_platform.Base.Int.{ℤ, pos, negsuc}

abbrev pub u64 : ℕ
u64 = 2 ^ 64

abbrev pub add64 : ℕ → ℕ → ℕ
add64 a b = (a + b) % u64

abbrev pub sub64 : ℕ → ℕ → ℕ
sub64 a b = (a + u64 - b) % u64

-- a <= b of int64: the order of the patterns with the sign bit flipped.
abbrev pub le_int64 : ℕ → ℕ → Bool
le_int64 a b = leb ((a + 2 ^ 63) % u64) ((b + 2 ^ 63) % u64)

-- a / k of int64 for a positive k, which rounds towards zero.
abbrev pub div_int64 : ℕ → ℕ → ℕ
div_int64 a k = if ltb a (2 ^ 63) then a / k else (u64 - (u64 - a) / k) % u64

-- The int64 that a pattern is.
abbrev pub signed : ℕ → ℤ
signed n = if ltb n (2 ^ 63) then pos n else negsuc (u64 - 1 - n)
