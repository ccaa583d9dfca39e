-- ===== src/Prelude/Words.antt =====
-- Machine words as native numbers. A word of `w` bits is a number below `2 ^ w`; the release
-- profile of the crate leaves overflow checks off, so `+`, `-` and `*` wrap.
use Prim.Native.Nat.{ℕ, ◌+◌, ◌-◌, ◌*◌, ◌/◌, ◌%◌, ◌^◌}
use mathlib.Core.Bool.{Bool}
use mathlib.Core.Option.{Option, none, some}
use the_ai_cowboys_6_shooter.Prelude.Tests.{ltb, ◌==◌, if◌then◌else◌}

abbrev pub u64_mod : ℕ
u64_mod = 2 ^ 64

abbrev pub u128_mod : ℕ
u128_mod = 2 ^ 128

abbrev pub add_u64 : ℕ → ℕ → ℕ
add_u64 a b = (a + b) % 2 ^ 64

abbrev pub sub_u64 : ℕ → ℕ → ℕ
sub_u64 a b = (a + 2 ^ 64 - b) % 2 ^ 64

abbrev pub mul_u64 : ℕ → ℕ → ℕ
mul_u64 a b = a * b % 2 ^ 64

abbrev pub add_u128 : ℕ → ℕ → ℕ
add_u128 a b = (a + b) % 2 ^ 128

abbrev pub sub_u128 : ℕ → ℕ → ℕ
sub_u128 a b = (a + 2 ^ 128 - b) % 2 ^ 128

abbrev pub mul_u128 : ℕ → ℕ → ℕ
mul_u128 a b = a * b % 2 ^ 128

-- `/` panics on a zero divisor in every profile.
abbrev pub div_u128 : ℕ → ℕ → Option ℕ
div_u128 a b = if b == 0 then none else some (a / b)

-- An `i128` is its bit pattern, below `2 ^ 128`; the order of the numbers that the patterns stand
-- for is the order of the patterns shifted by half the range.
abbrev pub less_i128 : ℕ → ℕ → Bool
less_i128 a b = ltb ((a + 2 ^ 127) % 2 ^ 128) ((b + 2 ^ 127) % 2 ^ 128)
