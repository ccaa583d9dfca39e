-- ===== src/Zk/Fields/Integers.antt =====
-- src/zk_prover/fields.rs: `extended_gcd` and `mod_inverse`. The arguments of `extended_gcd` are the
-- words that `mod_inverse` gives it, never negative; a coefficient is the bit pattern of an `i128`.
use the_ai_cowboys_6_shooter.Prelude.{
  ℕ, zero, suc, ◌+◌, ◌-◌, ◌/◌, ◌%◌, ◌^◌, ltb, ◌==◌, if◌then◌else◌, true, false, Option, none, some,
  ◌>>=◌,
}
use the_ai_cowboys_6_shooter.Prelude.Words.{sub_u128, mul_u128}

-- A divisor and the two coefficients that give it.
pub record Bezout : Type 0 where
  pub g : ℕ
  pub x : ℕ
  pub y : ℕ

-- The recursion, with the calls left.
unfoldable pub gcd_calls : ℕ → ℕ → ℕ → Option Bezout
gcd_calls zero a b = none
gcd_calls (suc fuel) a b = elim (a == 0) [
  | true ↦ some (record { g = b; x = 0; y = 1 })
  | false ↦ gcd_calls fuel (b % a) a >>= λ r.
      some (record { g = r.g; x = sub_u128 r.y (mul_u128 (b / a) r.x); y = r.x })
]

-- The first argument falls in each call.
unfoldable pub extended_gcd : ℕ → ℕ → Option Bezout
extended_gcd a b = gcd_calls (a + 1) a b

-- `((x % m + m) % m) as u64` on `i128`, where the remainder has the sign of `x`.
abbrev pub signed_mod : ℕ → ℕ → ℕ
signed_mod x m = (if ltb x (2 ^ 127) then (x % m + m) % m else (m - (2 ^ 128 - x) % m) % m) % 2 ^ 64

-- The outer `none` is the panic of a remainder by zero.
unfoldable pub mod_inverse : ℕ → ℕ → Option (Option ℕ)
mod_inverse a modulus = extended_gcd a modulus >>= λ r.
    (if r.g == 1
      then (if modulus == 0 then none else some (some (signed_mod r.x modulus)))
      else some none)
