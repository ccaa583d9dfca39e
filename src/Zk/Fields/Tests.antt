-- ===== src/Zk/Fields/Tests.antt =====
-- The numbers of the repository's tests, and the theorem of the sibling module at one of them.
use the_ai_cowboys_6_shooter.Zk.Fields.Integers.{mod_inverse, extended_gcd, gcd_calls}
use the_ai_cowboys_6_shooter.Zk.Fields.Inverse.{mod_inverse_lem}
use the_ai_cowboys_6_shooter.Zk.Fields.Binary.{binary_gcd, gcd_loop, in_order, zeros}
use the_ai_cowboys_6_shooter.Zk.Fields.Divisors.{IsGcd}
use the_ai_cowboys_6_shooter.Zk.Fields.Gcd.{binary_gcd_lem}
use the_ai_cowboys_6_shooter.Prelude.{ℕ, ◌<◌, ◌*◌, ◌≢◌, ◌⊎◌, ◌%◌, ◌^◌, ◌≡◌, refl, arith, some, none}
use the_ai_cowboys_6_shooter.Zk.Fields.{
  bit_length, new, reduce, pow_loop, mod_pow, legendre_symbol, residue, zero_symbol, non_residue,
}
use the_ai_cowboys_6_shooter.Zk.Fields.Power.{mod_pow_lem}

power : (mod_pow 2 10 1000 ≡ some 24) × (mod_pow 3 0 7 ≡ some 1)
unfolding mod_pow new bit_length pow_loop reduce
power = (refl, refl)

-- Modulo 1 the power zero is 1, which is no remainder; modulo 0 the code panics.
power_edges : (mod_pow 5 0 1 ≡ some 1) × (mod_pow 5 1 0 ≡ none)
unfolding mod_pow new bit_length pow_loop reduce
power_edges = (refl, refl)

symbols :
    (legendre_symbol 2 7 ≡ some residue)
    × (legendre_symbol 3 7 ≡ some non_residue)
    × (legendre_symbol 14 7 ≡ some zero_symbol)
unfolding legendre_symbol mod_pow new bit_length pow_loop reduce
symbols = (refl, refl, refl)

mod_pow_lem_example : mod_pow 5 117 1_000_000_007 ≡ some (5 ^ 117 % 1_000_000_007)
mod_pow_lem_example = mod_pow_lem 5 117 1_000_000_007 (omega arith) (omega arith) (omega arith)

inverses :
    (mod_inverse 3 7 ≡ some (some 5)) × (mod_inverse 6 9 ≡ some none) × (mod_inverse 1 0 ≡ none)
unfolding mod_inverse extended_gcd gcd_calls
inverses = (refl, refl, refl)

mod_inverse_lem_example :
    ((i : ℕ) × (mod_inverse 3 1_000_000_007 ≡ some (some i))
      × (i < 1_000_000_007)
      × (3 * i % 1_000_000_007 ≡ 1 % 1_000_000_007))
    ⊎ ((mod_inverse 3 1_000_000_007 ≡ some none)
        × ((i : ℕ) → 3 * i % 1_000_000_007 ≢ 1 % 1_000_000_007))
mod_inverse_lem_example = mod_inverse_lem 3 1_000_000_007 (omega arith) (omega arith) (omega arith)

divisors : (binary_gcd 48 180 ≡ some 12) × (binary_gcd 0 7 ≡ some 7) × (binary_gcd 17 64 ≡ some 1)
unfolding binary_gcd gcd_loop in_order zeros
divisors = (refl, refl, refl)

binary_gcd_lem_example : (g : ℕ) × (binary_gcd 48 180 ≡ some g) × IsGcd g 48 180
binary_gcd_lem_example = binary_gcd_lem 48 180 (omega arith) (omega arith)
