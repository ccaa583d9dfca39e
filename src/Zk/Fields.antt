-- ===== src/Zk/Fields.antt =====
-- src/zk_prover/fields.rs: powers of words modulo a word. `none` is the panic of a division by
-- zero, or a loop that the fuel does not finish.
pub mod Power
pub mod Integers
pub mod Coefficients
pub mod Inverse
pub mod Binary
pub mod Divisors
pub mod Zeros
pub mod Gcd
mod Tests
use Prim.Native.Nat.{bit_and}
use the_ai_cowboys_6_shooter.Prelude.{
  ℕ, zero, suc, ◌+◌, ◌-◌, ◌*◌, ◌/◌, ◌%◌, ◌^◌, ltb, ◌==◌, if◌then◌else◌, true, false, Option, none,
  some, ◌>>=◌,
}
use the_ai_cowboys_6_shooter.Prelude.Words.{sub_u64, add_u128, sub_u128, mul_u128, div_u128}

-- The `i8` of `legendre_symbol`.
pub data Symbol : Type 0 where
  residue zero_symbol non_residue : Symbol

pub record BarrettReducer : Type 0 where
  pub modulus : ℕ
  pub reciprocal : ℕ
  pub k : ℕ

-- `64 - leading_zeros()`, by the rounds left.
pub bit_length : ℕ → ℕ → ℕ
bit_length zero n = 0
bit_length (suc rounds) zero = 0
bit_length (suc rounds) (suc n) = bit_length rounds (suc n / 2) + 1

-- A shift of a `u128` takes its count modulo 128 when overflow checks are off.
pub new : ℕ → Option BarrettReducer
new modulus =
    let k = bit_length 64 modulus in
    div_u128 (sub_u128 (add_u128 (2 ^ (2 * k % 128)) modulus) 1) modulus >>= λ reciprocal.
    some (record { modulus = modulus; reciprocal = reciprocal; k = k })

pub reduce : BarrettReducer → ℕ → Option ℕ
reduce r a = div_u128 a r.modulus >>= λ _. some (a % r.modulus % 2 ^ 64)

-- The loop of `mod_pow`, with the rounds left; a word is shifted to zero within 64.
pub pow_loop : BarrettReducer → ℕ → ℕ → ℕ → ℕ → Option ℕ
pow_loop reducer zero base exp result = elim (exp == 0) [ true ↦ some result | false ↦ none ]
pow_loop reducer (suc rounds) base exp result = elim (exp == 0) [
  | true ↦ some result
  | false ↦ do
    result' ← (if bit_and exp 1 == 1 then reduce reducer (mul_u128 result base) else some result)
    base' ← reduce reducer (mul_u128 base base)
    pow_loop reducer rounds base' (exp / 2) result'
]

pub mod_pow : ℕ → ℕ → ℕ → Option ℕ
mod_pow base exp modulus = do reducer ← new modulus; pow_loop reducer 64 (base % modulus) exp 1

pub legendre_symbol : ℕ → ℕ → Option Symbol
legendre_symbol a p = mod_pow a (sub_u64 p 1 / 2) p >>= λ r.
    some (if r == 0 then zero_symbol else (if r == 1 then residue else non_residue))
