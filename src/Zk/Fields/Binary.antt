-- ===== src/Zk/Fields/Binary.antt =====
-- `binary_gcd` of src/zk_prover/fields.rs, on words. `none` is a loop that the fuel does not finish.
use Prim.Native.Nat.{bit_and, bit_or}
use the_ai_cowboys_6_shooter.Prelude.{
  ℕ, zero, suc, ◌+◌, ◌-◌, ◌*◌, ◌/◌, ◌%◌, ◌^◌, ltb, ◌==◌, if◌then◌else◌, true, false, Option, none,
  some,
}

-- `trailing_zeros()`, by the digits left: all of them for 0.
unfoldable pub zeros : ℕ → ℕ → ℕ
zeros zero n = 0
zeros (suc digits) n = elim (bit_and n 1 == 0) [ true ↦ suc (zeros digits (n / 2)) | false ↦ 0 ]

abbrev pub trailing_zeros : ℕ → ℕ
trailing_zeros n = zeros 64 n

-- The swap: the smaller number and the larger one.
unfoldable pub in_order : ℕ → ℕ → ℕ × ℕ
in_order a b = if ltb b a then (b, a) else (a, b)

-- The difference of the two in order, and its test; `rest` is the loop from there.
abbrev pub subtract : (ℕ → ℕ → Option ℕ) → ℕ → ℕ × ℕ → Option ℕ
subtract rest shift (low, high) = elim (high - low == 0) [
  | true ↦ some (low * 2 ^ shift % 2 ^ 64)
  | false ↦ rest low (high - low)
]

unfoldable pub gcd_loop : ℕ → ℕ → ℕ → ℕ → Option ℕ
gcd_loop zero shift a b = none
gcd_loop (suc fuel) shift a b =
    subtract (λ low rest. gcd_loop fuel shift low rest) shift
      (in_order a (b / 2 ^ trailing_zeros b))

-- The sum of the two numbers falls in each round.
unfoldable pub binary_gcd : ℕ → ℕ → Option ℕ
binary_gcd a b =
    let odd = a / 2 ^ trailing_zeros a in
    if a == 0
    then some b
    else (if b == 0 then some a else gcd_loop (odd + b) (trailing_zeros (bit_or a b)) odd b)
