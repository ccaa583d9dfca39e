-- ===== src/Mev/StateShadow/Queries.antt =====
-- Lookups in the columns and the fee-adjusted rates.
use the_ai_cowboys_6_shooter.Prelude.{
  ℕ, zero, suc, ◌+◌, ◌%◌, ◌^◌, ltb, ◌==◌, ◌||◌, ◌&&◌, if◌then◌else◌, Bool, true, false, Option,
  none, some, ◌>>=◌, List, [], ◌∷◌,
}
use the_ai_cowboys_6_shooter.Prelude.Words.{mul_u128, div_u128, sub_u64}
use the_ai_cowboys_6_shooter.Mev.StateShadow.{StateShadow, max_pools, price_scale}

-- The loop of `find_pool` from `i` on; `some none` is `None`.
unfoldable pub find_from : StateShadow → ℕ → ℕ → ℕ → Option (Option ℕ)
find_from s key zero i = some none
find_from s key (suc rounds) i = elim (ltb i max_pools) [
  | true ↦ elim (s.pool_keys i == key) [
    | true ↦ some (some i)
    | false ↦ find_from s key rounds (i + 1)
  ]
  | false ↦ none
]

unfoldable pub find_pool : StateShadow → ℕ → Option (Option ℕ)
find_pool s key = find_from s key s.pool_count 0

abbrev pub trades : StateShadow → ℕ → ℕ → ℕ → Bool
trades s token_a token_b i =
    (s.token_x_id i == token_a && s.token_y_id i == token_b)
    || (s.token_x_id i == token_b && s.token_y_id i == token_a)

-- The loop of `find_pools_for_pair` from `i` on.
unfoldable pub pools_from : StateShadow → ℕ → ℕ → ℕ → ℕ → Option (List ℕ)
pools_from s token_a token_b zero i = some []
pools_from s token_a token_b (suc rounds) i = elim (ltb i max_pools) [
  | true ↦ do
    rest ← pools_from s token_a token_b rounds (i + 1)
    some (if s.active i == 0 then rest else (if trades s token_a token_b i then i ∷ rest else rest))
  | false ↦ none
]

unfoldable pub find_pools_for_pair : StateShadow → ℕ → ℕ → Option (List ℕ)
find_pools_for_pair s token_a token_b = pools_from s token_a token_b s.pool_count 0

-- The fee complement is a difference of `u64`s.
unfoldable pub effective_rate_x_to_y : StateShadow → ℕ → Option ℕ
effective_rate_x_to_y s idx =
    if ltb idx max_pools
    then (if s.spec_reserve_x idx == 0
        then some 0
        else (div_u128
              (mul_u128 (mul_u128 (s.spec_reserve_y idx) price_scale)
                (sub_u64 (s.fee_den idx) (s.fee_num idx)))
              (mul_u128 (s.spec_reserve_x idx) (s.fee_den idx))
            >>= λ rate. some (rate % 2 ^ 64)))
    else none

unfoldable pub effective_rate_y_to_x : StateShadow → ℕ → Option ℕ
effective_rate_y_to_x s idx =
    if ltb idx max_pools
    then (if s.spec_reserve_y idx == 0
        then some 0
        else (div_u128
              (mul_u128 (mul_u128 (s.spec_reserve_x idx) price_scale)
                (sub_u64 (s.fee_den idx) (s.fee_num idx)))
              (mul_u128 (s.spec_reserve_y idx) (s.fee_den idx))
            >>= λ rate. some (rate % 2 ^ 64)))
    else none
