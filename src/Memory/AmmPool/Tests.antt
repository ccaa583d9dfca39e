-- ===== src/Memory/AmmPool/Tests.antt =====
-- The pools of the repository's tests, and the theorems of the sibling modules at them.
use the_ai_cowboys_6_shooter.Prelude.{ℕ, ◌≤◌, ◌≡◌, refl, arith, some, none}
use the_ai_cowboys_6_shooter.Memory.AmmPool.{
  AmmPool, swap_x_to_y, swap_y_to_x, profit_at, narrow, converge, optimal_arb_input,
}
use the_ai_cowboys_6_shooter.Memory.AmmPool.Curve.{IsCeil}
use the_ai_cowboys_6_shooter.Memory.AmmPool.Swap.{IsPool, after_fee, swap-IsCeil}
use the_ai_cowboys_6_shooter.Memory.AmmPool.Search.{IsReal, optimal_arb_input-IsReal}

abbrev even : AmmPool
even = record {
  reserve_x = 1_000_000;
  reserve_y = 1_000_000;
  fee_numerator = 3;
  fee_denominator = 1000;
  pool_id = 0;
}

abbrev cheap : AmmPool
cheap = record even { reserve_y = 2_000_000; pool_id = 1 }

abbrev dear : AmmPool
dear = record even { reserve_x = 2_000_000; pool_id = 2 }

swap-even : swap_x_to_y even 10_000 ≡ some 9872
unfolding swap_x_to_y
swap-even = refl

-- A pool with no fee denominator panics.
swap_panics : swap_x_to_y (record even { fee_denominator = 0 }) 10_000 ≡ none
unfolding swap_x_to_y
swap_panics = refl

-- One unit buys one unit, which the product of the reserves does not pay for: 11 * 9 < 10 * 10.
swap_rounds_up : swap_x_to_y (record even { reserve_x = 10; reserve_y = 10 }) 1 ≡ some 1
unfolding swap_x_to_y
swap_rounds_up = refl

even-IsPool : IsPool even
even-IsPool = omega arith

cheap-IsPool : IsPool cheap
cheap-IsPool = omega arith

dear-IsPool : IsPool dear
dear-IsPool = omega arith

search-cheap : optimal_arb_input cheap dear 100_000 ≡ some (99_999, 206_206)
unfolding optimal_arb_input narrow converge profit_at swap_x_to_y swap_y_to_x
search-cheap = refl

swap-IsCeil_example :
    ((out : ℕ) × (swap_x_to_y even 10_000 ≡ some out)
      × (out ≤ 1_000_000)
      × IsCeil 1_000_000 1_000_000 (after_fee 3 1000 10_000) out)
    × ((out : ℕ) × (swap_y_to_x even 10_000 ≡ some out)
        × (out ≤ 1_000_000)
        × IsCeil 1_000_000 1_000_000 (after_fee 3 1000 10_000) out)
swap-IsCeil_example = swap-IsCeil 10_000 even-IsPool (omega arith)

optimal_arb_input-IsReal_example :
    (input : ℕ) × (profit : ℕ) × (optimal_arb_input cheap dear 100_000 ≡ some (input, profit))
    × IsReal cheap dear 100_000 input profit
optimal_arb_input-IsReal_example =
    optimal_arb_input-IsReal cheap-IsPool dear-IsPool 100_000 (omega arith)
