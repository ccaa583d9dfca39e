-- ===== src/Memory/AmmPool.antt =====
-- src/memory/cache.rs, `AmmPool`: a constant-product pool. `none` is the panic of a division by
-- zero.
pub mod Curve
pub mod Swap
pub mod Narrow
pub mod Search
mod Tests
use the_ai_cowboys_6_shooter.Prelude.{
  ℕ, zero, suc, ◌+◌, ◌-◌, ◌/◌, ltb, leb, ◌==◌, if◌then◌else◌, Bool, true, false, Option, none, some,
  min, ◌>>=◌,
}
use the_ai_cowboys_6_shooter.Prelude.Words.{add_u128, sub_u128, mul_u128, div_u128, less_i128}

-- The 32 bytes of a pool's key are one number.
pub record AmmPool : Type 0 where
  pub reserve_x : ℕ
  pub reserve_y : ℕ
  pub fee_numerator : ℕ
  pub fee_denominator : ℕ
  pub pool_id : ℕ

pub swap_x_to_y : AmmPool → ℕ → Option ℕ
swap_x_to_y p amount_in = do
  fee ← div_u128 (mul_u128 amount_in p.fee_numerator) p.fee_denominator
  let amount_after_fee = sub_u128 amount_in fee
  let new_reserve_x = add_u128 p.reserve_x amount_after_fee
  let k = mul_u128 p.reserve_x p.reserve_y
  new_reserve_y ← div_u128 k new_reserve_x
  some (sub_u128 p.reserve_y new_reserve_y)

pub swap_y_to_x : AmmPool → ℕ → Option ℕ
swap_y_to_x p amount_in = do
  fee ← div_u128 (mul_u128 amount_in p.fee_numerator) p.fee_denominator
  let amount_after_fee = sub_u128 amount_in fee
  let new_reserve_y = add_u128 p.reserve_y amount_after_fee
  let k = mul_u128 p.reserve_x p.reserve_y
  new_reserve_x ← div_u128 k new_reserve_y
  some (sub_u128 p.reserve_x new_reserve_x)

-- The closure `profit_at`; its result is an `i128`.
pub profit_at : AmmPool → AmmPool → ℕ → Option ℕ
profit_at pool1 pool2 input = do
  out_b ← swap_x_to_y pool1 input
  out_a ← swap_y_to_x pool2 out_b
  some (sub_u128 out_a input)

-- The number of values in `lo..=hi`.
abbrev pub span : ℕ → ℕ → ℕ
span lo hi = hi + 1 - lo

module _ (pool1 pool2 : AmmPool) where
  -- The ternary search, with the rounds left: the range that remains.
  pub narrow : ℕ → ℕ → ℕ → Option (ℕ × ℕ)
  narrow zero lo hi = some (lo, hi)
  narrow (suc rounds) lo hi = elim (leb hi lo) [
    | true ↦ some (lo, hi)
    | false ↦ do
      let m1 = add_u128 lo (sub_u128 hi lo / 3)
      let m2 = sub_u128 hi (sub_u128 hi lo / 3)
      p1 ← profit_at pool1 pool2 m1
      p2 ← profit_at pool1 pool2 m2
      elim (less_i128 p1 p2) [
        | true ↦ narrow rounds (add_u128 m1 1) hi
        | false ↦ elim (m2 == 0) [ true ↦ some (lo, hi) | false ↦ narrow rounds lo (sub_u128 m2 1) ]
      ]
  ]

  -- The last loop, at `x` with the rounds left, over the best input and profit so far.
  pub converge : ℕ → ℕ → ℕ → ℕ → Option (ℕ × ℕ)
  converge zero x best_input best_profit = some (best_input, best_profit)
  converge (suc rounds) x best_input best_profit = do
    p ← profit_at pool1 pool2 x
    elim (less_i128 best_profit p) [
      | true ↦ converge rounds (x + 1) x p
      | false ↦ converge rounds (x + 1) best_input best_profit
    ]

  pub optimal_arb_input : ℕ → Option (ℕ × ℕ)
  optimal_arb_input max_input = do
    range ← narrow 60 1 max_input
    let lo = range.0
    let hi = range.1
    best ← converge (span lo (min hi (add_u128 lo 2))) lo 0 0
    some (best.0, (if less_i128 0 best.1 then best.1 else 0))
