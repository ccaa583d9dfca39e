-- ===== src/Memory/AmmPool/Search.antt =====
-- `optimal_arb_input` against the two simulated swaps that it reports on.
use the_ai_cowboys_6_shooter.Prelude.{
  ℕ, zero, suc, ◌+◌, ◌^◌, ◌≤◌, ◌<◌, ◌≡◌, refl, arith, true, if◌then◌else◌, some, ◌>>=◌, ◌⊎◌, inl,
  inr, Bool-cases, min, ◌∙◌, ap,
}
use the_ai_cowboys_6_shooter.Prelude.Words.{add_u128, sub_u128, less_i128}
use the_ai_cowboys_6_shooter.Memory.AmmPool.{
  AmmPool, swap_x_to_y, swap_y_to_x, converge, span, optimal_arb_input,
}
use the_ai_cowboys_6_shooter.Memory.AmmPool.Swap.{IsPool}
use the_ai_cowboys_6_shooter.Memory.AmmPool.Narrow.{Round, round, narrow_total}

-- No input, or an input in the range that the two swaps turn into itself and the profit.
abbrev pub IsReal : AmmPool → AmmPool → ℕ → ℕ → ℕ → Type 0
IsReal pool1 pool2 max_input input profit =
    ((input ≡ 0) × (profit ≡ 0))
    ⊎ ((1 ≤ input)
        × (input ≤ max_input)
        × (0 < profit)
        × (profit < 2 ^ 64)
        × (out_b : ℕ) × (swap_x_to_y pool1 input ≡ some out_b)
        × (swap_y_to_x pool2 out_b ≡ some (input + profit)))

real_profit :
    (pool1 pool2 : AmmPool) (max_input input profit : ℕ)
    → IsReal pool1 pool2 max_input input profit
    → profit < 2 ^ 64
real_profit pool1 pool2 max_input input profit (inl e) = omega arith
real_profit pool1 pool2 max_input input profit (inr r) = r.3

-- The signed test is that of the numbers, as long as the numbers are small.
gain :
    (best out_a input : ℕ)
    → best < 2 ^ 64
    → out_a < 2 ^ 64
    → input < 2 ^ 64
    → less_i128 best (sub_u128 out_a input) ≡ true
    → (0 < sub_u128 out_a input)
      × (sub_u128 out_a input < 2 ^ 64)
      × (out_a ≡ input + sub_u128 out_a input)
gain best out_a input h k l e = ground arith

shown : (p : ℕ) → p < 2 ^ 64 → (if less_i128 0 p then p else 0) ≡ p
shown p h = ground arith

module _ {pool1 pool2 : AmmPool} (v1 : IsPool pool1) (v2 : IsPool pool2) where
  record Converged (max_input rounds x input profit : ℕ) : Type 0 where
    best_input : ℕ
    best_profit : ℕ
    runs : converge pool1 pool2 rounds x input profit ≡ some (best_input, best_profit)
    real : IsReal pool1 pool2 max_input best_input best_profit

  converge_total :
      (max_input rounds x input profit : ℕ)
      → 1 ≤ x
      → max_input < 2 ^ 64
      → ((j : ℕ) → x ≤ j → j < x + rounds → j ≤ max_input)
      → IsReal pool1 pool2 max_input input profit
      → Converged max_input rounds x input profit
  unfolding converge
  converge_total max_input zero x input profit a b within real = record {
    best_input = input;
    best_profit = profit;
    runs = refl;
    real = real;
  }
  converge_total max_input (suc rounds) x input profit a b within real =
      turn (within x (omega arith) (omega arith)) (round v1 v2 x within_fits)
        (converge_total max_input rounds (x + 1) x)
        (converge_total max_input rounds (x + 1) input profit (omega arith) b later real)
    where
      later : (j : ℕ) → x + 1 ≤ j → j < x + 1 + rounds → j ≤ max_input
      later j lo hi = within j (omega arith) (omega arith)

      within_fits : x < 2 ^ 64
      within_fits = omega (arith, within x (omega arith) (omega arith))

      turn :
          x ≤ max_input
          → Round v1 v2 x
          → ((p : ℕ)
              → 1 ≤ x + 1
              → max_input < 2 ^ 64
              → ((j : ℕ) → x + 1 ≤ j → j < x + 1 + rounds → j ≤ max_input)
              → IsReal pool1 pool2 max_input x p
              → Converged max_input rounds (x + 1) x p)
          → Converged max_input rounds (x + 1) input profit
          → Converged max_input (suc rounds) x input profit
      turn low here taken kept =
          let p = sub_u128 here.out_a x in
          elim (Bool-cases (less_i128 profit p)) [
            | inl t ↦
                let (pos, small, sum) =
                  gain profit here.out_a x (real_profit pool1 pool2 max_input input profit real)
                    here.small (omega arith) t in
                let rest =
                  taken p (omega arith) b later
                    (inr (a, low, pos, small, here.out_b, here.there, here.back ∙ ap some sum)) in
                record {
                  best_input = rest.best_input;
                  best_profit = rest.best_profit;
                  runs = rw (converge, here.profit, ◌>>=◌, t) rest.runs;
                  real = rest.real;
                }
            | inr t ↦ record {
              best_input = kept.best_input;
              best_profit = kept.best_profit;
              runs = rw (converge, here.profit, ◌>>=◌, t) kept.runs;
              real = kept.real;
            }
          ]

  -- On two pools whose reserves are positive and below 2 ^ 64 and whose fee denominator is positive,
  -- below 2 ^ 64 and at least the numerator, and for `max_input` below 2 ^ 64, the search always ends
  -- with a result. It is either no input and no profit, or an input from 1 to `max_input` and a positive profit, such that
  -- swapping the input on the first pool and the proceeds on the second returns exactly the input
  -- and the profit together.
  pub optimal_arb_input-IsReal :
      (max_input : ℕ)
      → max_input < 2 ^ 64
      → (input : ℕ) × (profit : ℕ) × (optimal_arb_input pool1 pool2 max_input
          ≡ some (input, profit))
        × IsReal pool1 pool2 max_input input profit
  unfolding optimal_arb_input
  optimal_arb_input-IsReal max_input h =
      let n = narrow_total v1 v2 60 1 max_input (omega arith) (omega arith) h in
      let rounds = span n.lo_end (min n.hi_end (add_u128 n.lo_end 2)) in
      let c =
        converge_total max_input rounds n.lo_end 0 0 n.lo_pos h
          (λ j lo hi. omega (arith, n.hi_below)) (inl (refl, refl)) in
      (
        c.best_input,
        c.best_profit,
        rw (
          n.runs,
          ◌>>=◌,
          c.runs,
          shown c.best_profit (real_profit pool1 pool2 max_input c.best_input c.best_profit c.real),
        ),
        c.real,
      )
