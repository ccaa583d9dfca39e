-- ===== src/Mev/SimdSolver/Tests.antt =====
-- Two pools of the same two tokens at different prices, and the theorems of the sibling modules
-- there.
use the_ai_cowboys_6_shooter.Prelude.{
  ℕ, zero, suc, ◌-◌, ◌*◌, ◌^◌, ◌⊎◌, ◌≤◌, ◌<◌, ◌≡◌, inl, inr, refl, arith, true, false, Option, some,
  none, List, [], ◌∷◌, In, length, get_elem?,
}
use the_ai_cowboys_6_shooter.Mev.StateShadow.{
  new, register_pool, write_pool, count_pool, recompute_price,
}
use the_ai_cowboys_6_shooter.Mev.StateShadow.Simulation.{quote, sim_swap}
use the_ai_cowboys_6_shooter.Mev.Graph.Path.{ArbCycle}
use the_ai_cowboys_6_shooter.Mev.Graph.Tests.{market}
use the_ai_cowboys_6_shooter.Mev.SimdSolver.{
  ArbResult, SimdSolver, Range, simulate_from, simulate_cycle, narrow, search_round, search_rounds,
  search_best, accept, evaluate_single, evaluate_all, evaluate_batch, insert_by_profit,
  sort_by_profit,
}
use the_ai_cowboys_6_shooter.Mev.SimdSolver.Evaluate.{IsPool, IsTradable}
use the_ai_cowboys_6_shooter.Mev.SimdSolver.Results.{IsDescending}
use the_ai_cowboys_6_shooter.Mev.SimdSolver.Batch.{
  IsProfit, evaluate_batch_lem, search_rounds-simulate_cycle,
}
use the_ai_cowboys_6_shooter.Mev.SimdSolver.Branchless.{
  branchless_max, branchless_min, branchless_max-min,
}
use the_ai_cowboys_6_shooter.Mev.SimdSolver.Spread.{
  scan_four, scan_fours, scan_rest, scan_best_spread,
}
use the_ai_cowboys_6_shooter.Mev.SimdSolver.Scan.{IsSpread}
use the_ai_cowboys_6_shooter.Mev.SimdSolver.Found.{scan_best_spread_lem}

-- Sell in the second pool, buy in the first.
abbrev cycle : ArbCycle ℕ
cycle = record {
  path = 0 ∷ 1 ∷ [];
  pool_indices = 1 ∷ 0 ∷ [];
  directions = true ∷ false ∷ [];
  total_weight = 0;
  profit_multiplier = 0;
}

abbrev solver : SimdSolver
solver = record { min_profit = 10; max_input = 1_000_000; search_iterations = 40 }

abbrev profits : Option (List ArbResult) → List (ℕ × ℕ)
profits none = []
profits (some []) = []
profits (some (r ∷ _)) = (r.optimal_input, r.net_profit) ∷ []

best : profits (evaluate_batch solver market (cycle ∷ [])) ≡ ((88_922, 19_645) ∷ [])
unfolding market new register_pool write_pool count_pool recompute_price evaluate_batch evaluate_all
    evaluate_single accept search_best search_rounds search_round narrow simulate_from sim_swap
    quote sort_by_profit insert_by_profit
best = refl

market-IsPool : (idx : ℕ) → idx < 2 → IsPool market idx
unfolding market new register_pool write_pool count_pool recompute_price
market-IsPool idx h = record {
  inside = omega arith;
  x_fits = ground arith;
  y_fits = ground arith;
  fee_pos = ground arith;
  fee_below = ground arith;
  fee_fits = ground arith;
}

cycle-IsTradable : (c : ArbCycle ℕ) → In c (cycle ∷ []) → IsTradable market c
cycle-IsTradable c (inl e) = rw (e) (record {
  pools = λ idx m. elim m [
    | inl f ↦ market-IsPool idx (omega (arith, f))
    | inr (inl f) ↦ market-IsPool idx (omega (arith, f))
    | inr (inr bad) ↦ absurd bad
  ];
  directed = omega arith;
})
cycle-IsTradable c (inr bad) = absurd bad

evaluate_batch_lem_example :
    (out : List ArbResult) × (evaluate_batch solver market (cycle ∷ []) ≡ some out)
    × (length out ≤ 1)
    × IsDescending out
    × ((r : ArbResult)
        → In r out
        → (c : ArbCycle ℕ) × (In c (cycle ∷ [])) × IsProfit solver market c r)
evaluate_batch_lem_example =
    evaluate_batch_lem solver market (cycle ∷ []) cycle-IsTradable (omega arith) (omega arith)

search_rounds-simulate_cycle_example :
    (s : Range) × (search_rounds
        (simulate_cycle market cycle)
        40
        (record { lo = 1; hi = 1_000_000; best_input = 0; best_profit = 0 })
      ≡ some s)
    × (1 ≤ s.lo)
    × (s.lo ≤ s.hi)
    × (s.hi ≤ 1_000_000)
    × ((s.hi - s.lo < 3) ⊎ (3 ^ 40 * (s.hi - s.lo - 2) ≤ 2 ^ 40 * (1_000_000 - 1 - 2)))
    × (s.best_input ≤ 1_000_000)
    × (out : ℕ) × (simulate_cycle market cycle s.best_input ≡ some out)
    × (s.best_profit ≤ out - s.best_input)
unfolding the_ai_cowboys_6_shooter.Mev.SimdSolver.new
search_rounds-simulate_cycle_example =
    search_rounds-simulate_cycle market cycle 10 1_000_000 (cycle-IsTradable cycle (inl refl))
      (omega arith) (omega arith)

branchless_max-min_example : (branchless_max 3 8 ≡ 8) × (branchless_min 3 8 ≡ 3)
branchless_max-min_example = branchless_max-min 3 8 (omega arith) (omega arith)

abbrev asks : List ℕ
asks = 100 ∷ 105 ∷ []

abbrev bids : List ℕ
bids = 99 ∷ 108 ∷ []

abbrev ids : List ℕ
ids = 7 ∷ 8 ∷ []

bids_fit : (j c : ℕ) → get_elem? bids j ≡ some c → c < 2 ^ 64
bids_fit zero c e = ground (arith, e)
bids_fit (suc zero) c e = ground (arith, e)
bids_fit (suc (suc j)) c e = absurd (cc)

scan_best_spread_lem_example :
    (found : Option (ℕ × ℕ × ℕ)) × (scan_best_spread asks bids ids ≡ some found)
    × ((f : ℕ × ℕ × ℕ) → found ≡ some f → IsSpread asks bids ids f)
scan_best_spread_lem_example = scan_best_spread_lem asks bids ids refl refl bids_fit

-- Within a whole four the last ask below the one before the four wins: 103, not 100.
unrolled :
    scan_best_spread (100 ∷ 101 ∷ 102 ∷ 103 ∷ []) (90 ∷ 110 ∷ 90 ∷ 90 ∷ []) (1 ∷ 2 ∷ 3 ∷ 4 ∷ [])
    ≡ some (some (3, 1, 7))
unfolding scan_best_spread scan_fours scan_four scan_rest
unrolled = refl
