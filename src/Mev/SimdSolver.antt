-- ===== src/Mev/SimdSolver.antt =====
-- src/mev/simd_solver.rs: the evaluation of the cycles of the graph on the speculative state.
-- `none` is a panic: of a column or a list out of range, or of a division by zero.
pub mod Narrowing
pub mod Search
pub mod Evaluate
pub mod Batch
pub mod Results
pub mod Branchless
pub mod Spread
pub mod Scan
pub mod Found
mod Tests
use the_ai_cowboys_6_shooter.Prelude.{
  ℕ, zero, suc, ◌+◌, ◌-◌, ◌*◌, ◌/◌, ◌%◌, ◌^◌, max, ltb, leb, ◌==◌, ◌||◌, if◌then◌else◌, Bool, true,
  false, Option, none, some, ◌>>=◌, List, [], ◌∷◌, ◌++◌, length,
}
use the_ai_cowboys_6_shooter.Prelude.Words.{add_u128, sub_u128, mul_u128, div_u128}
use the_ai_cowboys_6_shooter.Mev.StateShadow.{StateShadow}
use the_ai_cowboys_6_shooter.Mev.StateShadow.Simulation.{sim_swap}
use the_ai_cowboys_6_shooter.Mev.Graph.Path.{ArbCycle}

pub record ArbResult : Type 0 where
  pub cycle_idx : ℕ
  pub optimal_input : ℕ
  pub expected_output : ℕ
  pub net_profit : ℕ
  pub profit_bps : ℕ
  pub pool_sequence : List ℕ
  pub directions : List Bool

pub record SimdSolver : Type 0 where
  pub min_profit : ℕ
  pub max_input : ℕ
  pub search_iterations : ℕ

unfoldable pub new : ℕ → ℕ → SimdSolver
new min_profit max_input = record {
  min_profit = min_profit;
  max_input = max_input;
  search_iterations = 40;
}

-- The loop of `simulate_cycle` over the pools that are left and their directions.
unfoldable pub simulate_from : StateShadow → List ℕ → List Bool → ℕ → Option ℕ
simulate_from shadow [] directions amount = some amount
simulate_from shadow (pool_idx ∷ pools) [] amount = none
simulate_from shadow (pool_idx ∷ pools) (x_to_y ∷ directions) amount = do
  out ← sim_swap shadow pool_idx amount x_to_y
  let rest = simulate_from shadow pools directions out
  (if out == 0 then some 0 else rest)

module _ {F : Type 0} where
  abbrev pub simulate_cycle : StateShadow → ArbCycle F → ℕ → Option ℕ
  simulate_cycle shadow cycle input = simulate_from shadow cycle.pool_indices cycle.directions input

-- The variables of the ternary search.
pub record Range : Type 0 where
  pub lo : ℕ
  pub hi : ℕ
  pub best_input : ℕ
  pub best_profit : ℕ

-- `saturating_sub` on `u128`.
abbrev pub saturating_sub : ℕ → ℕ → ℕ
saturating_sub a b = a - b

-- `if p > best_profit { .. }`
abbrev pub track : Range → ℕ → ℕ → Range
track r p m = if ltb r.best_profit p then record r { best_profit = p; best_input = m } else r

-- `(p1 < p2) as u128`
abbrev pub as_u128 : Bool → ℕ
as_u128 b = if b then 1 else 0

-- The narrowing by arithmetic on the flag.
unfoldable pub narrow : Range → ℕ → ℕ → ℕ → Range
narrow r p1_less m1 m2 = record r {
  lo = add_u128 (mul_u128 p1_less m1) (mul_u128 (sub_u128 1 p1_less) r.lo);
  hi = add_u128 (mul_u128 p1_less r.hi) (mul_u128 (sub_u128 1 p1_less) m2);
}

module _ (simulate : ℕ → Option ℕ) where
  -- One round of the search, past its `break`.
  unfoldable pub search_round : Range → Option Range
  search_round r = do
    let third = sub_u128 r.hi r.lo / 3
    let m1 = add_u128 r.lo third
    let m2 = sub_u128 r.hi third
    out1 ← simulate m1
    out2 ← simulate m2
    let p1 = saturating_sub out1 m1
    let p2 = saturating_sub out2 m2
    some (narrow (track (track r p1 m1) p2 m2) (as_u128 (ltb p1 p2)) m1 m2)

  unfoldable pub search_rounds : ℕ → Range → Option Range
  search_rounds zero r = some r
  search_rounds (suc rounds) r = elim (ltb (sub_u128 r.hi r.lo) 3) [
    | true ↦ some r
    | false ↦ search_round r >>= search_rounds rounds
  ]

  unfoldable pub search_best : SimdSolver → Option (ℕ × ℕ)
  search_best solver = do
    r ←
        search_rounds solver.search_iterations
          (record { lo = 1; hi = solver.max_input; best_input = 0; best_profit = 0 })
    best_output ← simulate r.best_input
    some (r.best_input, best_output)

abbrev pub is_empty {ℓ} : {A : Type ℓ} → List A → Bool
is_empty [] = true
is_empty (_ ∷ _) = false

abbrev pub push_some : List ArbResult → Option ArbResult → List ArbResult
push_some results none = results
push_some results (some result) = results ++ (result ∷ [])

module _ {F : Type 0} where
  abbrev pub binary_search_optimal : SimdSolver → StateShadow → ArbCycle F → Option (ℕ × ℕ)
  binary_search_optimal solver shadow cycle = search_best (simulate_cycle shadow cycle) solver

  -- `evaluate_single` from the result of the search on.
  unfoldable pub accept : SimdSolver → ArbCycle F → ℕ → ℕ → ℕ → Option ArbResult
  accept solver cycle idx optimal_input max_output =
      let net_profit = sub_u128 max_output optimal_input in
      let profit_bps =
        if ltb 0 optimal_input then mul_u128 net_profit 10_000 / optimal_input % 2 ^ 32 else 0 in
      if leb max_output optimal_input
      then none
      else (if ltb net_profit solver.min_profit
          then none
          else some (record {
            cycle_idx = idx;
            optimal_input = optimal_input;
            expected_output = max_output;
            net_profit = net_profit;
            profit_bps = profit_bps;
            pool_sequence = cycle.pool_indices;
            directions = cycle.directions;
          }))

  unfoldable pub evaluate_single :
      SimdSolver → StateShadow → ArbCycle F → ℕ → Option (Option ArbResult)
  evaluate_single solver shadow cycle idx =
      let probe_input = max (solver.max_input / 1000) 100 in
      if is_empty cycle.path || is_empty cycle.pool_indices
      then some none
      else (simulate_cycle shadow cycle probe_input >>= λ probe_output.
          if leb probe_output probe_input
          then some none
          else (binary_search_optimal solver shadow cycle >>= λ best.
              some (accept solver cycle idx best.0 best.1)))

  -- The two loops over the chunks of four cycles, which take the cycles in their order.
  unfoldable pub evaluate_all :
      SimdSolver → StateShadow → List (ArbCycle F) → List ArbResult → Option (List ArbResult)
  evaluate_all solver shadow [] results = some results
  evaluate_all solver shadow (cycle ∷ cycles) results = do
    result ← evaluate_single solver shadow cycle (length results)
    evaluate_all solver shadow cycles (push_some results result)

-- `sort_unstable_by` on the profits, the highest first; the order of equal ones is left open there.
unfoldable pub insert_by_profit : ArbResult → List ArbResult → List ArbResult
insert_by_profit result [] = result ∷ []
insert_by_profit result (r ∷ results) =
    if ltb result.net_profit r.net_profit
    then r ∷ insert_by_profit result results
    else result ∷ r ∷ results

unfoldable pub sort_by_profit : List ArbResult → List ArbResult
sort_by_profit [] = []
sort_by_profit (result ∷ results) = insert_by_profit result (sort_by_profit results)

module _ {F : Type 0} where
  unfoldable pub evaluate_batch :
      SimdSolver → StateShadow → List (ArbCycle F) → Option (List ArbResult)
  evaluate_batch solver shadow cycles =
      evaluate_all solver shadow cycles [] >>= λ results. some (sort_by_profit results)
