-- ===== src/Mev/Router.antt =====
-- src/mev/router.rs: `RouteOptimizer`, over the registry of src/mev/amm.rs. `none` is a panic.
pub mod Search
mod Tests
use the_ai_cowboys_6_shooter.Prelude.{
  ℕ, zero, suc, ◌+◌, ◌-◌, ◌*◌, ◌/◌, ◌%◌, ◌^◌, max, ltb, leb, ◌==◌, ◌&&◌, not, if◌then◌else◌, true,
  false, Option, none, some, ◌>>=◌, List, [], ◌∷◌, length,
}
use the_ai_cowboys_6_shooter.Prelude.Words.{add_u128, sub_u128, mul_u128}
use the_ai_cowboys_6_shooter.Memory.AmmPool.{AmmPool, optimal_arb_input}
use the_ai_cowboys_6_shooter.Net.Solana.{Key, to_le_bytes}
use the_ai_cowboys_6_shooter.Mev.Amm.{SwapInstruction}
use the_ai_cowboys_6_shooter.Mev.Amm.Registry.{PoolRegistry, get_pools_for_pair}
use the_ai_cowboys_6_shooter.Mev.Bundle.{ArbitrageRoute, OptimalInput, x_to_y, y_to_x}

pub record RouteOptimizer : Type 0 where
  pub min_profit : ℕ
  pub max_latency_us : ℕ

unfoldable pub new : ℕ → ℕ → RouteOptimizer
new min_profit max_latency_us = record { min_profit = min_profit; max_latency_us = max_latency_us }

-- The 32 bytes of a pool's key.
abbrev pub pool_key : AmmPool → Key
pool_key p = to_le_bytes 32 p.pool_id

-- The route that buys on the first pool and sells on the second.
abbrev pub route_of : SwapInstruction → AmmPool → AmmPool → ℕ → ArbitrageRoute
route_of swap p q profit = record {
  legs =
      record {
        pool_id = pool_key p;
        token_in = swap.token_in;
        token_out = swap.token_out;
        direction = x_to_y;
      }
      ∷ record {
        pool_id = pool_key q;
        token_in = swap.token_out;
        token_out = swap.token_in;
        direction = y_to_x;
      }
      ∷ [];
  expected_profit = profit % 2 ^ 64;
}

-- `best_route` and `best_profit`.
pub record Best : Type 0 where
  pub route : Option ArbitrageRoute
  pub profit : ℕ

-- A pool and its index in `pools`.
pub record Numbered : Type 0 where
  pub at : ℕ
  pub pool : AmmPool

abbrev pub numbered_from : ℕ → List AmmPool → List Numbered
numbered_from i [] = []
numbered_from i (p ∷ pools) = record { at = i; pool = p } ∷ numbered_from (i + 1) pools

module _ (optimizer : RouteOptimizer) (swap : SwapInstruction) where
  -- The body of the two loops.
  unfoldable pub try_pair : Numbered → Numbered → Best → Option Best
  try_pair p q best = elim (p.at == q.at) [
    | true ↦ some best
    | false ↦ optimal_arb_input p.pool q.pool 100_000 >>= λ found. some (
        if ltb best.profit (found.1) && leb optimizer.min_profit (found.1)
        then record { route = some (route_of swap p.pool q.pool (found.1)); profit = found.1 }
        else best)
  ]

  unfoldable pub inner_loop : Numbered → List Numbered → Best → Option Best
  inner_loop p [] best = some best
  inner_loop p (q ∷ qs) best = try_pair p q best >>= λ best'. inner_loop p qs best'

  unfoldable pub outer_loop : List Numbered → List Numbered → Best → Option Best
  outer_loop all [] best = some best
  outer_loop all (p ∷ ps) best = inner_loop p all best >>= λ best'. outer_loop all ps best'

  unfoldable pub find_arbitrage : PoolRegistry → Option (Option ArbitrageRoute)
  find_arbitrage registry =
      let pools = get_pools_for_pair registry swap.token_in swap.token_out in
      let all = numbered_from 0 pools in
      if ltb (length pools) 2
      then some none
      else (outer_loop all all (record { route = none; profit = 0 }) >>= λ best. some best.route)

-- The state of the search of `optimize_input`.
pub record Span : Type 0 where
  pub lo : ℕ
  pub hi : ℕ
  pub best_input : ℕ
  pub best_profit : ℕ
  pub best_output : ℕ

-- `(m * expected_profit / 100_000).saturating_sub(m)`
abbrev pub estimate : ℕ → ℕ → ℕ
estimate expected m = mul_u128 m expected / 100_000 - m

abbrev pub keep_better : Span → ℕ → ℕ → Span
keep_better s m p =
    if ltb s.best_profit (p % 2 ^ 64)
    then record s { best_profit = p % 2 ^ 64; best_input = m; best_output = add_u128 m p }
    else s

unfoldable pub input_rounds : ℕ → ℕ → Span → Span
input_rounds expected zero s = s
input_rounds expected (suc rounds) s =
    let third = sub_u128 s.hi s.lo / 3 in
    let m1 = add_u128 s.lo third in
    let m2 = sub_u128 s.hi third in
    let p1 = estimate expected m1 in
    let p2 = estimate expected m2 in
    let s' = keep_better (keep_better s m1 p1) m2 p2 in
    let next : Span = if ltb p1 p2 then record s' { lo = m1 } else record s' { hi = m2 } in
    elim (ltb (sub_u128 s.hi s.lo) 3) [ true ↦ s | false ↦ input_rounds expected rounds next ]

unfoldable pub optimize_input : ArbitrageRoute → OptimalInput
optimize_input route =
    let s =
      input_rounds route.expected_profit 60 (record {
        lo = 1;
        hi = 10_000_000_000;
        best_input = 0;
        best_profit = 0;
        best_output = 0;
      }) in
    if not (length route.legs == 2)
    then record {
      input_amount = mul_u128 route.expected_profit 10;
      expected_profit = route.expected_profit;
      expected_output = mul_u128 route.expected_profit 11;
    }
    else record {
      input_amount = s.best_input;
      expected_profit = max s.best_profit route.expected_profit;
      expected_output = s.best_output;
    }

unfoldable pub find_multihop_arbitrage : PoolRegistry → ℕ → List ArbitrageRoute
find_multihop_arbitrage registry max_hops = []
