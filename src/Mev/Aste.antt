-- ===== src/Mev/Aste.antt =====
-- src/mev/aste.rs: the engine that takes the events of the mempool. The clock is read once for each
-- event, and the nanoseconds since its start are an argument; `none` is a panic.
pub mod Steps
pub mod Runs
mod Tests
use the_ai_cowboys_6_shooter.Prelude.{
  ℕ, zero, suc, ◌+◌, ◌*◌, ◌/◌, ◌%◌, ◌^◌, ltb, ◌==◌, if◌then◌else◌, Bool, true, false, Option, none,
  some, ◌>>=◌, List, [], ◌∷◌, ◌++◌, length, replicate,
}
use the_ai_cowboys_6_shooter.Prelude.Words.{add_u64, mul_u64}
use the_ai_cowboys_6_shooter.Memory.Arena.{Arena}
use the_ai_cowboys_6_shooter.Memory.Arena
use the_ai_cowboys_6_shooter.Net.Solana.{Key, to_le_bytes}
use the_ai_cowboys_6_shooter.Mev.StateShadow.{StateShadow, Registration, max_pools, update_reserves}
use the_ai_cowboys_6_shooter.Mev.StateShadow
use the_ai_cowboys_6_shooter.Mev.StateShadow.Simulation.{apply_speculative_swap, on_new_block}
use the_ai_cowboys_6_shooter.Mev.Graph.{
  Float64, PriceGraph, build_from_shadow, edge_count, token_count,
}
use the_ai_cowboys_6_shooter.Mev.Graph
use the_ai_cowboys_6_shooter.Mev.Graph.Cycles.{find_arbitrage_cycles}
use the_ai_cowboys_6_shooter.Mev.SimdSolver.{ArbResult, SimdSolver, evaluate_batch}
use the_ai_cowboys_6_shooter.Mev.SimdSolver
use the_ai_cowboys_6_shooter.Mev.Bundle.{
  RouteLeg, TransactionBundle, BundleConstructor, x_to_y, y_to_x, construct,
}
use the_ai_cowboys_6_shooter.Mev.Bundle

pub record AsteConfig : Type 0 where
  pub max_hops : ℕ
  pub min_profit : ℕ
  pub max_input : ℕ
  pub arena_size : ℕ
  pub graph_rebuild_interval : ℕ
  pub max_cycles_per_sec : ℕ
  pub dry_run : Bool
  pub latency_budget_us : ℕ

abbrev pub default_config : AsteConfig
default_config = record {
  max_hops = 4;
  min_profit = 10_000;
  max_input = 100_000_000_000;
  arena_size = 16 * 1024 * 1024;
  graph_rebuild_interval = 50;
  max_cycles_per_sec = 10_000;
  dry_run = true;
  latency_budget_us = 200_000;
}

pub record AsteStats : Type 0 where
  pub cycles_total : ℕ
  pub swaps_observed : ℕ
  pub arb_cycles_detected : ℕ
  pub arb_profitable : ℕ
  pub bundles_submitted : ℕ
  pub total_profit : ℕ
  pub avg_cycle_latency_ns : ℕ
  pub max_cycle_latency_ns : ℕ
  pub graph_rebuilds : ℕ
  pub speculative_swaps : ℕ

abbrev pub new_stats : AsteStats
new_stats = record {
  cycles_total = 0;
  swaps_observed = 0;
  arb_cycles_detected = 0;
  arb_profitable = 0;
  bundles_submitted = 0;
  total_profit = 0;
  avg_cycle_latency_ns = 0;
  max_cycle_latency_ns = 0;
  graph_rebuilds = 0;
  speculative_swaps = 0;
}

pub data MempoolEvent : Type 0 where
  pending_swap : ℕ → ℕ → Bool → List ℕ → MempoolEvent
  new_block : ℕ → MempoolEvent
  pool_update : ℕ → ℕ → ℕ → ℕ → MempoolEvent

pub record Aste : Type 0 where
  pub config : AsteConfig
  pub shadow : StateShadow
  pub graph : PriceGraph
  pub solver : SimdSolver
  pub bundler : BundleConstructor
  pub arena : Arena
  pub stats : AsteStats
  pub cycle_count : ℕ

-- The address of the arena's buffer is an argument.
unfoldable pub new : ℕ → AsteConfig → Aste
new base config = record {
  config = config;
  shadow = StateShadow.new;
  graph = Graph.new;
  solver = SimdSolver.new config.min_profit config.max_input;
  bundler = Bundle.new config.dry_run;
  arena = Arena.new base config.arena_size;
  stats = new_stats;
  cycle_count = 0;
}

-- The moving average, the greatest latency and, on the swap branch, the reset of the arena.
unfoldable pub update_latency : AsteStats → ℕ → AsteStats
update_latency stats elapsed_ns =
    let prev = stats.avg_cycle_latency_ns in
    record stats {
      avg_cycle_latency_ns =
          if prev == 0 then elapsed_ns else add_u64 (mul_u64 prev 15) elapsed_ns / 16;
      max_cycle_latency_ns =
          if ltb stats.max_cycle_latency_ns elapsed_ns
          then elapsed_ns
          else stats.max_cycle_latency_ns;
    }

unfoldable pub finish_swap : Aste → ℕ → Aste
finish_swap a elapsed_ns = record a {
  stats = update_latency a.stats elapsed_ns;
  arena = Arena.reset a.arena;
}

-- A token id in the first eight of 32 bytes.
abbrev pub token_key : ℕ → Key
token_key token_id = to_le_bytes 8 token_id ++ replicate 24 0

-- The loop of `execute_arb` over the pools and directions of the result.
unfoldable pub legs_of : StateShadow → List ℕ → List Bool → Option (List RouteLeg)
legs_of shadow [] directions = some []
legs_of shadow (pool_idx ∷ pools) [] = none
legs_of shadow (pool_idx ∷ pools) (direction ∷ directions) =
    let x = token_key (shadow.token_x_id pool_idx) in
    let y = token_key (shadow.token_y_id pool_idx) in
    let leg : RouteLeg = record {
      pool_id = to_le_bytes 32 (shadow.pool_keys pool_idx);
      token_in = if direction then x else y;
      token_out = if direction then y else x;
      direction = if direction then x_to_y else y_to_x;
    } in
    if ltb pool_idx max_pools
    then (legs_of shadow pools directions >>= λ legs. some (leg ∷ legs))
    else none

-- The bundle of a result.
unfoldable pub bundle_of : Aste → ArbResult → Option TransactionBundle
bundle_of a result = do
  legs ← legs_of a.shadow result.pool_sequence result.directions
  some (
      construct (record { legs = legs; expected_profit = result.net_profit % 2 ^ 64 })
        (record {
          input_amount = result.optimal_input;
          expected_profit = result.net_profit % 2 ^ 64;
          expected_output = result.expected_output;
        }))

abbrev pub add_profit : AsteStats → ℕ → AsteStats
add_profit stats profit = record stats {
  total_profit = add_u64 stats.total_profit (profit % 2 ^ 64);
}

-- The bundle is built and, in a dry run or not, dropped at the end.
unfoldable pub execute_arb : Aste → ArbResult → Option (ℕ × Aste)
execute_arb a result = do
  bundle ← bundle_of a result
  let stats =
      if a.config.dry_run
      then a.stats
      else record a.stats { bundles_submitted = add_u64 a.stats.bundles_submitted 1 }
  some (result.net_profit, record a { stats = add_profit stats result.net_profit })

abbrev pub count_rebuild : AsteStats → AsteStats
count_rebuild stats = record stats { graph_rebuilds = add_u64 stats.graph_rebuilds 1 }

module _ (float : Float64) where
  -- `graph.build_from_shadow(&shadow)` and its counter.
  unfoldable pub rebuild_graph : Aste → Option Aste
  rebuild_graph a = do
    graph ← build_from_shadow float a.graph a.shadow
    some (record a { graph = graph; stats = count_rebuild a.stats })

  unfoldable pub register_pool : Aste → Registration → Option (Option ℕ × Aste)
  register_pool a r =
      let s = StateShadow.register_pool a.shadow r in
      let b = record a { shadow = s.1 } in
      elim s.0 [ none ↦ some (none, b) | some idx ↦ rebuild_graph b >>= λ c. some (some idx, c) ]

  -- The phase that rebuilds the graph on every so many events.
  unfoldable pub rebuild_sometimes : Aste → Option Aste
  rebuild_sometimes a =
      if a.config.graph_rebuild_interval == 0
      then none
      else (if a.cycle_count % a.config.graph_rebuild_interval == 0
          then rebuild_graph a
          else some a)

  -- The result of the solver, from the best on.
  abbrev pub take_best : Aste → List ArbResult → ℕ → Option (ℕ × Aste)
  take_best a [] elapsed_ns = some (0, finish_swap a elapsed_ns)
  take_best a (best ∷ _) elapsed_ns =
      let b = record a {
        stats = record a.stats { arb_profitable = add_u64 a.stats.arb_profitable 1 };
      } in
      execute_arb b best >>= λ r. some (r.0, finish_swap r.1 elapsed_ns)

  -- `PendingSwap`, from the second phase on.
  unfoldable pub solve : Aste → ℕ → Option (ℕ × Aste)
  solve a elapsed_ns = do
    cycles ← find_arbitrage_cycles float a.graph a.config.max_hops
    let b = record a {
      stats = record a.stats {
        arb_cycles_detected = add_u64 a.stats.arb_cycles_detected (length cycles % 2 ^ 64);
      };
    }
    (if length cycles == 0
        then some (0, finish_swap b elapsed_ns)
        else (evaluate_batch b.solver b.shadow cycles >>= λ results.
            take_best b results elapsed_ns))

  unfoldable pub pending : Aste → ℕ → ℕ → Bool → ℕ → Option (ℕ × Aste)
  pending a pool_idx amount_in forward elapsed_ns = do
    r ← apply_speculative_swap a.shadow pool_idx amount_in forward
    b ← rebuild_sometimes (record a {
      shadow = r.1;
      stats = record a.stats {
        swaps_observed = add_u64 a.stats.swaps_observed 1;
        speculative_swaps = add_u64 a.stats.speculative_swaps 1;
      };
    })
    solve b elapsed_ns

  unfoldable pub process_event : Aste → MempoolEvent → ℕ → Option (ℕ × Aste)
  process_event a event elapsed_ns =
      let b = record a {
        cycle_count = add_u64 a.cycle_count 1;
        stats = record a.stats { cycles_total = add_u64 a.stats.cycles_total 1 };
      } in
      elim event [
        | pending_swap pool_idx amount_in forward _ ↦
            pending b pool_idx amount_in forward elapsed_ns
        | new_block slot ↦ do
          shadow ← on_new_block b.shadow slot
          c ← rebuild_graph (record b { shadow = shadow })
          some (0, record c { stats = update_latency c.stats elapsed_ns })
        | pool_update pool_idx reserve_x reserve_y slot ↦ do
          shadow ← update_reserves b.shadow pool_idx reserve_x reserve_y slot
          some (0, record b { shadow = shadow; stats = update_latency b.stats elapsed_ns })
      ]

-- The two counters of the daemon that the loop writes.
pub record Metrics : Type 0 where
  pub mev_revenue_sat : ℕ
  pub mev_bundles_submitted : ℕ

abbrev pub record_profit : Metrics → ℕ → Metrics
record_profit m profit =
    if ltb 0 profit
    then record {
      mev_revenue_sat = add_u64 m.mev_revenue_sat (profit % 2 ^ 64);
      mev_bundles_submitted = add_u64 m.mev_bundles_submitted 1;
    }
    else m

module _ (float : Float64) where
  -- The loop of `run_aste` over the events that it receives until it is told to stop, each with the
  -- time that it takes.
  unfoldable pub receive : Metrics → Aste → List (MempoolEvent × ℕ) → Option (Metrics × Aste)
  receive m a [] = some (m, a)
  receive m a ((event, elapsed_ns) ∷ events) = do
    r ← process_event float a event elapsed_ns
    receive (record_profit m r.0) (r.1) events

  unfoldable pub run_aste :
      ℕ → AsteConfig → Metrics → List (MempoolEvent × ℕ) → Option (Metrics × Aste)
  run_aste base config m events = receive m (new base config) events
