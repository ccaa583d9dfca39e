-- ===== src/Mev/Aste/Tests.antt =====
-- An engine with two pools at different prices takes a swap and a block; and the one of `run_aste`,
-- which has none, a swap.
use the_ai_cowboys_6_shooter.Prelude.{ℕ, ◌≡◌, refl, true, Option, none, some, List, [], ◌∷◌}
use the_ai_cowboys_6_shooter.Mev.StateShadow.{
  register_pool, write_pool, count_pool, recompute_price,
}
use the_ai_cowboys_6_shooter.Mev.StateShadow
use the_ai_cowboys_6_shooter.Mev.StateShadow.Simulation.{
  fill, write_spec, sim_swap, quote, apply_speculative_swap, revert_one, revert_from,
  revert_speculative, on_new_block,
}
use the_ai_cowboys_6_shooter.Mev.Graph.{
  add_edge, add_pool, build_from, build_from_shadow, clear, find_node, get_or_create_node,
}
use the_ai_cowboys_6_shooter.Mev.Graph
use the_ai_cowboys_6_shooter.Mev.Graph.Path.{
  best_edge, edges_of, walk_back, collect, cycle_of, reconstruct_cycle,
}
use the_ai_cowboys_6_shooter.Mev.Graph.Cycles.{
  shortens, relax_edges, relax_passes, detect, dominated, from_sources, insert_by_weight,
  sort_by_weight, find_arbitrage_cycles,
}
use the_ai_cowboys_6_shooter.Mev.Graph.Tests.{float, market}
use the_ai_cowboys_6_shooter.Mev.SimdSolver.{
  simulate_from, narrow, search_round, search_rounds, search_best, accept, evaluate_single,
  evaluate_all, evaluate_batch, insert_by_profit, sort_by_profit,
}
use the_ai_cowboys_6_shooter.Mev.SimdSolver
use the_ai_cowboys_6_shooter.Mev.Aste.{
  Aste, Metrics, MempoolEvent, pending_swap, new_block, default_config, new, update_latency,
  finish_swap, legs_of, bundle_of, execute_arb, rebuild_graph, rebuild_sometimes, solve, pending,
  process_event, receive, run_aste,
}
use the_ai_cowboys_6_shooter.Mev.Aste.Runs.{IsRun, receive-IsRun, HasSwap, run_aste_panics}

abbrev metrics : Metrics
metrics = record { mev_revenue_sat = 0; mev_bundles_submitted = 0 }

engine : Aste
engine = record (new 0 default_config) {
  shadow = market;
  solver = record { min_profit = 10; max_input = 1_000_000; search_iterations = 40 };
  config = record default_config { graph_rebuild_interval = 1 };
}

abbrev events : List (MempoolEvent × ℕ)
events = (pending_swap 0 10_000 true [], 900) ∷ (new_block 7, 100) ∷ []

abbrev after : Option (Metrics × Aste) → Metrics × Aste
after none = (metrics, engine)
after (some r) = r

returns : receive float metrics engine events ≡ some (after (receive float metrics engine events))
unfolding engine new market StateShadow.new register_pool write_pool count_pool recompute_price
    receive process_event pending solve rebuild_sometimes rebuild_graph apply_speculative_swap fill
    write_spec build_from_shadow build_from add_pool add_edge clear find_node get_or_create_node
    Graph.new find_arbitrage_cycles from_sources relax_passes relax_edges shortens detect dominated
    insert_by_weight sort_by_weight best_edge edges_of walk_back collect cycle_of reconstruct_cycle
    evaluate_batch evaluate_all evaluate_single accept insert_by_profit sort_by_profit simulate_from
    sim_swap quote SimdSolver.new search_best search_rounds search_round narrow execute_arb
    bundle_of legs_of finish_swap update_latency on_new_block revert_speculative revert_from
    revert_one
returns = refl

-- The swap is followed by an arbitrage, whose profit the daemon counts.
profits : (after (receive float metrics engine events)).0.mev_bundles_submitted ≡ 1
unfolding engine new market StateShadow.new register_pool write_pool count_pool recompute_price
    receive process_event pending solve rebuild_sometimes rebuild_graph apply_speculative_swap fill
    write_spec build_from_shadow build_from add_pool add_edge clear find_node get_or_create_node
    Graph.new find_arbitrage_cycles from_sources relax_passes relax_edges shortens detect dominated
    insert_by_weight sort_by_weight best_edge edges_of walk_back collect cycle_of reconstruct_cycle
    evaluate_batch evaluate_all evaluate_single accept insert_by_profit sort_by_profit simulate_from
    sim_swap quote SimdSolver.new search_best search_rounds search_round narrow execute_arb
    bundle_of legs_of finish_swap update_latency on_new_block revert_speculative revert_from
    revert_one
profits = refl

receive-IsRun_example :
    IsRun float metrics engine events
      (after (receive float metrics engine events)).0
      (after (receive float metrics engine events)).1
receive-IsRun_example = receive-IsRun float metrics engine events returns

run_aste_panics_example :
    run_aste float 0 default_config metrics
      ((new_block 3, 50) ∷ (pending_swap 0 500 true [], 80) ∷ [])
    ≡ none
unfolding HasSwap
run_aste_panics_example =
    run_aste_panics float 0 default_config metrics
      ((new_block 3, 50) ∷ (pending_swap 0 500 true [], 80) ∷ []) tt
