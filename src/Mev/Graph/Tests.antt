-- ===== src/Mev/Graph/Tests.antt =====
-- Two pools of the same two tokens at different prices, and the theorems of the sibling modules
-- there. The operations on floating-point numbers are toy ones, in thousandths, with a straight line
-- for the logarithm.
use the_ai_cowboys_6_shooter.Prelude.{
  ℕ, ◌+◌, ◌-◌, ◌*◌, ◌/◌, ◌^◌, ◌≡◌, refl, arith, leb, ◌==◌, Option, some, none, List, [], ◌∷◌, In,
}
use the_ai_cowboys_6_shooter.Mev.StateShadow.{
  StateShadow, Registration, new, register_pool, write_pool, count_pool, recompute_price,
}
use the_ai_cowboys_6_shooter.Mev.Graph.{
  Float64, PriceGraph, PriceEdge, add_edge, add_pool, build_from, build_from_shadow, clear,
  find_node, get_or_create_node,
}
use the_ai_cowboys_6_shooter.Mev.Graph.Path.{
  ArbCycle, best_edge, edges_of, walk_back, collect, cycle_of, reconstruct_cycle,
}
use the_ai_cowboys_6_shooter.Mev.Graph.Cycles.{
  shortens, relax_edges, relax_passes, detect, dominated, from_sources, insert_by_weight,
  sort_by_weight, find_arbitrage_cycles,
}
use the_ai_cowboys_6_shooter.Mev.Graph.Sorted.{IsSorted}
use the_ai_cowboys_6_shooter.Mev.Graph.Sound.{IsCycle}
use the_ai_cowboys_6_shooter.Mev.Graph.Built.{build_from_shadow-find_arbitrage_cycles}

abbrev pub float : Float64
float = record {
  F = ℕ;
  one = 1000;
  zero_float = 0;
  q16_scale = 1000;
  of_u128 = λ n. n * 1000;
  of_i32 = λ n. n;
  to_i32 = λ x. 2 ^ 31 + 1000 - x;
  neg = λ x. x;
  sub = λ a b. a - b;
  mul = λ a b. a * b / 1000;
  div = λ a b. a * 1000 / b;
  log2 = λ x. x;
  pow_two = λ x. x;
  eq = λ a b. a == b;
  le = λ a b. leb a b;
}

abbrev pub cheap : Registration
cheap = record {
  pool_key = 71;
  token_x = 1;
  token_y = 2;
  reserve_x = 1_000_000;
  reserve_y = 2_000_000;
  fee_num = 3;
  fee_den = 1000;
  slot = 5;
}

abbrev pub dear : Registration
dear = record cheap { pool_key = 72; reserve_y = 3_000_000 }

unfoldable pub market : StateShadow
market = (register_pool (register_pool new cheap).1 dear).1

empty : PriceGraph
empty = record { edges = []; num_tokens = 0; token_to_node = [] }

-- The run finds the cycle that sells in the second pool and buys in the first.
abbrev summary : Option (List (ArbCycle ℕ)) → List (List ℕ × List ℕ)
summary none = []
summary (some []) = []
summary (some (c ∷ _)) = (c.path, c.pool_indices) ∷ []

abbrev run : Option PriceGraph → List (List ℕ × List ℕ)
run none = []
run (some g) = summary (find_arbitrage_cycles float g 3)

finds : run (build_from_shadow float empty market) ≡ ((0 ∷ 1 ∷ [], 1 ∷ 0 ∷ []) ∷ [])
unfolding market empty the_ai_cowboys_6_shooter.Mev.Graph.new new register_pool write_pool
    count_pool recompute_price build_from_shadow build_from add_pool add_edge clear find_node
    get_or_create_node best_edge edges_of walk_back collect cycle_of reconstruct_cycle shortens
    relax_edges relax_passes detect dominated from_sources insert_by_weight sort_by_weight
    find_arbitrage_cycles
finds = refl

build_from_shadow-find_arbitrage_cycles_example :
    (built : PriceGraph) × (build_from_shadow float empty market ≡ some built)
    × ((out : List (ArbCycle ℕ)) × (find_arbitrage_cycles float built 3 ≡ some out)
        × IsSorted float out
        × ((c : ArbCycle ℕ) → In c out → IsCycle built 3 c))
unfolding market new register_pool count_pool recompute_price write_pool
build_from_shadow-find_arbitrage_cycles_example =
    build_from_shadow-find_arbitrage_cycles float empty market 3 (omega arith)
