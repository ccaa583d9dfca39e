-- ===== src/Mev/Graph/Cycles.antt =====
-- `find_arbitrage_cycles`: Bellman-Ford from every token, and the cycles that it reveals.
use the_ai_cowboys_6_shooter.Prelude.{
  ℕ, zero, suc, ◌+◌, ◌-◌, min, ltb, ◌==◌, ◌&&◌, ◌||◌, if◌then◌else◌, Bool, true, false, Option,
  none, some, ◌>>=◌, List, [], ◌∷◌, ◌++◌, length, eq_list,
}
use the_ai_cowboys_6_shooter.Mev.Graph.{
  Float64, PriceEdge, PriceGraph, weight_zero, infinity, saturating_add,
}
use the_ai_cowboys_6_shooter.Mev.Graph.Path.{Pred, no_node, ArbCycle, reconstruct_cycle}

-- The arrays `dist` and `pred`, of `num_tokens` entries.
pub record Paths : Type 0 where
  pub dist : ℕ → ℕ
  pub pred : ℕ → Pred

abbrev pub start_at : ℕ → Paths
start_at source = record {
  dist = λ v. if v == source then weight_zero else infinity;
  pred = λ _. record { prev = no_node; pool = no_node; direction = false };
}

-- The guard of both passes: whether `edge` shortens the way to its end.
unfoldable pub shortens : ℕ → Paths → PriceEdge → Option Bool
shortens n p edge =
    if ltb edge.src n
    then (if ltb (p.dist edge.src) infinity
        then (if ltb edge.dst n
            then some (ltb (saturating_add (p.dist edge.src) edge.weight) (p.dist edge.dst))
            else none)
        else some false)
    else none

abbrev pub relaxed : Paths → PriceEdge → Paths
relaxed p edge = record {
  dist = λ v. if v == edge.dst then saturating_add (p.dist edge.src) edge.weight else p.dist v;
  pred = λ v.
      if v == edge.dst
      then record { prev = edge.src; pool = edge.pool_idx; direction = edge.x_to_y }
      else p.pred v;
}

-- One pass over the edges, with the flag `updated`.
unfoldable pub relax_edges : ℕ → List PriceEdge → Paths → Bool → Option (Paths × Bool)
relax_edges n [] p updated = some (p, updated)
relax_edges n (edge ∷ edges) p updated = do
  shorter ← shortens n p edge
  elim shorter [
    | true ↦ relax_edges n edges (relaxed p edge) true
    | false ↦ relax_edges n edges p updated
  ]

unfoldable pub relax_passes : ℕ → List PriceEdge → ℕ → Paths → Option Paths
relax_passes n edges zero p = some p
relax_passes n edges (suc passes) p = do
  r ← relax_edges n edges p false
  elim (r.1) [ true ↦ relax_passes n edges passes (r.0) | false ↦ some (r.0) ]

module _ (float : Float64) where
  -- `dominated`: the same pools in the same order.
  unfoldable pub dominated : List (ArbCycle float.F) → ArbCycle float.F → Bool
  dominated [] cycle = false
  dominated (c ∷ cycles) cycle =
      (length c.path == length cycle.path && eq_list c.pool_indices cycle.pool_indices)
      || dominated cycles cycle

  abbrev pub add_cycle :
      List (ArbCycle float.F) → Option (ArbCycle float.F) → List (ArbCycle float.F)
  add_cycle cycles none = cycles
  add_cycle cycles (some cycle) = if dominated cycles cycle then cycles else cycles ++ (cycle ∷ [])

  -- The detection pass over the edges that are left.
  unfoldable pub detect :
      PriceGraph
      → ℕ
      → Paths
      → List PriceEdge
      → List (ArbCycle float.F)
      → Option (List (ArbCycle float.F))
  detect g max_hops p [] cycles = some cycles
  detect g max_hops p (edge ∷ edges) cycles = do
    shorter ← shortens g.num_tokens p edge
    elim shorter [
      | true ↦ do
        found ← reconstruct_cycle float g edge.dst p.pred max_hops
        detect g max_hops p edges (add_cycle cycles found)
      | false ↦ detect g max_hops p edges cycles
    ]

  -- The loop over the sources from `source` on, with the rounds left.
  unfoldable pub from_sources :
      PriceGraph → ℕ → ℕ → ℕ → List (ArbCycle float.F) → Option (List (ArbCycle float.F))
  from_sources g max_hops zero source cycles = some cycles
  from_sources g max_hops (suc rounds) source cycles = do
    p ← relax_passes g.num_tokens g.edges (min (g.num_tokens - 1) max_hops) (start_at source)
    more ← detect g max_hops p g.edges cycles
    from_sources g max_hops rounds (source + 1) more

  -- `sort_by_key` keeps the order of equal keys.
  unfoldable pub insert_by_weight :
      ArbCycle float.F → List (ArbCycle float.F) → List (ArbCycle float.F)
  insert_by_weight cycle [] = cycle ∷ []
  insert_by_weight cycle (c ∷ cycles) =
      if ltb c.total_weight cycle.total_weight
      then c ∷ insert_by_weight cycle cycles
      else cycle ∷ c ∷ cycles

  unfoldable pub sort_by_weight : List (ArbCycle float.F) → List (ArbCycle float.F)
  sort_by_weight [] = []
  sort_by_weight (cycle ∷ cycles) = insert_by_weight cycle (sort_by_weight cycles)

  unfoldable pub find_arbitrage_cycles : PriceGraph → ℕ → Option (List (ArbCycle float.F))
  find_arbitrage_cycles g max_hops =
      if g.num_tokens == 0 || length g.edges == 0
      then some []
      else (from_sources g max_hops (min g.num_tokens 512) 0 [] >>= λ cycles.
          some (sort_by_weight cycles))
