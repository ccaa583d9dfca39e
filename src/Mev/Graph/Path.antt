-- ===== src/Mev/Graph/Path.antt =====
-- `reconstruct_cycle`: the walk along the predecessors, and the edges of the path that it finds.
use mathlib.Core.List.{reverse}
use the_ai_cowboys_6_shooter.Prelude.{
  ℕ, zero, suc, ◌+◌, ltb, ◌==◌, ◌&&◌, if◌then◌else◌, Bool, true, Option, none, some, ◌>>=◌, List,
  [], ◌∷◌, length,
}
use the_ai_cowboys_6_shooter.Mev.Graph.{Float64, PriceEdge, PriceGraph, weight_zero, saturating_add}

-- An entry of the predecessor array.
pub record Pred : Type 0 where
  pub prev : ℕ
  pub pool : ℕ
  pub direction : Bool

-- `u16::MAX`
abbrev pub no_node : ℕ
no_node = 65535

-- `pred[node]` in an array of `n` entries.
abbrev pub pred_at : ℕ → (ℕ → Pred) → ℕ → Option Pred
pred_at n pred node = if ltb node n then some (pred node) else none

pub record ArbCycle (F : Type 0) : Type 0 where
  pub path : List ℕ
  pub pool_indices : List ℕ
  pub directions : List Bool
  pub total_weight : ℕ
  pub profit_multiplier : F

module _ (n : ℕ) (pred : ℕ → Pred) where
  -- The first loop, with the rounds left; `some none` is the early `return None`.
  unfoldable pub walk_back : ℕ → ℕ → Option (Option ℕ)
  walk_back zero node = some (some node)
  walk_back (suc rounds) node = do
    p ← pred_at n pred node
    (if p.prev == no_node then some none else walk_back rounds p.prev)

  -- The second loop, with the rounds left before the path is too long; the nodes come backwards.
  unfoldable pub collect : ℕ → ℕ → ℕ → Option (Option (List ℕ))
  collect zero cycle_start node = some none
  collect (suc rounds) cycle_start node = do
    p ← pred_at n pred node
    (if p.prev == cycle_start
        then some (some (node ∷ []))
        else (collect rounds cycle_start p.prev >>= λ rest.
            some (rest >>= λ nodes. some (node ∷ nodes))))

-- The scan for the lightest edge between two nodes.
unfoldable pub best_edge : List PriceEdge → ℕ → ℕ → Option PriceEdge → Option PriceEdge
best_edge [] src dst best = best
best_edge (edge ∷ edges) src dst best =
    let lighter : Bool = elim best [ none ↦ true | some b ↦ ltb edge.weight b.weight ] in
    best_edge edges src dst
      (if edge.src == src && edge.dst == dst && lighter then some edge else best)

-- The edges that the last loop takes, one for each node of the path and the next.
unfoldable pub edges_of : List PriceEdge → ℕ → List ℕ → Option (List PriceEdge)
edges_of edges first [] = some []
edges_of edges first (src ∷ rest) = do
  edge ← best_edge edges src (elim rest [ [] ↦ first | dst ∷ _ ↦ dst ]) none
  more ← edges_of edges first rest
  some (edge ∷ more)

abbrev pub pools_of : List PriceEdge → List ℕ
pools_of [] = []
pools_of (edge ∷ edges) = edge.pool_idx ∷ pools_of edges

abbrev pub directions_of : List PriceEdge → List Bool
directions_of [] = []
directions_of (edge ∷ edges) = edge.x_to_y ∷ directions_of edges

abbrev pub weigh : ℕ → List PriceEdge → ℕ
weigh total [] = total
weigh total (edge ∷ edges) = weigh (saturating_add total edge.weight) edges

abbrev pub first_of : List ℕ → ℕ
first_of [] = 0
first_of (node ∷ _) = node

module _ (float : Float64) where
  -- The rest of the function on the path that the walk found.
  unfoldable pub cycle_of : PriceGraph → List ℕ → Option (ArbCycle float.F)
  cycle_of g path = do
    edges ← edges_of g.edges (first_of path) path
    let total = weigh weight_zero edges
    some (record {
      path = path;
      pool_indices = pools_of edges;
      directions = directions_of edges;
      total_weight = total;
      profit_multiplier =
          float.pow_two (float.div (float.neg (float.of_i32 total)) float.q16_scale);
    })

  unfoldable pub reconstruct_cycle :
      PriceGraph → ℕ → (ℕ → Pred) → ℕ → Option (Option (ArbCycle float.F))
  reconstruct_cycle g start pred max_hops = do
    inside ← walk_back g.num_tokens pred g.num_tokens start
    elim inside [
      | none ↦ some none
      | some cycle_start ↦ do
        raw_path ← collect g.num_tokens pred (max_hops + 1) cycle_start cycle_start
        some (
            raw_path >>= λ nodes. if ltb (length nodes) 2 then none else cycle_of g (reverse nodes))
    ]
