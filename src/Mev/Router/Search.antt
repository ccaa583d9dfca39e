-- ===== src/Mev/Router/Search.antt =====
-- The route that `find_arbitrage` returns, against the swaps of its two pools.
use the_ai_cowboys_6_shooter.Prelude.{
  ℕ, ◌+◌, ◌^◌, ◌<◌, ◌≤◌, ◌≡◌, ◌≢◌, ◌⊎◌, Option, none, some, List, In,
}
use the_ai_cowboys_6_shooter.Memory.AmmPool.{AmmPool, swap_x_to_y, swap_y_to_x, optimal_arb_input}
use the_ai_cowboys_6_shooter.Mev.Amm.{SwapInstruction}
use the_ai_cowboys_6_shooter.Mev.Bundle.{ArbitrageRoute}
use the_ai_cowboys_6_shooter.Mev.Router.{RouteOptimizer, Best, Numbered, route_of, numbered_from}

-- A route over two of the pools whose two swaps turn an input of at most 100,000 into itself and the
-- profit, which is not below the least one.
pub record Earns (optimizer : RouteOptimizer) (swap : SwapInstruction) (all : List Numbered)
    (route : ArbitrageRoute) (profit : ℕ) : Type 0 where
  pub p : Numbered
  pub q : Numbered
  pub p_there : In p all
  pub q_there : In q all
  pub apart : p.at ≢ q.at
  pub is_route : route ≡ route_of swap p.pool q.pool profit
  pub enough : optimizer.min_profit ≤ profit
  pub positive : 0 < profit
  pub fits : profit < 2 ^ 64
  pub input : ℕ
  pub in_range : (1 ≤ input) × (input ≤ 100_000)
  pub bought : ℕ
  pub buys : swap_x_to_y p.pool input ≡ some bought
  pub sells : swap_y_to_x q.pool bought ≡ some (input + profit)

module _ (optimizer : RouteOptimizer) (swap : SwapInstruction) where
  -- No route yet, or one that earns the profit.
  abbrev pub Sound : List Numbered → Best → Type 0
  Sound all best =
      ((best.route ≡ none) × (best.profit ≡ 0))
      ⊎ ((route : ArbitrageRoute) × (best.route ≡ some route)
          × Earns optimizer swap all route best.profit)

  -- The pair offers nothing better than `profit` that is worth the least profit.
  abbrev pub Beaten : ℕ → Numbered → Numbered → Type 0
  Beaten profit p q =
      p.at ≢ q.at
      → (input gain : ℕ) → optimal_arb_input p.pool q.pool 100_000 ≡ some (input, gain)
      → (gain ≤ profit) ⊎ (gain < optimizer.min_profit)

  record Tried (all : List Numbered) (best best' : Best) : Type 0 where
    sound : Sound all best'
    grows : best.profit ≤ best'.profit

  -- What `find_arbitrage` promises of its result over the pools of the pair: a route earns its
  -- profit, and no two of the pools offer more, or, without a route, none at all worth the least one.
  pub record Chosen (pools : List AmmPool) (o : Option ArbitrageRoute) : Type 0 where
    pub best : ℕ
    pub sound : Sound (numbered_from 0 pools) (record { route = o; profit = best })
    pub beaten :
        (p q : Numbered)
        → In p (numbered_from 0 pools)
        → In q (numbered_from 0 pools)
        → Beaten best p q
