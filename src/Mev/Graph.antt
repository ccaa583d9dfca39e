-- ===== src/Mev/Graph.antt =====
-- src/mev/graph.rs: the price graph. An `i32` is its distance above the least one, so that the
-- order of the numbers is that of the weights. The floating-point operations are a parameter;
-- `none` is a panic.
pub mod BestEdge
pub mod Built
pub mod Cycles
pub mod Path
pub mod Sorted
pub mod Sound
pub mod Total
pub mod Walk
pub mod Tests
use the_ai_cowboys_6_shooter.Prelude.{
  ℕ, zero, suc, ◌+◌, ◌-◌, ◌%◌, ◌^◌, min, ltb, ◌==◌, ◌&&◌, if◌then◌else◌, Bool, true, false, Option,
  none, some, ◌>>=◌, List, [], ◌∷◌, ◌++◌, length,
}
use the_ai_cowboys_6_shooter.Mev.StateShadow.{StateShadow, max_pools}

-- The operations on `f64` that the graph is built with.
pub record Float64 : Type 1 where
  pub F : Type 0
  pub one : F
  pub zero_float : F
  pub q16_scale : F
  pub of_u128 : ℕ → F
  pub of_i32 : ℕ → F
  pub to_i32 : F → ℕ
  pub neg : F → F
  pub sub : F → F → F
  pub mul : F → F → F
  pub div : F → F → F
  pub log2 : F → F
  pub pow_two : F → F
  pub eq : F → F → Bool
  pub le : F → F → Bool

-- The `i32` 0, and `i32::MAX / 2`.
abbrev pub weight_zero : ℕ
weight_zero = 2 ^ 31

abbrev pub infinity : ℕ
infinity = 2 ^ 31 + 1_073_741_823

-- `saturating_add` on `i32`.
abbrev pub saturating_add : ℕ → ℕ → ℕ
saturating_add a b = min (2 ^ 32 - 1) (a + b - 2 ^ 31)

pub record PriceEdge : Type 0 where
  pub src : ℕ
  pub dst : ℕ
  pub pool_idx : ℕ
  pub weight : ℕ
  pub x_to_y : Bool

pub record PriceGraph : Type 0 where
  pub edges : List PriceEdge
  pub num_tokens : ℕ
  pub token_to_node : List (ℕ × ℕ)

unfoldable pub new : PriceGraph
new = record { edges = []; num_tokens = 0; token_to_node = [] }

unfoldable pub clear : PriceGraph → PriceGraph
clear g = new

-- The scan of `get_or_create_node`.
unfoldable pub find_node : List (ℕ × ℕ) → ℕ → Option ℕ
find_node [] token_id = none
find_node ((id, idx) ∷ rest) token_id = if id == token_id then some idx else find_node rest token_id

unfoldable pub get_or_create_node : PriceGraph → ℕ → ℕ × PriceGraph
get_or_create_node g token_id = elim (find_node g.token_to_node token_id) [
  | some idx ↦ (idx, g)
  | none ↦
      let idx = g.num_tokens % 2 ^ 16 in
      (
        idx,
        record g {
          token_to_node = g.token_to_node ++ ((token_id, idx) ∷ []);
          num_tokens = g.num_tokens + 1;
        },
      )
]

module _ (float : Float64) where
  abbrev pub weight_of : float.F → ℕ
  weight_of rate = float.to_i32 (float.mul (float.neg (float.log2 rate)) float.q16_scale)

  unfoldable pub add_edge : PriceGraph → ℕ → ℕ → ℕ → float.F → Bool → PriceGraph
  add_edge g src_token dst_token pool_idx rate x_to_y =
      if float.le rate float.zero_float
      then g
      else (let s = get_or_create_node g src_token in
          let d = get_or_create_node (s.1) dst_token in
          record d.1 {
            edges =
                d.1.edges
                ++ (record {
                  src = s.0;
                  dst = d.0;
                  pool_idx = pool_idx;
                  weight = weight_of rate;
                  x_to_y = x_to_y;
                }
                    ∷ []);
          })

  -- The body of the loop of `build_from_shadow`.
  unfoldable pub add_pool : PriceGraph → StateShadow → ℕ → PriceGraph
  add_pool g shadow i =
      let rx = float.of_u128 (shadow.spec_reserve_x i) in
      let ry = float.of_u128 (shadow.spec_reserve_y i) in
      let fee = float.div (float.of_u128 (shadow.fee_num i)) (float.of_u128 (shadow.fee_den i)) in
      let fee_complement = float.sub float.one fee in
      let x = shadow.token_x_id i in
      let y = shadow.token_y_id i in
      let pool_idx = i % 2 ^ 16 in
      if shadow.active i == 0
      then g
      else (if float.eq rx float.zero_float
          then g
          else (if float.eq ry float.zero_float
              then g
              else add_edge
                  (add_edge g x y pool_idx (float.mul (float.div ry rx) fee_complement) true) y x
                  pool_idx (float.mul (float.div rx ry) fee_complement) false))

  unfoldable pub build_from : ℕ → ℕ → PriceGraph → StateShadow → Option PriceGraph
  build_from zero i g shadow = some g
  build_from (suc rounds) i g shadow = elim (ltb i max_pools) [
    | true ↦ build_from rounds (i + 1) (add_pool g shadow i) shadow
    | false ↦ none
  ]

  unfoldable pub build_from_shadow : PriceGraph → StateShadow → Option PriceGraph
  build_from_shadow g shadow = build_from shadow.pool_count 0 (clear g) shadow

pub edge_count : PriceGraph → ℕ
edge_count g = length g.edges

pub token_count : PriceGraph → ℕ
token_count g = g.num_tokens
