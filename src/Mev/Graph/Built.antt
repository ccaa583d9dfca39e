-- ===== src/Mev/Graph/Built.antt =====
-- The graphs that `build_from_shadow` makes.
use the_ai_cowboys_6_shooter.Prelude.{
  ℕ, zero, suc, ◌+◌, ◌≤◌, ◌<◌, ◌%◌, ◌^◌, ◌≡◌, inl, inr, refl, ap, arith, ◌==◌, if◌then◌else◌, Bool,
  true, false, some, List, [], ◌∷◌, ◌++◌, In, In-append-cases, Bool-cases, Option-cases, lt→ltb,
  some_inj,
}
use the_ai_cowboys_6_shooter.Mev.StateShadow.{StateShadow, max_pools}
use the_ai_cowboys_6_shooter.Mev.Graph.{
  Float64, PriceEdge, PriceGraph, clear, new, find_node, get_or_create_node, add_edge, add_pool,
  build_from, build_from_shadow,
}
use the_ai_cowboys_6_shooter.Mev.Graph.Path.{ArbCycle}
use the_ai_cowboys_6_shooter.Mev.Graph.Cycles.{find_arbitrage_cycles}
use the_ai_cowboys_6_shooter.Mev.Graph.Sorted.{IsSorted}
use the_ai_cowboys_6_shooter.Mev.Graph.Sound.{IsCycle}
use the_ai_cowboys_6_shooter.Mev.Graph.Total.{Inside, find_arbitrage_cycles_lem}

-- Every entry of the table names one of `n` nodes.
Table : ℕ → List (ℕ × ℕ) → Type 0
Table n table = (id idx : ℕ) → In (id, idx) table → idx < n

-- The table and the edges stay among the nodes.
pub record IsGraph (g : PriceGraph) : Type 0 where
  table : Table g.num_tokens g.token_to_node
  pub edges : Inside g.num_tokens g.edges

find_node-In :
    (table : List (ℕ × ℕ)) (token_id idx : ℕ)
    → find_node table token_id ≡ some idx
    → (id : ℕ) × In (id, idx) table
unfolding find_node
find_node-In [] token_id idx e = absurd (cc)
find_node-In ((id, found) ∷ rest) token_id idx e = elim (Bool-cases (id == token_id)) [
  | inl t ↦ let same = some_inj (rw (t, if◌then◌else◌) at e) in (id, inl (rw (same) refl))
  | inr f ↦
      let (id', m) = find_node-In rest token_id idx (rw (f, if◌then◌else◌) at e) in (id', inr m)
]

-- What `get_or_create_node` returns: a node of a graph that keeps the edges and has no fewer nodes.
record Created (g : PriceGraph) (r : ℕ × PriceGraph) : Type 0 where
  node : r.0 < r.1.num_tokens
  grows : g.num_tokens ≤ r.1.num_tokens
  graph : IsGraph r.1

-- One node more than `g` has.
extend-Created :
    (g : PriceGraph) (token_id : ℕ)
    → IsGraph g
    → Created g (
        let idx = g.num_tokens % 2 ^ 16 in
        (
          idx,
          record g {
            token_to_node = g.token_to_node ++ ((token_id, idx) ∷ []);
            num_tokens = g.num_tokens + 1;
          },
        ))
unfolding Table Inside
extend-Created g token_id k = record {
  node = omega arith;
  grows = omega arith;
  graph = record {
    table = λ id idx m. elim (In-append-cases (id, idx) g.token_to_node _ m) [
      | inl l ↦ let below = k.table id idx l in omega (arith, below)
      | inr (inl e) ↦
          let same : idx ≡ g.num_tokens % 2 ^ 16 = ap (λ p. p.1) e in omega (arith, same)
      | inr (inr bad) ↦ absurd bad
    ];
    edges = λ edge m. let (s, d) = k.edges edge m in (omega (arith, s), omega (arith, d));
  };
}

get_or_create_node-Created :
    (g : PriceGraph) (token_id : ℕ) → IsGraph g → Created g (get_or_create_node g token_id)
unfolding get_or_create_node
get_or_create_node-Created g token_id k = elim (Option-cases (find_node g.token_to_node token_id)) [
  | inl e ↦ rw (get_or_create_node, e) (extend-Created g token_id k)
  | inr (idx, e) ↦
      let (id, m) = find_node-In g.token_to_node token_id idx e in
      rw (get_or_create_node, e)
        (record { node = unfold Table in k.table id idx m; grows = omega arith; graph = k })
]

-- One edge more.
append-IsGraph :
    (g : PriceGraph) (edge : PriceEdge)
    → IsGraph g
    → edge.src < g.num_tokens
    → edge.dst < g.num_tokens
    → IsGraph (record g { edges = g.edges ++ (edge ∷ []) })
unfolding Inside
append-IsGraph g edge k s d = record {
  table = k.table;
  edges = λ e m. elim (In-append-cases e g.edges (edge ∷ []) m) [
    | inl l ↦ k.edges e l
    | inr (inl same) ↦ rw (same) (s, d)
    | inr (inr bad) ↦ absurd bad
  ];
}

module _ (float : Float64) where
  add_edge-IsGraph :
      (g : PriceGraph) (src_token dst_token pool_idx : ℕ) (rate : float.F) (x_to_y : Bool)
      → IsGraph g
      → IsGraph (add_edge float g src_token dst_token pool_idx rate x_to_y)
  unfolding add_edge
  add_edge-IsGraph g src_token dst_token pool_idx rate x_to_y k =
      elim (Bool-cases (float.le rate float.zero_float)) [
        | inl e ↦ rw (e, if◌then◌else◌) k
        | inr e ↦
            let s = get_or_create_node-Created g src_token k in
            let d =
              get_or_create_node-Created ((get_or_create_node g src_token).1) dst_token s.graph in
            rw (e, if◌then◌else◌)
              (append-IsGraph
                ((get_or_create_node ((get_or_create_node g src_token).1) dst_token).1) _ d.graph
                (omega (arith, s.node, d.grows)) d.node)
      ]

  add_pool-IsGraph :
      (g : PriceGraph) (shadow : StateShadow) (i : ℕ)
      → IsGraph g
      → IsGraph (add_pool float g shadow i)
  unfolding add_pool
  add_pool-IsGraph g shadow i k = elim (Bool-cases (shadow.active i == 0)) [
    | inl e ↦ rw (e, if◌then◌else◌) k
    | inr e ↦
        elim (Bool-cases (float.eq (float.of_u128 (shadow.spec_reserve_x i)) float.zero_float)) [
          | inl x ↦ rw (e, if◌then◌else◌, x) k
          | inr x ↦
              elim (Bool-cases
                (float.eq (float.of_u128 (shadow.spec_reserve_y i)) float.zero_float)) [
                  | inl y ↦ rw (e, if◌then◌else◌, x, y) k
                  | inr y ↦
                      rw (e, if◌then◌else◌, x, y)
                        (add_edge-IsGraph _ _ _ _ _ false (add_edge-IsGraph g _ _ _ _ true k))
                ]
        ]
  ]

  build_from-IsGraph :
      (rounds i : ℕ) (g : PriceGraph) (shadow : StateShadow)
      → rounds + i ≤ max_pools
      → IsGraph g
      → (out : PriceGraph) × (build_from float rounds i g shadow ≡ some out) × IsGraph out
  unfolding build_from
  build_from-IsGraph zero i g shadow h k = (g, refl, k)
  build_from-IsGraph (suc rounds) i g shadow h k =
      let inside = lt→ltb i max_pools (omega (arith, h)) in
      let (out, e, keep) =
        build_from-IsGraph rounds (i + 1) (add_pool float g shadow i) shadow (omega (arith, h))
          (add_pool-IsGraph g shadow i k) in
      (out, rw (build_from, inside) e, keep)

  new-IsGraph : IsGraph new
  unfolding new Table Inside
  new-IsGraph = record { table = λ id idx m. absurd m; edges = λ edge m. absurd m }

  pub build_from_shadow-IsGraph :
      (g : PriceGraph) (shadow : StateShadow)
      → shadow.pool_count ≤ max_pools
      → (out : PriceGraph) × (build_from_shadow float g shadow ≡ some out) × IsGraph out
  unfolding build_from_shadow clear
  build_from_shadow-IsGraph g shadow h =
      build_from-IsGraph shadow.pool_count 0 new shadow (omega (arith, h)) new-IsGraph

  -- On a shadow that holds at most 4096 pools, building the graph and then searching it never
  -- panics, and the search returns cycles of the graph that was built, in the order of their weights.
  pub build_from_shadow-find_arbitrage_cycles :
      (g : PriceGraph) (shadow : StateShadow) (max_hops : ℕ)
      → shadow.pool_count ≤ max_pools
      → (built : PriceGraph) × (build_from_shadow float g shadow ≡ some built)
        × ((out : List (ArbCycle float.F)) × (find_arbitrage_cycles float built max_hops ≡ some out)
            × IsSorted float out
            × ((c : ArbCycle float.F) → In c out → IsCycle built max_hops c))
  build_from_shadow-find_arbitrage_cycles g shadow max_hops h =
      let (built, e, k) = build_from_shadow-IsGraph g shadow h in
      (built, e, find_arbitrage_cycles_lem float built max_hops k.edges)
