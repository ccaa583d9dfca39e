-- ===== src/Mev/Graph/Sound.antt =====
-- The cycles that the graph reports, against its edges.
use mathlib.Core.List.{reverse, reverse_aux}
use mathlib.Core.Path.{subst}
use the_ai_cowboys_6_shooter.Prelude.{
  ℕ, zero, suc, ◌+◌, ◌-◌, ◌≤◌, ◌≡◌, inl, inr, refl, sym, ap, ◌∙◌, arith, min, ltb, ◌==◌, ◌||◌,
  if◌then◌else◌, Bool, true, false, Option, none, some, ◌>>=◌, List, [], ◌∷◌, length, In,
  In-append-cases, Bool-cases, some_inj, bind_inv, ltb_false→le,
}
use the_ai_cowboys_6_shooter.Mev.Graph.{Float64, PriceEdge, PriceGraph, weight_zero}
use the_ai_cowboys_6_shooter.Mev.Graph.Path.{
  Pred, ArbCycle, edges_of, pools_of, directions_of, weigh, first_of, walk_back, collect, pred_at,
  cycle_of, reconstruct_cycle,
}
use the_ai_cowboys_6_shooter.Mev.Graph.Cycles.{
  Paths, relax_passes, start_at, shortens, add_cycle, dominated, detect, from_sources,
  find_arbitrage_cycles,
}
use the_ai_cowboys_6_shooter.Mev.Graph.BestEdge.{Links, edges_of-Links}
use the_ai_cowboys_6_shooter.Mev.Graph.Sorted.{IsSorted, sort_by_weight-In, sort_by_weight-IsSorted}

-- A cycle of the graph: lightest edges from each of its nodes to the next, at least two and at most
-- one more than `max_hops`, with the pools and directions of the edges and their saturated sum.
pub record IsCycle {F : Type 0} (g : PriceGraph) (max_hops : ℕ) (c : ArbCycle F) : Type 0 where
  pub edges : List PriceEdge
  pub links : Links g.edges (first_of c.path) c.path edges
  pub long : 2 ≤ length c.path
  pub short : length c.path ≤ max_hops + 1
  pub pools : c.pool_indices ≡ pools_of edges
  pub directions : c.directions ≡ directions_of edges
  pub weight : c.total_weight ≡ weigh weight_zero edges

length-reverse_aux : (xs ys : List ℕ) → length (reverse_aux xs ys) ≡ length xs + length ys
length-reverse_aux [] ys = omega arith
length-reverse_aux (x ∷ xs) ys = omega (arith, length-reverse_aux xs (x ∷ ys))

length-reverse : (xs : List ℕ) → length (reverse xs) ≡ length xs
length-reverse xs = omega (arith, length-reverse_aux xs [])

collect-short :
    (n : ℕ) (pred : ℕ → Pred) (rounds cycle_start node : ℕ) {nodes : List ℕ}
    → collect n pred rounds cycle_start node ≡ some (some nodes)
    → length nodes ≤ rounds
unfolding collect
collect-short n pred zero cycle_start node e = absurd (ground (arith, e))
collect-short n pred (suc rounds) cycle_start node {nodes} e =
    let (p, at, more) = bind_inv (pred_at n pred node) _ e in
    elim (Bool-cases (p.prev == cycle_start)) [
      | inl last ↦
          let f = rw (last, if◌then◌else◌) at more in
          let same : node ∷ [] ≡ nodes = some_inj (some_inj f) in rw (← same) (omega arith)
      | inr on ↦
          let f = rw (on, if◌then◌else◌) at more in
          let (rest, go, g) = bind_inv (collect n pred rounds cycle_start p.prev) _ f in
          let (nodes', h, k) = bind_inv rest _ (some_inj g) in
          let same : node ∷ nodes' ≡ nodes = some_inj k in
          let shorter =
            collect-short n pred rounds cycle_start p.prev {nodes = nodes'} (go ∙ ap some h) in
          rw (← same) (omega (arith, shorter))
    ]

module _ (float : Float64) where
  cycle_of-IsCycle :
      (g : PriceGraph) (max_hops : ℕ) (path : List ℕ) {c : ArbCycle float.F}
      → 2 ≤ length path
      → length path ≤ max_hops + 1
      → cycle_of float g path ≡ some c
      → IsCycle g max_hops c
  unfolding cycle_of
  cycle_of-IsCycle g max_hops path long short e =
      let (edges, found, last) = bind_inv (edges_of g.edges (first_of path) path) _ e in
      subst (IsCycle g max_hops) (some_inj last) (record {
        edges = edges;
        links = edges_of-Links g.edges (first_of path) path found;
        long = long;
        short = short;
        pools = refl;
        directions = refl;
        weight = refl;
      })

  nodes-IsCycle :
      (g : PriceGraph) (pred : ℕ → Pred) (max_hops cycle_start : ℕ) (raw_path : Option (List ℕ))
      {c : ArbCycle float.F}
      → collect g.num_tokens pred (max_hops + 1) cycle_start cycle_start ≡ some raw_path
      → (raw_path >>= λ nodes.
          if ltb (length nodes) 2 then none else cycle_of float g (reverse nodes))
        ≡ some c
      → IsCycle g max_hops c
  nodes-IsCycle g pred max_hops cycle_start raw_path collected e =
      let (nodes, there, f) = bind_inv raw_path _ e in
      let short =
        collect-short g.num_tokens pred (max_hops + 1) cycle_start cycle_start {nodes = nodes}
          (collected ∙ ap some there) in
      let size = length-reverse nodes in
      elim (Bool-cases (ltb (length nodes) 2)) [
        | inl few ↦ absurd (ground (arith, few, f))
        | inr more ↦
            cycle_of-IsCycle g max_hops (reverse nodes)
              (omega (arith, size, ltb_false→le (length nodes) 2 more)) (omega (arith, size, short))
              (rw (more, if◌then◌else◌) at f)
      ]

  reconstruct_cycle-IsCycle :
      (g : PriceGraph) (start : ℕ) (pred : ℕ → Pred) (max_hops : ℕ) {c : ArbCycle float.F}
      → reconstruct_cycle float g start pred max_hops ≡ some (some c)
      → IsCycle g max_hops c
  unfolding reconstruct_cycle
  reconstruct_cycle-IsCycle g start pred max_hops {c} e =
      let (inside, walked, more) = bind_inv (walk_back g.num_tokens pred g.num_tokens start) _ e in
      turn inside more
    where
      turn :
          (inside : Option ℕ)
          → elim inside [
            | none ↦ some none
            | some cycle_start ↦ do
              raw_path ← collect g.num_tokens pred (max_hops + 1) cycle_start cycle_start
              some (
                  raw_path >>= λ nodes.
                  if ltb (length nodes) 2 then none else cycle_of float g (reverse nodes))
          ]
            ≡ some (some c)
          → IsCycle g max_hops c
      turn none f = absurd (ground (arith, f))
      turn (some cycle_start) f =
          let (raw_path, collected, h) =
            bind_inv (collect g.num_tokens pred (max_hops + 1) cycle_start cycle_start) _ f in
          nodes-IsCycle g pred max_hops cycle_start raw_path collected (some_inj h)

  abbrev AllCycles : PriceGraph → ℕ → List (ArbCycle float.F) → Type 0
  AllCycles g max_hops cycles = (c : ArbCycle float.F) → In c cycles → IsCycle g max_hops c

  add_cycle-AllCycles :
      (g : PriceGraph) (max_hops : ℕ) (cycles : List (ArbCycle float.F))
      (found : Option (ArbCycle float.F))
      → AllCycles g max_hops cycles
      → ((c : ArbCycle float.F) → found ≡ some c → IsCycle g max_hops c)
      → AllCycles g max_hops (add_cycle float cycles found)
  add_cycle-AllCycles g max_hops cycles none all new c = all c
  add_cycle-AllCycles g max_hops cycles (some x) all new c =
      elim (Bool-cases (dominated float cycles x)) [
        | inl e ↦ rw (e, if◌then◌else◌) (all c)
        | inr e ↦
            rw (e, if◌then◌else◌)
              (λ m. elim (In-append-cases c cycles (x ∷ []) m) [
                | inl l ↦ all c l
                | inr (inl same) ↦ new c (ap some (sym same))
                | inr (inr bad) ↦ absurd bad
              ])
      ]

  detect-AllCycles :
      (g : PriceGraph) (max_hops : ℕ) (p : Paths) (edges : List PriceEdge)
      (cycles : List (ArbCycle float.F)) {out : List (ArbCycle float.F)}
      → AllCycles g max_hops cycles
      → detect float g max_hops p edges cycles ≡ some out
      → AllCycles g max_hops out
  unfolding detect
  detect-AllCycles g max_hops p [] cycles all e = subst (AllCycles g max_hops) (some_inj e) all
  detect-AllCycles g max_hops p (edge ∷ edges) cycles {out} all e =
      let (shorter, _, f) = bind_inv (shortens g.num_tokens p edge) _ e in
      turn shorter (λ more a h. detect-AllCycles g max_hops p edges more a h) f
    where
      turn :
          (shorter : Bool)
          → ((more : List (ArbCycle float.F))
              → AllCycles g max_hops more
              → detect float g max_hops p edges more ≡ some out
              → AllCycles g max_hops out)
          → elim shorter [
            | true ↦ do
              found ← reconstruct_cycle float g edge.dst p.pred max_hops
              detect float g max_hops p edges (add_cycle float cycles found)
            | false ↦ detect float g max_hops p edges cycles
          ]
            ≡ some out
          → AllCycles g max_hops out
      turn false again f = again cycles all f
      turn true again f =
          let (found, r, h) = bind_inv (reconstruct_cycle float g edge.dst p.pred max_hops) _ f in
          again (add_cycle float cycles found)
            (add_cycle-AllCycles g max_hops cycles found all
              (λ c s. reconstruct_cycle-IsCycle g edge.dst p.pred max_hops (r ∙ ap some s)))
            h

  from_sources-AllCycles :
      (g : PriceGraph) (max_hops rounds source : ℕ) (cycles : List (ArbCycle float.F))
      {out : List (ArbCycle float.F)}
      → AllCycles g max_hops cycles
      → from_sources float g max_hops rounds source cycles ≡ some out
      → AllCycles g max_hops out
  unfolding from_sources
  from_sources-AllCycles g max_hops zero source cycles all e =
      subst (AllCycles g max_hops) (some_inj e) all
  from_sources-AllCycles g max_hops (suc rounds) source cycles all e =
      let (p, _, f) =
        bind_inv
          (relax_passes g.num_tokens g.edges (min (g.num_tokens - 1) max_hops) (start_at source)) _
          e in
      let (more, d, h) = bind_inv (detect float g max_hops p g.edges cycles) _ f in
      from_sources-AllCycles g max_hops rounds (source + 1) more
        (detect-AllCycles g max_hops p g.edges cycles all d) h

  pub find_arbitrage_cycles_sound :
      (g : PriceGraph) (max_hops : ℕ) {out : List (ArbCycle float.F)}
      → find_arbitrage_cycles float g max_hops ≡ some out
      → IsSorted float out × ((c : ArbCycle float.F) → In c out → IsCycle g max_hops c)
  unfolding find_arbitrage_cycles IsSorted
  find_arbitrage_cycles_sound g max_hops {out} e =
      elim (Bool-cases (g.num_tokens == 0 || length g.edges == 0)) [
        | inl trivial ↦
            let f = rw (trivial, if◌then◌else◌) at e in
            subst (λ o. IsSorted float o × ((c : ArbCycle float.F) → In c o → IsCycle g max_hops c))
              (some_inj f) (tt, λ c m. absurd m)
        | inr run ↦
            let f = rw (run, if◌then◌else◌) at e in
            let (cycles, found, last) =
              bind_inv (from_sources float g max_hops (min g.num_tokens 512) 0 []) _ f in
            let all =
              from_sources-AllCycles g max_hops (min g.num_tokens 512) 0 [] (λ c m. absurd m)
                found in
            subst (λ o. IsSorted float o × ((c : ArbCycle float.F) → In c o → IsCycle g max_hops c))
              (some_inj last)
              (
                sort_by_weight-IsSorted float cycles,
                λ c m. all c (sort_by_weight-In float c cycles m),
              )
      ]
