-- ===== src/Mev/Graph/Total.antt =====
-- The search of `find_arbitrage_cycles` in a graph whose edges join its own nodes.
use the_ai_cowboys_6_shooter.Prelude.{
  ℕ, zero, suc, ◌+◌, ◌-◌, ◌<◌, ◌≡◌, inl, inr, refl, min, ltb, ◌==◌, ◌||◌, if◌then◌else◌, Bool, true,
  false, Option, none, some, ◌>>=◌, List, [], ◌∷◌, length, In, Bool-cases, lt→ltb,
}
use the_ai_cowboys_6_shooter.Mev.Graph.{Float64, PriceEdge, PriceGraph, infinity, saturating_add}
use the_ai_cowboys_6_shooter.Mev.Graph.Path.{Pred, ArbCycle, cycle_of, reconstruct_cycle}
use mathlib.Core.List.{reverse}
use the_ai_cowboys_6_shooter.Mev.Graph.Cycles.{
  Paths, relax_edges, relax_passes, relaxed, start_at, shortens, add_cycle, detect, from_sources,
  sort_by_weight, find_arbitrage_cycles,
}
use the_ai_cowboys_6_shooter.Mev.Graph.Walk.{HasNodes, walks_total}
use the_ai_cowboys_6_shooter.Mev.Graph.Sorted.{IsSorted}
use the_ai_cowboys_6_shooter.Mev.Graph.Sound.{IsCycle, find_arbitrage_cycles_sound}

-- Every edge joins two of `n` nodes.
unfoldable pub Inside : ℕ → List PriceEdge → Type 0
Inside n edges = (edge : PriceEdge) → In edge edges → (edge.src < n) × (edge.dst < n)

Inside-tail :
    (n : ℕ) (edge : PriceEdge) (edges : List PriceEdge) → Inside n (edge ∷ edges) → Inside n edges
unfolding Inside
Inside-tail n edge edges inside e m = inside e (inr m)

shortens_total :
    (n : ℕ) (p : Paths) (edge : PriceEdge)
    → edge.src < n
    → edge.dst < n
    → (b : Bool) × (shortens n p edge ≡ some b)
unfolding shortens
shortens_total n p edge s d =
    let src = lt→ltb edge.src n s in
    let dst = lt→ltb edge.dst n d in
    elim (Bool-cases (ltb (p.dist edge.src) infinity)) [
      | inl e ↦ (
        ltb (saturating_add (p.dist edge.src) edge.weight) (p.dist edge.dst),
        rw (shortens, src, if◌then◌else◌, e, dst) refl,
      )
      | inr e ↦ (false, rw (shortens, src, if◌then◌else◌, e) refl)
    ]

relaxed-HasNodes :
    (n : ℕ) (p : Paths) (edge : PriceEdge)
    → edge.src < n
    → HasNodes n p.pred
    → HasNodes n (relaxed p edge).pred
unfolding HasNodes
relaxed-HasNodes n p edge s nodes v h = elim (Bool-cases (v == edge.dst)) [
  | inl e ↦ rw (e, if◌then◌else◌) (inr s)
  | inr e ↦ rw (e, if◌then◌else◌) (nodes v h)
]

relax_edges_total :
    (n : ℕ) (edges : List PriceEdge) (p : Paths) (updated : Bool)
    → Inside n edges
    → HasNodes n p.pred
    → (q : Paths) × (b : Bool) × (relax_edges n edges p updated ≡ some (q, b)) × HasNodes n q.pred
unfolding relax_edges Inside
relax_edges_total n [] p updated inside nodes = (p, updated, refl, nodes)
relax_edges_total n (edge ∷ edges) p updated inside nodes =
    let (s, d) = inside edge (inl refl) in
    let rest = Inside-tail n edge edges inside in
    let (b, e) = shortens_total n p edge s d in
    elim (Bool-cases b) [
      | inl t ↦
          let (q, u, go, keep) =
            relax_edges_total n edges (relaxed p edge) true rest
              (relaxed-HasNodes n p edge s nodes) in
          (q, u, rw (e, ◌>>=◌, t) go, keep)
      | inr f ↦
          let (q, u, go, keep) = relax_edges_total n edges p updated rest nodes in
          (q, u, rw (e, ◌>>=◌, f) go, keep)
    ]

relax_passes_total :
    (n : ℕ) (edges : List PriceEdge) (passes : ℕ) (p : Paths)
    → Inside n edges
    → HasNodes n p.pred
    → (q : Paths) × (relax_passes n edges passes p ≡ some q) × HasNodes n q.pred
unfolding relax_passes
relax_passes_total n edges zero p inside nodes = (p, refl, nodes)
relax_passes_total n edges (suc passes) p inside nodes =
    let (q, b, e, keep) = relax_edges_total n edges p false inside nodes in
    elim (Bool-cases b) [
      | inl t ↦
          let (r, go, kept) = relax_passes_total n edges passes q inside keep in
          (r, rw (e, ◌>>=◌, t) go, kept)
      | inr f ↦ (q, rw (e, ◌>>=◌, f) refl, keep)
    ]

module _ (float : Float64) where
  reconstruct_cycle_total :
      (g : PriceGraph) (start : ℕ) (pred : ℕ → Pred) (max_hops : ℕ)
      → HasNodes g.num_tokens pred
      → start < g.num_tokens
      → (found : Option (ArbCycle float.F)) × (reconstruct_cycle float g start pred max_hops
          ≡ some found)
  unfolding reconstruct_cycle
  reconstruct_cycle_total g start pred max_hops nodes h =
      elim (walks_total g.num_tokens pred nodes start max_hops h) [
        | inl stop ↦ (none, rw (stop, ◌>>=◌) refl)
        | inr (at, go, (found, collected)) ↦ (
          found >>= λ nodes.
              if ltb (length nodes) 2 then none else cycle_of float g (reverse nodes),
          rw (go, ◌>>=◌, collected) refl,
        )
      ]

  detect_total :
      (g : PriceGraph) (max_hops : ℕ) (p : Paths) (edges : List PriceEdge)
      (cycles : List (ArbCycle float.F))
      → Inside g.num_tokens edges
      → HasNodes g.num_tokens p.pred
      → (out : List (ArbCycle float.F)) × (detect float g max_hops p edges cycles ≡ some out)
  unfolding detect Inside
  detect_total g max_hops p [] cycles inside nodes = (cycles, refl)
  detect_total g max_hops p (edge ∷ edges) cycles inside nodes =
      let (s, d) = inside edge (inl refl) in
      let rest = Inside-tail g.num_tokens edge edges inside in
      let (b, e) = shortens_total g.num_tokens p edge s d in
      elim (Bool-cases b) [
        | inl t ↦
            let (found, r) = reconstruct_cycle_total g edge.dst p.pred max_hops nodes d in
            let (out, go) =
              detect_total g max_hops p edges (add_cycle float cycles found) rest nodes in
            (out, rw (e, ◌>>=◌, t, r) go)
        | inr f ↦
            let (out, go) = detect_total g max_hops p edges cycles rest nodes in
            (out, rw (e, ◌>>=◌, f) go)
      ]

  from_sources_total :
      (g : PriceGraph) (max_hops rounds source : ℕ) (cycles : List (ArbCycle float.F))
      → Inside g.num_tokens g.edges
      → (out : List (ArbCycle float.F)) × (from_sources float g max_hops rounds source cycles
          ≡ some out)
  unfolding from_sources
  from_sources_total g max_hops zero source cycles inside = (cycles, refl)
  from_sources_total g max_hops (suc rounds) source cycles inside =
      let empty : HasNodes g.num_tokens (start_at source).pred =
        (unfold HasNodes in λ v h. inl refl) in
      let (p, e, nodes) =
        relax_passes_total g.num_tokens g.edges (min (g.num_tokens - 1) max_hops) (start_at source)
          inside empty in
      let (more, d) = detect_total g max_hops p g.edges cycles inside nodes in
      let (out, go) = from_sources_total g max_hops rounds (source + 1) more inside in
      (out, rw (e, ◌>>=◌, d) go)

  find_arbitrage_cycles_total :
      (g : PriceGraph) (max_hops : ℕ)
      → Inside g.num_tokens g.edges
      → (out : List (ArbCycle float.F)) × (find_arbitrage_cycles float g max_hops ≡ some out)
  unfolding find_arbitrage_cycles
  find_arbitrage_cycles_total g max_hops inside =
      elim (Bool-cases (g.num_tokens == 0 || length g.edges == 0)) [
        | inl e ↦ ([], rw (e, if◌then◌else◌) refl)
        | inr e ↦
            let (cycles, go) = from_sources_total g max_hops (min g.num_tokens 512) 0 [] inside in
            (sort_by_weight float cycles, rw (e, if◌then◌else◌, go, ◌>>=◌) refl)
      ]

  -- In a graph whose edges join its own nodes the search never panics, and what it returns is
  -- sorted by weight and made of cycles of the graph.
  pub find_arbitrage_cycles_lem :
      (g : PriceGraph) (max_hops : ℕ)
      → Inside g.num_tokens g.edges
      → (out : List (ArbCycle float.F)) × (find_arbitrage_cycles float g max_hops ≡ some out)
        × IsSorted float out
        × ((c : ArbCycle float.F) → In c out → IsCycle g max_hops c)
  find_arbitrage_cycles_lem g max_hops inside =
      let (out, e) = find_arbitrage_cycles_total g max_hops inside in
      let (sorted, all) = find_arbitrage_cycles_sound float g max_hops e in (out, e, sorted, all)
