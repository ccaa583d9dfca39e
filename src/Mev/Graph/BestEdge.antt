-- ===== src/Mev/Graph/BestEdge.antt =====
-- The edges that `reconstruct_cycle` takes: the lightest ones along the path.

use mathlib.Core.Path.{subst}
use the_ai_cowboys_6_shooter.Prelude.{
  ℕ, ◌≤◌, ◌≡◌, ◌⊎◌, inl, inr, refl, sym, ◌∙◌, arith, ltb, ◌==◌, ◌&&◌, if◌then◌else◌, true, Option,
  none, some, List, [], ◌∷◌, In, Bool-cases, some_inj, bind_inv,
}
use the_ai_cowboys_6_shooter.Mev.Graph.{PriceEdge}
use the_ai_cowboys_6_shooter.Mev.Graph.Path.{best_edge, edges_of}

-- `edge` leads from `src` to `dst`.
pub record Joins (src dst : ℕ) (edge : PriceEdge) : Type 0 where
  pub from_src : edge.src ≡ src
  pub to_dst : edge.dst ≡ dst

-- `edge` is one of `edges`, leads from `src` to `dst`, and no other that does is lighter.
pub record IsLightest (edges : List PriceEdge) (src dst : ℕ) (edge : PriceEdge) : Type 0 where
  pub among : In edge edges
  pub joins : Joins src dst edge
  pub least :
      (other : PriceEdge) → In other edges → Joins src dst other → edge.weight ≤ other.weight

-- What the scan over `edges` makes of the best edge so far.
record Scanned (edges : List PriceEdge) (src dst : ℕ) (best : Option PriceEdge) (edge : PriceEdge)
    : Type 0 where
  origin : (best ≡ some edge) ⊎ (In edge edges × Joins src dst edge)
  least : (other : PriceEdge) → In other edges → Joins src dst other → edge.weight ≤ other.weight
  improves : (b : PriceEdge) → best ≡ some b → edge.weight ≤ b.weight

take-Scanned :
    (edges : List PriceEdge) (src dst : ℕ) (best : Option PriceEdge) (x : PriceEdge)
    {edge : PriceEdge}
    → Joins src dst x
    → ((b : PriceEdge) → best ≡ some b → x.weight ≤ b.weight)
    → Scanned edges src dst (some x) edge
    → Scanned (x ∷ edges) src dst best edge
take-Scanned edges src dst best x {edge} j lower s = record {
  origin = elim s.origin [
    | inl e ↦ inr (inl (sym (some_inj e)), subst (Joins src dst) (some_inj e) j)
    | inr (m, k) ↦ inr (inr m, k)
  ];
  least = λ other m k. elim m [ inl e ↦ rw (e) (s.improves x refl) | inr m ↦ s.least other m k ];
  improves = λ b e. omega (arith, s.improves x refl, lower b e);
}

skip-Scanned :
    (edges : List PriceEdge) (src dst : ℕ) (best : Option PriceEdge) (x : PriceEdge)
    {edge : PriceEdge}
    → (Joins src dst x → (b : PriceEdge) × (best ≡ some b) × (b.weight ≤ x.weight))
    → Scanned edges src dst best edge
    → Scanned (x ∷ edges) src dst best edge
skip-Scanned edges src dst best x {edge} lower s = record {
  origin = elim s.origin [ inl e ↦ inl e | inr (m, k) ↦ inr (inr m, k) ];
  least = λ other m k. elim m [
    | inl e ↦
        let (b, f, l) = lower (subst (Joins src dst) e k) in
        rw (e) (omega (arith, s.improves b f, l))
    | inr m ↦ s.least other m k
  ];
  improves = s.improves;
}

best_edge-Scanned :
    (edges : List PriceEdge) (src dst : ℕ) (best : Option PriceEdge) {edge : PriceEdge}
    → best_edge edges src dst best ≡ some edge
    → Scanned edges src dst best edge
unfolding best_edge
best_edge-Scanned [] src dst best {edge} e = record {
  origin = inl e;
  least = λ other m j. absurd m;
  improves = λ b f. let same : edge ≡ b = some_inj (sym e ∙ f) in rw (same) (omega arith);
}
best_edge-Scanned (x ∷ edges) src dst none {edge} e =
    elim (Bool-cases (x.src == src && x.dst == dst && true)) [
      | inl taken ↦
          take-Scanned edges src dst none x
            (record { from_src = ground (arith, taken); to_dst = ground (arith, taken) })
            (λ b f. absurd (cc))
            (best_edge-Scanned edges src dst (some x) (rw (taken, if◌then◌else◌) at e))
      | inr left ↦
          skip-Scanned edges src dst none x
            (λ j. absurd (ground (arith, left, j.from_src, j.to_dst)))
            (best_edge-Scanned edges src dst none (rw (left, if◌then◌else◌) at e))
    ]
best_edge-Scanned (x ∷ edges) src dst (some b) {edge} e =
    elim (Bool-cases (x.src == src && x.dst == dst && ltb x.weight b.weight)) [
      | inl taken ↦
          take-Scanned edges src dst (some b) x
            (record { from_src = ground (arith, taken); to_dst = ground (arith, taken) })
            (λ c f. let same : b ≡ c = some_inj f in rw (← same) (ground (arith, taken)))
            (best_edge-Scanned edges src dst (some x) (rw (taken, if◌then◌else◌) at e))
      | inr left ↦
          skip-Scanned edges src dst (some b) x
            (λ j. (b, refl, ground (arith, left, j.from_src, j.to_dst)))
            (best_edge-Scanned edges src dst (some b) (rw (left, if◌then◌else◌) at e))
    ]

pub best_edge-IsLightest :
    (edges : List PriceEdge) (src dst : ℕ) {edge : PriceEdge}
    → best_edge edges src dst none ≡ some edge
    → IsLightest edges src dst edge
best_edge-IsLightest edges src dst e =
    let s = best_edge-Scanned edges src dst none e in
    elim s.origin [
      | inl f ↦ absurd (cc)
      | inr (m, j) ↦ record { among = m; joins = j; least = s.least }
    ]

-- One lightest edge for each node of the path and its successor, the first after the last.
pub Links : List PriceEdge → ℕ → List ℕ → List PriceEdge → Type 0
Links edges first [] [] = Unit
Links edges first [] (x ∷ xs) = ⊥
Links edges first (src ∷ rest) [] = ⊥
Links edges first (src ∷ rest) (x ∷ xs) =
    IsLightest edges src (elim rest [ [] ↦ first | dst ∷ _ ↦ dst ]) x × Links edges first rest xs

pub edges_of-Links :
    (edges : List PriceEdge) (first : ℕ) (path : List ℕ) {found : List PriceEdge}
    → edges_of edges first path ≡ some found
    → Links edges first path found
unfolding edges_of Links
edges_of-Links edges first [] {found} e = subst (Links edges first []) (some_inj e) tt
edges_of-Links edges first (src ∷ rest) {found} e =
    let (x, f, more) = bind_inv (best_edge edges src _ none) _ e in
    let (xs, g, last) = bind_inv (edges_of edges first rest) _ more in
    subst (Links edges first (src ∷ rest)) (some_inj last)
      (best_edge-IsLightest edges src _ f, edges_of-Links edges first rest g)
