-- ===== src/Mev/Graph/Sorted.antt =====
-- `sort_by_key` of the cycles by their weights.

use the_ai_cowboys_6_shooter.Prelude.{
  ◌≤◌, ◌≡◌, ◌⊎◌, inl, inr, arith, ltb, if◌then◌else◌, List, [], ◌∷◌, In, Bool-cases, ltb_false→le,
}
use the_ai_cowboys_6_shooter.Mev.Graph.{Float64}
use the_ai_cowboys_6_shooter.Mev.Graph.Path.{ArbCycle}
use the_ai_cowboys_6_shooter.Mev.Graph.Cycles.{insert_by_weight, sort_by_weight}

module _ (float : Float64) where
  insert_by_weight-In :
      (x c : ArbCycle float.F) (cycles : List (ArbCycle float.F))
      → In c (insert_by_weight float x cycles)
      → (c ≡ x) ⊎ In c cycles
  unfolding insert_by_weight
  insert_by_weight-In x c [] m = elim m [ inl e ↦ inl e | inr bad ↦ absurd bad ]
  insert_by_weight-In x c (y ∷ cycles) m = elim (Bool-cases (ltb y.total_weight x.total_weight)) [
    | inl e ↦ elim (rw (e, if◌then◌else◌) at m) [
      | inl f ↦ inr (inl f)
      | inr l ↦ elim (insert_by_weight-In x c cycles l) [ inl f ↦ inl f | inr k ↦ inr (inr k) ]
    ]
    | inr e ↦ rw (e, if◌then◌else◌) at m
  ]

  pub sort_by_weight-In :
      (c : ArbCycle float.F) (cycles : List (ArbCycle float.F))
      → In c (sort_by_weight float cycles)
      → In c cycles
  unfolding sort_by_weight
  sort_by_weight-In c [] m = m
  sort_by_weight-In c (x ∷ cycles) m =
      elim (insert_by_weight-In x c (sort_by_weight float cycles) m) [
        | inl e ↦ inl e
        | inr l ↦ inr (sort_by_weight-In c cycles l)
      ]

  -- The lightest first.
  unfoldable pub IsSorted : List (ArbCycle float.F) → Type 0
  IsSorted [] = Unit
  IsSorted (x ∷ cycles) =
      ((c : ArbCycle float.F) → In c cycles → x.total_weight ≤ c.total_weight) × IsSorted cycles

  insert_by_weight-IsSorted :
      (x : ArbCycle float.F) (cycles : List (ArbCycle float.F))
      → IsSorted cycles
      → IsSorted (insert_by_weight float x cycles)
  unfolding insert_by_weight IsSorted
  insert_by_weight-IsSorted x [] s = (λ c m. absurd m, tt)
  insert_by_weight-IsSorted x (y ∷ cycles) (least, s) =
      elim (Bool-cases (ltb y.total_weight x.total_weight)) [
        | inl e ↦
            rw (e, if◌then◌else◌)
              (
                (λ c m. elim (insert_by_weight-In x c cycles m) [
                  | inl f ↦ rw (f) (ground (arith, e))
                  | inr l ↦ least c l
                ]),
                insert_by_weight-IsSorted x cycles s,
              )
        | inr e ↦
            rw (e, if◌then◌else◌)
              (
                (λ c m. elim m [
                  | inl f ↦ rw (f) (ground (arith, e))
                  | inr l ↦ omega (arith, least c l, ltb_false→le y.total_weight x.total_weight e)
                ]),
                (least, s),
              )
      ]

  pub sort_by_weight-IsSorted :
      (cycles : List (ArbCycle float.F)) → IsSorted (sort_by_weight float cycles)
  unfolding sort_by_weight IsSorted
  sort_by_weight-IsSorted [] = tt
  sort_by_weight-IsSorted (x ∷ cycles) =
      insert_by_weight-IsSorted x (sort_by_weight float cycles) (sort_by_weight-IsSorted cycles)
