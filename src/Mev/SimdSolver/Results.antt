-- ===== src/Mev/SimdSolver/Results.antt =====
-- The list of results: what is appended to it, and its order by profits.
use the_ai_cowboys_6_shooter.Prelude.{
  ◌+◌, ◌≤◌, ◌≡◌, ◌⊎◌, inl, inr, refl, sym, ap, arith, ltb, if◌then◌else◌, Option, none, some, List,
  [], ◌∷◌, length, length-append, In, In-append-cases, Bool-cases, ltb_false→le,
}
use the_ai_cowboys_6_shooter.Mev.SimdSolver.{ArbResult, push_some, insert_by_profit, sort_by_profit}

pub push_some-cases :
    (results : List ArbResult) (found : Option ArbResult) (r : ArbResult)
    → In r (push_some results found)
    → In r results ⊎ (found ≡ some r)
push_some-cases results none r m = inl m
push_some-cases results (some x) r m = elim (In-append-cases r results (x ∷ []) m) [
  | inl l ↦ inl l
  | inr (inl e) ↦ inr (ap some (sym e))
  | inr (inr bad) ↦ absurd bad
]

pub push_some-length :
    (results : List ArbResult) (found : Option ArbResult)
    → length (push_some results found) ≤ length results + 1
push_some-length results none = omega arith
push_some-length results (some x) = omega (arith, length-append results (x ∷ []))

insert_by_profit-In :
    (x r : ArbResult) (results : List ArbResult)
    → In r (insert_by_profit x results)
    → (r ≡ x) ⊎ In r results
unfolding insert_by_profit
insert_by_profit-In x r [] m = elim m [ inl e ↦ inl e | inr bad ↦ absurd bad ]
insert_by_profit-In x r (y ∷ results) m = elim (Bool-cases (ltb x.net_profit y.net_profit)) [
  | inl e ↦ elim (rw (e, if◌then◌else◌) at m) [
    | inl f ↦ inr (inl f)
    | inr l ↦ elim (insert_by_profit-In x r results l) [ inl f ↦ inl f | inr k ↦ inr (inr k) ]
  ]
  | inr e ↦ rw (e, if◌then◌else◌) at m
]

pub sort_by_profit-In :
    (r : ArbResult) (results : List ArbResult) → In r (sort_by_profit results) → In r results
unfolding sort_by_profit
sort_by_profit-In r [] m = m
sort_by_profit-In r (x ∷ results) m = elim (insert_by_profit-In x r (sort_by_profit results) m) [
  | inl e ↦ inl e
  | inr l ↦ inr (sort_by_profit-In r results l)
]

insert_by_profit-length :
    (x : ArbResult) (results : List ArbResult)
    → length (insert_by_profit x results) ≡ length results + 1
unfolding insert_by_profit
insert_by_profit-length x [] = refl
insert_by_profit-length x (y ∷ results) = ground (arith, insert_by_profit-length x results)

pub sort_by_profit-length :
    (results : List ArbResult) → length (sort_by_profit results) ≡ length results
unfolding sort_by_profit
sort_by_profit-length [] = refl
sort_by_profit-length (x ∷ results) =
    omega (arith, insert_by_profit-length x (sort_by_profit results), sort_by_profit-length results)

-- The highest profit first.
pub IsDescending : List ArbResult → Type 0
IsDescending [] = Unit
IsDescending (x ∷ results) =
    ((r : ArbResult) → In r results → r.net_profit ≤ x.net_profit) × IsDescending results

insert_by_profit-IsDescending :
    (x : ArbResult) (results : List ArbResult)
    → IsDescending results
    → IsDescending (insert_by_profit x results)
unfolding insert_by_profit IsDescending
insert_by_profit-IsDescending x [] s = (λ r m. absurd m, tt)
insert_by_profit-IsDescending x (y ∷ results) (most, s) =
    elim (Bool-cases (ltb x.net_profit y.net_profit)) [
      | inl e ↦
          rw (e, if◌then◌else◌)
            (
              (λ r m. elim (insert_by_profit-In x r results m) [
                | inl f ↦ rw (f) (ground (arith, e))
                | inr l ↦ most r l
              ]),
              insert_by_profit-IsDescending x results s,
            )
      | inr e ↦
          rw (e, if◌then◌else◌)
            (
              (λ r m. elim m [
                | inl f ↦ rw (f) (ground (arith, e))
                | inr l ↦ omega (arith, most r l, ltb_false→le x.net_profit y.net_profit e)
              ]),
              (most, s),
            )
    ]

pub sort_by_profit-IsDescending : (results : List ArbResult) → IsDescending (sort_by_profit results)
unfolding sort_by_profit IsDescending
sort_by_profit-IsDescending [] = tt
sort_by_profit-IsDescending (x ∷ results) =
    insert_by_profit-IsDescending x (sort_by_profit results) (sort_by_profit-IsDescending results)
