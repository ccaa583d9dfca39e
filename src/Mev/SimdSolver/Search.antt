-- ===== src/Mev/SimdSolver/Search.antt =====
-- The ternary search of `binary_search_optimal`, on inputs that the simulation does not fail on.
use native.Mathlib.Nat.{mul-le-mul_left}
use the_ai_cowboys_6_shooter.Prelude.{
  ℕ, zero, suc, ◌+◌, ◌-◌, ◌*◌, ◌/◌, ◌^◌, ◌≤◌, ◌<◌, ◌≡◌, ◌⊎◌, inl, inr, refl, ◌∙◌, arith, ltb,
  if◌then◌else◌, Option, some, ◌>>=◌, Bool-cases, ltb→lt, ltb_false→le,
}
use the_ai_cowboys_6_shooter.Prelude.Words.{add_u128, sub_u128}
use the_ai_cowboys_6_shooter.Mev.SimdSolver.{
  SimdSolver, Range, track, search_round, search_rounds, search_best,
}
use the_ai_cowboys_6_shooter.Mev.SimdSolver.Narrowing.{
  profit, InBounds, HasBest, Narrowed, Tracked, track-Tracked, narrow_lem, upper-Narrowed,
  lower-Narrowed, grown,
}

module _ (simulate : ℕ → Option ℕ) (top : ℕ) (value : ℕ → ℕ) where
  -- `simulate` gives `value` on the inputs up to `top`.
  unfoldable pub Runs : Type 0
  Runs = (x : ℕ) → x ≤ top → simulate x ≡ some (value x)

  search_round-Narrowed :
      (r : Range)
      → Runs
      → top < 2 ^ 128
      → InBounds top r
      → HasBest top value r
      → 3 ≤ r.hi - r.lo
      → (s : Range) × (search_round simulate r ≡ some s) × Narrowed top value r s
  unfolding search_round Runs
  search_round-Narrowed r runs fits b has wide =
      let third = (r.hi - r.lo) / 3 in
      let m1 = r.lo + third in
      let m2 = r.hi - third in
      let t1 = track-Tracked top value r m1 has (omega (arith, b.high, b.ordered)) in
      let r1 = track r (profit value m1) m1 in
      let t2 = track-Tracked top value r1 m2 t1.has (omega (arith, b.high)) in
      let r2 = track r1 (profit value m2) m2 in
      let both : Tracked top value r r2 = record {
        same_lo = t2.same_lo ∙ t1.same_lo;
        same_hi = t2.same_hi ∙ t1.same_hi;
        has = t2.has;
        better = omega (arith, t1.better, t2.better);
      } in
      let e0 : sub_u128 r.hi r.lo ≡ r.hi - r.lo = omega (arith, fits, b.high, b.ordered) in
      let e1 : add_u128 r.lo third ≡ m1 = omega (arith, fits, b.high, b.ordered) in
      let e2 : sub_u128 r.hi third ≡ m2 = omega (arith, fits, b.high, b.ordered) in
      let s1 = runs m1 (omega (arith, b.high, b.ordered)) in
      let s2 = runs m2 (omega (arith, b.high)) in
      let (one, other) =
        narrow_lem r2 m1 m2 (omega (arith, fits, b.high, b.ordered)) (omega (arith, fits, b.high))
          (omega (arith, fits, b.high, b.ordered, t1.same_lo, t2.same_lo))
          (omega (arith, fits, b.high, t1.same_hi, t2.same_hi)) in
      elim (Bool-cases (ltb (profit value m1) (profit value m2))) [
        | inl e ↦ (
          record r2 { lo = m1 },
          rw (search_round, e0, e1, e2, s1, s2, ◌>>=◌, e, if◌then◌else◌, one) refl,
          upper-Narrowed top value r r2 b wide both,
        )
        | inr e ↦ (
          record r2 { hi = m2 },
          rw (search_round, e0, e1, e2, s1, s2, ◌>>=◌, e, if◌then◌else◌, other) refl,
          lower-Narrowed top value r r2 b wide both,
        )
      ]

  -- After `rounds` rounds the range is narrow, or at most as wide as the rounds leave it.
  pub search_rounds-Narrowed :
      (rounds : ℕ) (r : Range)
      → Runs
      → top < 2 ^ 128
      → InBounds top r
      → HasBest top value r
      → (s : Range) × (search_rounds simulate rounds r ≡ some s)
        × InBounds top s
        × HasBest top value s
        × ((s.hi - s.lo < 3) ⊎ (3 ^ rounds * (s.hi - s.lo - 2) ≤ 2 ^ rounds * (r.hi - r.lo - 2)))
        × (r.best_profit ≤ s.best_profit)
  unfolding search_rounds
  search_rounds-Narrowed zero r runs fits b has = (r, refl, b, has, inr (omega arith), omega arith)
  search_rounds-Narrowed (suc rounds) r runs fits b has =
      let e0 : sub_u128 r.hi r.lo ≡ r.hi - r.lo = omega (arith, fits, b.high, b.ordered) in
      elim (Bool-cases (ltb (r.hi - r.lo) 3)) [
        | inl e ↦
            (r, rw (search_rounds, e0, e) refl, b, has, inl (ltb→lt (r.hi - r.lo) 3 e), omega arith)
        | inr e ↦
            let wide = ltb_false→le (r.hi - r.lo) 3 e in
            let (s, f, n) = search_round-Narrowed r runs fits b has wide in
            let (u, g, b', has', w, better) =
              search_rounds-Narrowed rounds s runs fits n.bounds n.has in
            (
              u,
              rw (search_rounds, e0, e, f, ◌>>=◌) g,
              b',
              has',
              elim w [
                | inl l ↦ inl l
                | inr l ↦
                    let scaled =
                      mul-le-mul_left {m = 3 * (s.hi - s.lo - 2)} {n = 2 * (r.hi - r.lo - 2)}
                        (2 ^ rounds) (omega (arith, n.narrower)) in
                    inr
                      (grown rounds (u.hi - u.lo - 2) (s.hi - s.lo - 2) (r.hi - r.lo - 2) l scaled)
              ],
              omega (arith, n.better, better),
            )
      ]

  -- With its 40 rounds the search of a solver over at least one and at most `top` inputs returns an
  -- input up to `top` and what the simulation makes of it.
  pub search_best_total :
      (solver : SimdSolver)
      → Runs
      → top < 2 ^ 128
      → 1 ≤ solver.max_input
      → solver.max_input ≤ top
      → (input : ℕ) × (search_best simulate solver ≡ some (input, value input)) × (input ≤ top)
  unfolding search_best Runs
  search_best_total solver runs fits pos h =
      let (s, e, b, has, _, _) =
        search_rounds-Narrowed solver.search_iterations
          (record { lo = 1; hi = solver.max_input; best_input = 0; best_profit = 0 }) runs fits
          (record { low = omega arith; ordered = pos; high = h })
          (record { below = omega arith; best = omega arith }) in
      let best = runs s.best_input has.below in
      (s.best_input, rw (search_best, e, ◌>>=◌, best) refl, has.below)
