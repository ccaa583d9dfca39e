-- ===== src/Mev/SimdSolver/Batch.antt =====
-- `evaluate_single` and `evaluate_batch`: what they accept.
use the_ai_cowboys_6_shooter.Prelude.{
  ℕ, ◌+◌, ◌-◌, ◌*◌, ◌/◌, ◌^◌, ◌⊎◌, ◌≤◌, ◌<◌, ◌≡◌, inl, inr, refl, arith, max, ltb, leb, ◌||◌,
  if◌then◌else◌, Option, none, some, ◌>>=◌, List, [], ◌∷◌, length, In, Bool-cases, some_inj,
  ltb_false→le,
}
use mathlib.Core.Path.{subst}
use the_ai_cowboys_6_shooter.Prelude.Words.{sub_u128}
use the_ai_cowboys_6_shooter.Mev.StateShadow.{StateShadow}
use the_ai_cowboys_6_shooter.Mev.Graph.Path.{ArbCycle}
use the_ai_cowboys_6_shooter.Mev.SimdSolver.{
  ArbResult, SimdSolver, Range, new, search_rounds, simulate_cycle, accept, is_empty,
  evaluate_single, push_some, evaluate_all, sort_by_profit, evaluate_batch,
}
use the_ai_cowboys_6_shooter.Mev.SimdSolver.Search.{Runs, search_best_total, search_rounds-Narrowed}
use the_ai_cowboys_6_shooter.Mev.SimdSolver.Evaluate.{IsTradable, simulate_from_total}
use the_ai_cowboys_6_shooter.Mev.SimdSolver.Results.{
  push_some-cases, push_some-length, IsDescending, sort_by_profit-In, sort_by_profit-length,
  sort_by_profit-IsDescending,
}

-- What `r` promises of `cycle`: the simulation of its input gives its output, which is more than
-- the input by the profit, at least the least profit wanted; it carries the cycle's hops.
pub record IsProfit {F : Type 0} (solver : SimdSolver) (shadow : StateShadow) (cycle : ArbCycle F)
    (r : ArbResult) : Type 0 where
  pub output : simulate_cycle shadow cycle r.optimal_input ≡ some r.expected_output
  pub gain : r.expected_output ≡ r.optimal_input + r.net_profit
  pub positive : 0 < r.net_profit
  pub enough : solver.min_profit ≤ r.net_profit
  pub pools : r.pool_sequence ≡ cycle.pool_indices
  pub directions : r.directions ≡ cycle.directions

value_of : Option ℕ → ℕ
value_of none = 0
value_of (some v) = v

module _ {F : Type 0} where
  simulate_cycle-Runs :
      (shadow : StateShadow) (cycle : ArbCycle F) (top : ℕ)
      → IsTradable shadow cycle
      → top < 2 ^ 64
      → Runs (simulate_cycle shadow cycle) top (λ x. value_of (simulate_cycle shadow cycle x))
  unfolding Runs value_of
  simulate_cycle-Runs shadow cycle top t fits x h =
      let (out, e, _) =
        simulate_from_total shadow cycle.pool_indices cycle.directions x t.pools t.directed
          (omega (arith, h, fits)) in
      rw (e) refl

  simulate_cycle_small :
      (shadow : StateShadow) (cycle : ArbCycle F) (x : ℕ)
      → IsTradable shadow cycle
      → x < 2 ^ 64
      → (out : ℕ) × (simulate_cycle shadow cycle x ≡ some out) × (out < 2 ^ 64)
  simulate_cycle_small shadow cycle x t h =
      simulate_from_total shadow cycle.pool_indices cycle.directions x t.pools t.directed h

  accept-IsProfit :
      (solver : SimdSolver) (shadow : StateShadow) (cycle : ArbCycle F) (idx input output : ℕ)
      (r : ArbResult)
      → simulate_cycle shadow cycle input ≡ some output
      → output < 2 ^ 64
      → accept solver cycle idx input output ≡ some r
      → IsProfit solver shadow cycle r
  unfolding accept
  accept-IsProfit solver shadow cycle idx input output r runs small e =
      elim (Bool-cases (leb output input)) [
        | inl l ↦ absurd (let f = rw (l, if◌then◌else◌) at e in ground (arith, f))
        | inr g ↦ elim (Bool-cases (ltb (sub_u128 output input) solver.min_profit)) [
          | inl l ↦ absurd (let f = rw (g, if◌then◌else◌, l) at e in ground (arith, f))
          | inr m ↦
              let exact : sub_u128 output input ≡ output - input = ground (arith, g, small) in
              subst (IsProfit solver shadow cycle) (some_inj (rw (g, if◌then◌else◌, m) at e))
                (record {
                  output = runs;
                  gain = ground (arith, exact, g);
                  positive = ground (arith, exact, g);
                  enough = ltb_false→le (sub_u128 output input) solver.min_profit m;
                  pools = refl;
                  directions = refl;
                })
        ]
      ]

  -- A cycle is evaluated without a panic.
  evaluate_single_total :
      (solver : SimdSolver) (shadow : StateShadow) (cycle : ArbCycle F) (idx : ℕ)
      → IsTradable shadow cycle
      → 1 ≤ solver.max_input
      → solver.max_input < 2 ^ 64
      → (found : Option ArbResult) × (evaluate_single solver shadow cycle idx ≡ some found)
        × ((r : ArbResult) → found ≡ some r → IsProfit solver shadow cycle r)
  unfolding evaluate_single
  evaluate_single_total solver shadow cycle idx t pos fits =
      elim (Bool-cases (is_empty cycle.path || is_empty cycle.pool_indices)) [
        | inl e ↦ (none, rw (e, if◌then◌else◌) refl, λ r f. absurd (cc))
        | inr e ↦
            let probe_input = max (solver.max_input / 1000) 100 in
            let (probe, p, _) =
              simulate_cycle_small shadow cycle probe_input t (omega (arith, fits)) in
            elim (Bool-cases (leb probe probe_input)) [
              | inl l ↦ (none, rw (e, if◌then◌else◌, p, ◌>>=◌, l) refl, λ r f. absurd (cc))
              | inr g ↦
                  let (input, b, h) =
                    search_best_total (simulate_cycle shadow cycle) (2 ^ 64 - 1) _ solver
                      (simulate_cycle-Runs shadow cycle (2 ^ 64 - 1) t (omega arith)) (omega arith)
                      pos (omega arith) in
                  let (out, o, small) =
                    simulate_cycle_small shadow cycle input t (omega (arith, h)) in
                  let v : value_of (simulate_cycle shadow cycle input) ≡ out =
                    unfold value_of in rw (o) refl in
                  (
                    accept solver cycle idx input out,
                    rw (e, if◌then◌else◌, p, ◌>>=◌, g, b, v) refl,
                    λ r f. accept-IsProfit solver shadow cycle idx input out r o small f,
                  )
            ]
      ]

  -- Every result is a profit of one of `cycles`.
  abbrev FromCycles : SimdSolver → StateShadow → List (ArbCycle F) → List ArbResult → Type 0
  FromCycles solver shadow cycles results =
      (r : ArbResult)
      → In r results
      → (cycle : ArbCycle F) × (In cycle cycles) × IsProfit solver shadow cycle r

  evaluate_all_total :
      (solver : SimdSolver) (shadow : StateShadow) (all cycles : List (ArbCycle F))
      (results : List ArbResult)
      → ((cycle : ArbCycle F) → In cycle cycles → IsTradable shadow cycle)
      → ((cycle : ArbCycle F) → In cycle cycles → In cycle all)
      → 1 ≤ solver.max_input
      → solver.max_input < 2 ^ 64
      → FromCycles solver shadow all results
      → (out : List ArbResult) × (evaluate_all solver shadow cycles results ≡ some out)
        × FromCycles solver shadow all out
        × (length out ≤ length results + length cycles)
  unfolding evaluate_all
  evaluate_all_total solver shadow all [] results t among pos fits from =
      (results, refl, from, omega arith)
  evaluate_all_total solver shadow all (cycle ∷ cycles) results t among pos fits from =
      let (found, e, k) =
        evaluate_single_total solver shadow cycle (length results) (t cycle (inl refl)) pos fits in
      let (out, f, from', few) =
        evaluate_all_total solver shadow all cycles (push_some results found) (λ c m. t c (inr m))
          (λ c m. among c (inr m)) pos fits
          (λ r m. elim (push_some-cases results found r m) [
            | inl l ↦ from r l
            | inr here ↦ (cycle, among cycle (inl refl), k r here)
          ]) in
      let one = push_some-length results found in
      (out, rw (e, ◌>>=◌) f, from', omega (arith, few, one))

module _ {F : Type 0} where
  -- On cycles that have a direction for each pool, and whose pools have an index below `MAX_POOLS`,
  -- speculative reserves and a fee numerator below 2 ^ 64, and a fee denominator that is positive and
  -- at least the numerator, with between one and 2 ^ 64 - 1 units to put in, the batch is evaluated
  -- without a panic into at most one result for each cycle, the highest profit first; each carries
  -- the hops of one of the cycles, on which the simulation of its input gives its output, which
  -- exceeds the input by the profit, and the profit is positive and not below the least one.
  pub evaluate_batch_lem :
      (solver : SimdSolver) (shadow : StateShadow) (cycles : List (ArbCycle F))
      → ((cycle : ArbCycle F) → In cycle cycles → IsTradable shadow cycle)
      → 1 ≤ solver.max_input
      → solver.max_input < 2 ^ 64
      → (out : List ArbResult) × (evaluate_batch solver shadow cycles ≡ some out)
        × (length out ≤ length cycles)
        × IsDescending out
        × ((r : ArbResult)
            → In r out
            → (cycle : ArbCycle F) × (In cycle cycles) × IsProfit solver shadow cycle r)
  unfolding evaluate_batch
  evaluate_batch_lem solver shadow cycles t pos fits =
      let (found, e, from, few) =
        evaluate_all_total solver shadow cycles cycles [] t (λ c m. m) pos fits (λ r m. absurd m) in
      (
        sort_by_profit found,
        rw (evaluate_batch, e, ◌>>=◌) refl,
        omega (arith, sort_by_profit-length found, few),
        sort_by_profit-IsDescending found,
        λ r m. from r (sort_by_profit-In r found m),
      )

  -- On a cycle that has a direction for each pool, and whose pools have an index below `MAX_POOLS`,
  -- speculative reserves and a fee numerator below 2 ^ 64, and a fee denominator that is positive and
  -- at least the numerator, with between one and 2 ^ 64 - 1 units to put in, the 40 rounds of the
  -- search end without a panic. What is left is a range of the inputs less than three wide, or
  -- one whose width less two is at most (2 / 3) ^ 40 of that of the first range less two, and the
  -- best input makes at least the best profit when the cycle is simulated on it.
  pub search_rounds-simulate_cycle :
      (shadow : StateShadow) (cycle : ArbCycle F) (min_profit max_input : ℕ)
      → IsTradable shadow cycle
      → 1 ≤ max_input
      → max_input < 2 ^ 64
      → (s : Range) × (search_rounds
            (simulate_cycle shadow cycle)
            (new min_profit max_input).search_iterations
            (record { lo = 1; hi = max_input; best_input = 0; best_profit = 0 })
          ≡ some s)
        × (1 ≤ s.lo)
        × (s.lo ≤ s.hi)
        × (s.hi ≤ max_input)
        × ((s.hi - s.lo < 3) ⊎ (3 ^ 40 * (s.hi - s.lo - 2) ≤ 2 ^ 40 * (max_input - 1 - 2)))
        × (s.best_input ≤ max_input)
        × (out : ℕ) × (simulate_cycle shadow cycle s.best_input ≡ some out)
        × (s.best_profit ≤ out - s.best_input)
  unfolding new
  search_rounds-simulate_cycle shadow cycle min_profit max_input t pos fits =
      let (s, e, b, has, w, _) =
        search_rounds-Narrowed (simulate_cycle shadow cycle) max_input _ 40
          (record { lo = 1; hi = max_input; best_input = 0; best_profit = 0 })
          (simulate_cycle-Runs shadow cycle max_input t fits) (omega (arith, fits))
          (record { low = omega arith; ordered = pos; high = omega arith })
          (record { below = omega arith; best = omega arith }) in
      let (out, o, _) =
        simulate_cycle_small shadow cycle s.best_input t (omega (arith, has.below, fits)) in
      let v : value_of (simulate_cycle shadow cycle s.best_input) ≡ out =
        unfold value_of in rw (o) refl in
      (s, e, b.low, b.ordered, b.high, w, has.below, out, o, omega (arith, has.best, v))
