-- ===== src/Mev/SimdSolver/Evaluate.antt =====
-- `evaluate_batch`, on a state and cycles whose simulation does not panic.
use the_ai_cowboys_6_shooter.Prelude.{
  ℕ, ◌^◌, ◌≤◌, ◌<◌, ◌≡◌, inl, inr, refl, ◌∙◌, arith, ◌==◌, ◌||◌, if◌then◌else◌, Bool, some, ◌>>=◌,
  List, [], ◌∷◌, length, In, Bool-cases, lt→ltb,
}
use the_ai_cowboys_6_shooter.Memory.AmmPool.Swap.{product_fits}
use the_ai_cowboys_6_shooter.Mev.StateShadow.{StateShadow, max_pools}
use the_ai_cowboys_6_shooter.Mev.StateShadow.Simulation.{quote, sim_swap}
use the_ai_cowboys_6_shooter.Mev.StateShadow.Speculation.{fill_lem, quote-fill}
use the_ai_cowboys_6_shooter.Mev.Graph.Path.{ArbCycle}
use the_ai_cowboys_6_shooter.Mev.SimdSolver.{simulate_from}

-- A pool with speculative reserves and a fee numerator below 2 ^ 64, and a fee denominator that is
-- positive and at least the numerator.
pub record IsPool (s : StateShadow) (idx : ℕ) : Type 0 where
  pub inside : idx < max_pools
  pub x_fits : s.spec_reserve_x idx < 2 ^ 64
  pub y_fits : s.spec_reserve_y idx < 2 ^ 64
  pub fee_pos : 0 < s.fee_den idx
  pub fee_below : s.fee_num idx ≤ s.fee_den idx
  pub fee_fits : s.fee_num idx < 2 ^ 64

-- The pools of the cycle are such pools, and each has its direction.
pub record IsTradable {F : Type 0} (s : StateShadow) (cycle : ArbCycle F) : Type 0 where
  pub pools : (idx : ℕ) → In idx cycle.pool_indices → IsPool s idx
  pub directed : length cycle.pool_indices ≤ length cycle.directions

quote_total :
    (r_in r_out num den a : ℕ)
    → 0 < r_in
    → r_in < 2 ^ 64
    → r_out < 2 ^ 64
    → 0 < den
    → num ≤ den
    → num < 2 ^ 64
    → a < 2 ^ 64
    → (out : ℕ) × (quote r_in r_out num den a ≡ some out) × (out < 2 ^ 64)
quote_total r_in r_out num den a pos h k d below n l =
    let (f, e, _, sum, _, _, _) =
      fill_lem {r_in = r_in} {r_out = r_out} {num = num} {den = den} {amount_in = a} (record {
        pos = pos;
        fee_pos = d;
        fee_below = below;
        fee_fits = product_fits a num l n;
        sum_fits = omega arith;
        product_fits = product_fits r_in r_out h k;
        out_fits = omega arith;
      }) in
    (f.amount_out, quote-fill r_in r_out num den a ∙ (rw (e) refl), omega (arith, sum, k))

sim_swap_total :
    (s : StateShadow) (idx a : ℕ) (x_to_y : Bool)
    → IsPool s idx
    → a < 2 ^ 64
    → (out : ℕ) × (sim_swap s idx a x_to_y ≡ some out) × (out < 2 ^ 64)
unfolding sim_swap
sim_swap_total s idx a x_to_y p h =
    let inside = lt→ltb idx max_pools p.inside in
    elim (Bool-cases (s.spec_reserve_x idx == 0 || s.spec_reserve_y idx == 0)) [
      | inl e ↦ (0, rw (sim_swap, inside, if◌then◌else◌, e) refl, omega arith)
      | inr e ↦
          let x =
            quote_total (s.spec_reserve_x idx) (s.spec_reserve_y idx) (s.fee_num idx)
              (s.fee_den idx) a (ground (arith, e)) p.x_fits p.y_fits p.fee_pos p.fee_below
              p.fee_fits h in
          let y =
            quote_total (s.spec_reserve_y idx) (s.spec_reserve_x idx) (s.fee_num idx)
              (s.fee_den idx) a (ground (arith, e)) p.y_fits p.x_fits p.fee_pos p.fee_below
              p.fee_fits h in
          elim (Bool-cases x_to_y) [
            | inl t ↦ (x.0, rw (sim_swap, inside, if◌then◌else◌, e, t) x.1, x.2)
            | inr f ↦ (y.0, rw (sim_swap, inside, if◌then◌else◌, e, f) y.1, y.2)
          ]
    ]

pub simulate_from_total :
    (s : StateShadow) (pools : List ℕ) (directions : List Bool) (a : ℕ)
    → ((idx : ℕ) → In idx pools → IsPool s idx)
    → length pools ≤ length directions
    → a < 2 ^ 64
    → (out : ℕ) × (simulate_from s pools directions a ≡ some out) × (out < 2 ^ 64)
unfolding simulate_from
simulate_from_total s [] directions a p h l = (a, refl, l)
simulate_from_total s (idx ∷ pools) [] a p h l = absurd (omega (arith, h))
simulate_from_total s (idx ∷ pools) (d ∷ directions) a p h l =
    let (out, e, k) = sim_swap_total s idx a d (p idx (inl refl)) l in
    let (last, f, m) =
      simulate_from_total s pools directions out (λ i n. p i (inr n)) (omega (arith, h)) k in
    elim (Bool-cases (out == 0)) [
      | inl z ↦ (0, rw (simulate_from, e, ◌>>=◌, z, if◌then◌else◌) refl, omega arith)
      | inr z ↦ (last, rw (simulate_from, e, ◌>>=◌, z, if◌then◌else◌) f, m)
    ]
