-- ===== src/Mev/StateShadow/Speculation.antt =====
-- What a simulated swap does to the numbers, and the agreement of the two simulations.
use native.Mathlib.Nat.{div-mul-le_self, lt-div-mul-add}
use the_ai_cowboys_6_shooter.Prelude.{
  ℕ, ◌+◌, ◌-◌, ◌*◌, ◌/◌, ◌^◌, ◌≤◌, ◌<◌, ◌≡◌, refl, arith, ◌==◌, ◌||◌, if◌then◌else◌, Bool, true,
  false, Option, none, some, ◌>>=◌, Option-cases, inl, inr,
}
use the_ai_cowboys_6_shooter.Memory.AmmPool.Curve.{curve_out, IsCeil, curve_out-IsCeil, quotient-le}
use the_ai_cowboys_6_shooter.Memory.AmmPool.Swap.{after_fee, fee-le}
use the_ai_cowboys_6_shooter.Prelude.Words.{add_u128, sub_u128, mul_u128, div_u128}
use the_ai_cowboys_6_shooter.Mev.StateShadow.{StateShadow, max_pools}
use the_ai_cowboys_6_shooter.Mev.StateShadow.Simulation.{
  Filled, fill, quote, apply_speculative_swap, sim_swap,
}

-- The products and the sum of the simulation fit `u128`, the fee is at most the whole, and the
-- reserve that takes the input is not empty.
pub record Fits (r_in r_out num den amount_in : ℕ) : Type 0 where
  pub pos : 0 < r_in
  pub fee_pos : 0 < den
  pub fee_below : num ≤ den
  pub fee_fits : amount_in * num < 2 ^ 128
  pub sum_fits : r_in + amount_in < 2 ^ 128
  pub product_fits : r_in * r_out < 2 ^ 128
  pub out_fits : r_out < 2 ^ 128

-- With numbers that fit, a simulated swap returns: the input reserve grows by the input less its
-- fee, the output leaves the other reserve exactly, the product of the two does not grow, and one
-- unit more in the other reserve would make it grow; the output is the exact one rounded up.
pub fill_lem :
    {r_in r_out num den amount_in : ℕ}
    → Fits r_in r_out num den amount_in
    → (f : Filled) × (fill r_in r_out num den amount_in ≡ some f)
      × (f.new_in ≡ r_in + after_fee num den amount_in)
      × (f.new_out + f.amount_out ≡ r_out)
      × (f.new_in * f.new_out ≤ r_in * r_out)
      × (r_in * r_out < f.new_in * (f.new_out + 1))
      × IsCeil r_in r_out (after_fee num den amount_in) f.amount_out
unfolding fill after_fee curve_out
fill_lem {r_in = r_in} {r_out = r_out} {num = num} {den = den} {amount_in = a} h =
    let left = a - a * num / den in
    let q = r_in * r_out / (r_in + left) in
    let le = fee-le num den a h.fee_below in
    let small = quotient-le r_in r_out left h.pos in
    let low = div-mul-le_self (r_in * r_out) (r_in + left) in
    let high = lt-div-mul-add {a = r_in * r_out} {b = r_in + left} (omega arith) in
    (
      record { new_in = r_in + left; new_out = q; amount_out = r_out - q },
      ground (arith, le, small),
      refl,
      omega (arith, small),
      omega (arith, low),
      omega (arith, high),
      curve_out-IsCeil r_in r_out left h.pos,
    )

-- The two transcriptions of the curve agree, where either divides by zero too.
pub quote-fill :
    (r_in r_out num den a : ℕ)
    → quote r_in r_out num den a ≡ (fill r_in r_out num den a >>= λ f. some f.amount_out)
unfolding quote fill
quote-fill r_in r_out num den a =
    fee_taken (div_u128 (mul_u128 a num) den) (λ fee. add_u128 r_in (sub_u128 a fee))
      (λ fee. div_u128 (mul_u128 r_in r_out) (add_u128 r_in (sub_u128 a fee)))
  where
    divided :
        (new_in : ℕ) (q : Option ℕ)
        → (q >>= λ new_out. some (sub_u128 r_out new_out)) ≡ (
            (q >>= λ new_out.
            some
              (record { new_in = new_in; new_out = new_out; amount_out = sub_u128 r_out new_out }))
            >>= λ (f : Filled). some f.amount_out)
    divided new_in none = refl
    divided new_in (some new_out) = refl

    fee_taken :
        (fee : Option ℕ) (new_in : ℕ → ℕ) (q : ℕ → Option ℕ)
        → (fee >>= λ x. q x >>= λ new_out. some (sub_u128 r_out new_out)) ≡ (
            (fee >>= λ x. q x >>= λ new_out.
            some (record {
              new_in = new_in x;
              new_out = new_out;
              amount_out = sub_u128 r_out new_out;
            }))
            >>= λ (f : Filled). some f.amount_out)
    fee_taken none new_in q = refl
    fee_taken (some x) new_in q = divided (new_in x) (q x)

-- For an index below `MAX_POOLS`, `sim_swap` returns what `apply_speculative_swap` would, and panics
-- when it would, where the two speculative reserves are not empty; elsewhere it returns 0.
pub sim_swap-apply :
    (s : StateShadow) (idx amount_in : ℕ) (x_to_y : Bool)
    → idx < max_pools
    → sim_swap s idx amount_in x_to_y ≡ (
        if s.spec_reserve_x idx == 0 || s.spec_reserve_y idx == 0
        then some 0
        else (apply_speculative_swap s idx amount_in x_to_y >>= λ r. some r.0))
unfolding sim_swap apply_speculative_swap
sim_swap-apply s idx a true h =
    elim (Option-cases
      (fill (s.spec_reserve_x idx) (s.spec_reserve_y idx) (s.fee_num idx) (s.fee_den idx) a)) [
        | inl e ↦ ground (
          arith,
          e,
          quote-fill (s.spec_reserve_x idx) (s.spec_reserve_y idx) (s.fee_num idx) (s.fee_den idx)
              a,
        )
        | inr (f, e) ↦ ground (
          arith,
          e,
          quote-fill (s.spec_reserve_x idx) (s.spec_reserve_y idx) (s.fee_num idx) (s.fee_den idx)
              a,
        )
      ]
sim_swap-apply s idx a false h =
    elim (Option-cases
      (fill (s.spec_reserve_y idx) (s.spec_reserve_x idx) (s.fee_num idx) (s.fee_den idx) a)) [
        | inl e ↦ ground (
          arith,
          e,
          quote-fill (s.spec_reserve_y idx) (s.spec_reserve_x idx) (s.fee_num idx) (s.fee_den idx)
              a,
        )
        | inr (f, e) ↦ ground (
          arith,
          e,
          quote-fill (s.spec_reserve_y idx) (s.spec_reserve_x idx) (s.fee_num idx) (s.fee_den idx)
              a,
        )
      ]
