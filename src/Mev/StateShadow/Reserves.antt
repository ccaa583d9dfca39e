-- ===== src/Mev/StateShadow/Reserves.antt =====
-- What keeps the arrays in bounds, the confirmed part of the state, and speculative swaps by cases.
use the_ai_cowboys_6_shooter.Prelude.{
  ℕ, ◌<◌, ◌≡◌, arith, if◌then◌else◌, Bool, true, false, some, Option-cases, inl, inr, ap, ◌∙◌,
}
use the_ai_cowboys_6_shooter.Mev.StateShadow.{StateShadow, Column, max_pools}
use the_ai_cowboys_6_shooter.Mev.StateShadow.Simulation.{
  Filled, fill, write_spec, apply_speculative_swap,
}

-- Everything but the overlay.
pub record Confirmed : Type 0 where
  pub reserve_x : Column
  pub reserve_y : Column
  pub fee_num : Column
  pub fee_den : Column
  pub token_x_id : Column
  pub token_y_id : Column
  pub pool_keys : Column
  pub price_x_per_y : Column
  pub price_y_per_x : Column
  pub last_updated_slot : Column
  pub active : Column
  pub pool_count : ℕ
  pub confirmed_slot : ℕ

abbrev pub confirmed : StateShadow → Confirmed
confirmed s = record {
  reserve_x = s.reserve_x;
  reserve_y = s.reserve_y;
  fee_num = s.fee_num;
  fee_den = s.fee_den;
  token_x_id = s.token_x_id;
  token_y_id = s.token_y_id;
  pool_keys = s.pool_keys;
  price_x_per_y = s.price_x_per_y;
  price_y_per_x = s.price_y_per_x;
  last_updated_slot = s.last_updated_slot;
  active = s.active;
  pool_count = s.pool_count;
  confirmed_slot = s.confirmed_slot;
}

pub confirmed-write_spec :
    (s : StateShadow) (idx rx ry : ℕ) → confirmed (write_spec s idx rx ry) ≡ confirmed s
unfolding write_spec
confirmed-write_spec s idx rx ry = ground arith

-- A speculative swap that returns has filled from the overlay and written the overlay at `idx`.
pub record Applied (s : StateShadow) (idx amount_in : ℕ) (x_to_y : Bool) (out : ℕ) (t : StateShadow)
    : Type 0 where
  pub inside : idx < max_pools
  pub filled : Filled
  pub fills :
      (if x_to_y
        then fill
            (s.spec_reserve_x idx)
            (s.spec_reserve_y idx)
            (s.fee_num idx)
            (s.fee_den idx)
            amount_in
        else fill
            (s.spec_reserve_y idx)
            (s.spec_reserve_x idx)
            (s.fee_num idx)
            (s.fee_den idx)
            amount_in)
      ≡ some filled
  pub gives : out ≡ filled.amount_out
  pub leaves : t ≡ (
      if x_to_y
      then write_spec s idx filled.new_in filled.new_out
      else write_spec s idx filled.new_out filled.new_in)

pub apply-Applied :
    (s : StateShadow) (idx amount_in : ℕ) (x_to_y : Bool) {out : ℕ} {t : StateShadow}
    → apply_speculative_swap s idx amount_in x_to_y ≡ some (out, t)
    → Applied s idx amount_in x_to_y out t
unfolding apply_speculative_swap
apply-Applied s idx amount_in true {out} {t} e =
    let there =
      fill (s.spec_reserve_x idx) (s.spec_reserve_y idx) (s.fee_num idx) (s.fee_den idx)
        amount_in in
    elim (Option-cases there) [
      | inl none' ↦ absurd (ground (arith, none', e))
      | inr (f, run) ↦ record {
        inside = ground (arith, run, e);
        filled = f;
        fills = run;
        gives = ground (arith, run, e);
        leaves = ground (arith, run, e);
      }
    ]
apply-Applied s idx amount_in false {out} {t} e =
    let back =
      fill (s.spec_reserve_y idx) (s.spec_reserve_x idx) (s.fee_num idx) (s.fee_den idx)
        amount_in in
    elim (Option-cases back) [
      | inl none' ↦ absurd (ground (arith, none', e))
      | inr (f, run) ↦ record {
        inside = ground (arith, run, e);
        filled = f;
        fills = run;
        gives = ground (arith, run, e);
        leaves = ground (arith, run, e);
      }
    ]

pub confirmed-apply :
    (s : StateShadow) (idx amount_in : ℕ) (x_to_y : Bool) {out : ℕ} {t : StateShadow}
    → apply_speculative_swap s idx amount_in x_to_y ≡ some (out, t)
    → confirmed t ≡ confirmed s
confirmed-apply s idx amount_in true e =
    let a = apply-Applied s idx amount_in true e in
    ap confirmed a.leaves ∙ confirmed-write_spec s idx a.filled.new_in a.filled.new_out
confirmed-apply s idx amount_in false e =
    let a = apply-Applied s idx amount_in false e in
    ap confirmed a.leaves ∙ confirmed-write_spec s idx a.filled.new_out a.filled.new_in
