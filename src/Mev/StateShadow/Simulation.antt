-- ===== src/Mev/StateShadow/Simulation.antt =====
-- Swaps on the speculative reserves: what they would return, and what they leave behind until the
-- next block.
use the_ai_cowboys_6_shooter.Prelude.{
  ℕ, zero, suc, ◌+◌, ltb, ◌==◌, ◌||◌, if◌then◌else◌, Bool, true, false, Option, none, some, ◌>>=◌,
}
use the_ai_cowboys_6_shooter.Prelude.Words.{add_u64, add_u128, sub_u128, mul_u128, div_u128}
use the_ai_cowboys_6_shooter.Mev.StateShadow.{StateShadow, put, max_pools}

-- What `apply_speculative_swap` computes: the reserve that takes the input, and what leaves the other.
pub record Filled : Type 0 where
  pub new_in : ℕ
  pub new_out : ℕ
  pub amount_out : ℕ

unfoldable pub fill : ℕ → ℕ → ℕ → ℕ → ℕ → Option Filled
fill r_in r_out fee_num fee_den amount_in = do
  fee ← div_u128 (mul_u128 amount_in fee_num) fee_den
  let new_in = add_u128 r_in (sub_u128 amount_in fee)
  new_out ← div_u128 (mul_u128 r_in r_out) new_in
  some (record { new_in = new_in; new_out = new_out; amount_out = sub_u128 r_out new_out })

abbrev pub mark_dirty : StateShadow → ℕ → StateShadow
mark_dirty s idx =
    if s.spec_dirty idx == 0
    then record s {
      spec_dirty = put s.spec_dirty idx 1;
      spec_dirty_count = add_u64 s.spec_dirty_count 1;
    }
    else s

unfoldable pub write_spec : StateShadow → ℕ → ℕ → ℕ → StateShadow
write_spec s idx rx ry =
    mark_dirty
      (record s {
        spec_reserve_x = put s.spec_reserve_x idx rx;
        spec_reserve_y = put s.spec_reserve_y idx ry;
      })
      idx

unfoldable pub apply_speculative_swap : StateShadow → ℕ → ℕ → Bool → Option (ℕ × StateShadow)
apply_speculative_swap s idx amount_in x_to_y =
    if ltb idx max_pools
    then (if x_to_y
        then (fill rx ry num den amount_in >>= λ f.
            some (f.amount_out, write_spec s idx f.new_in f.new_out))
        else (fill ry rx num den amount_in >>= λ f.
            some (f.amount_out, write_spec s idx f.new_out f.new_in)))
    else none
  where
    rx : ℕ
    rx = s.spec_reserve_x idx

    ry : ℕ
    ry = s.spec_reserve_y idx

    num : ℕ
    num = s.fee_num idx

    den : ℕ
    den = s.fee_den idx

-- The loop of `revert_speculative`, with the rounds left.
unfoldable pub revert_one : StateShadow → ℕ → StateShadow
revert_one s i = record s {
  spec_reserve_x = put s.spec_reserve_x i (s.reserve_x i);
  spec_reserve_y = put s.spec_reserve_y i (s.reserve_y i);
  spec_dirty = put s.spec_dirty i 0;
}

unfoldable pub revert_from : ℕ → ℕ → StateShadow → Option StateShadow
revert_from zero i s = some s
revert_from (suc rounds) i s = elim (ltb i max_pools) [
  | true ↦ revert_from rounds (i + 1) (revert_one s i)
  | false ↦ none
]

unfoldable pub revert_speculative : StateShadow → Option StateShadow
revert_speculative s = do t ← revert_from s.pool_count 0 s; some (record t { spec_dirty_count = 0 })

unfoldable pub on_new_block : StateShadow → ℕ → Option StateShadow
on_new_block s slot = revert_speculative (record s { confirmed_slot = slot })

-- The arithmetic of `sim_swap`, from the reserve that takes the input and the one that gives.
unfoldable pub quote : ℕ → ℕ → ℕ → ℕ → ℕ → Option ℕ
quote r_in r_out fee_num fee_den amount_in = do
  fee ← div_u128 (mul_u128 amount_in fee_num) fee_den
  let amount_after_fee = sub_u128 amount_in fee
  let new_in = add_u128 r_in amount_after_fee
  let k = mul_u128 r_in r_out
  new_out ← div_u128 k new_in
  some (sub_u128 r_out new_out)

unfoldable pub sim_swap : StateShadow → ℕ → ℕ → Bool → Option ℕ
sim_swap s idx amount_in x_to_y =
    if ltb idx max_pools
    then (if s.spec_reserve_x idx == 0 || s.spec_reserve_y idx == 0
        then some 0
        else (if x_to_y then quote rx ry num den amount_in else quote ry rx num den amount_in))
    else none
  where
    rx : ℕ
    rx = s.spec_reserve_x idx

    ry : ℕ
    ry = s.spec_reserve_y idx

    num : ℕ
    num = s.fee_num idx

    den : ℕ
    den = s.fee_den idx
