-- ===== src/Mev/StateShadow/Tests.antt =====
-- A short life of a shadow with two pools, and the theorems of the sibling modules at it.
use the_ai_cowboys_6_shooter.Prelude.{
  ℕ, ◌+◌, ◌*◌, ◌≤◌, ◌<◌, ◌≡◌, ◌≢◌, refl, arith, ◌==◌, ◌||◌, if◌then◌else◌, true, false, some, none,
  ◌>>=◌, List, [], ◌∷◌,
}
use the_ai_cowboys_6_shooter.Memory.AmmPool.Curve.{IsCeil}
use the_ai_cowboys_6_shooter.Memory.AmmPool.Swap.{after_fee}
use the_ai_cowboys_6_shooter.Mev.StateShadow.{
  StateShadow, Registration, max_pools, new, register_pool, recompute_price, write_pool, count_pool,
  update_reserves, write_reserves,
}
use the_ai_cowboys_6_shooter.Mev.StateShadow.Simulation.{
  Filled, fill, write_spec, apply_speculative_swap, revert_one, revert_from, revert_speculative,
  on_new_block, sim_swap, quote,
}
use the_ai_cowboys_6_shooter.Mev.StateShadow.Queries.{
  find_pool, find_from, find_pools_for_pair, pools_from, effective_rate_x_to_y,
  effective_rate_y_to_x,
}
use the_ai_cowboys_6_shooter.Mev.StateShadow.Reserves.{confirmed}
use the_ai_cowboys_6_shooter.Mev.StateShadow.Speculation.{Fits, fill_lem, sim_swap-apply}
use the_ai_cowboys_6_shooter.Mev.StateShadow.Revert.{IsClean, on_new_block_lem}
use the_ai_cowboys_6_shooter.Mev.StateShadow.Dirty.{Inv, marks, update_drift}
use the_ai_cowboys_6_shooter.Mev.StateShadow.Lookup.{Finds, find_pools_for_pair_lem}
use the_ai_cowboys_6_shooter.Mev.StateShadow.Events.{
  Event, pool, update, swap, block, step, run, settled, speculation_is_private,
}

abbrev first_pool : Registration
first_pool = record {
  pool_key = 71;
  token_x = 1;
  token_y = 2;
  reserve_x = 1_000_000;
  reserve_y = 2_000_000;
  fee_num = 3;
  fee_den = 1000;
  slot = 5;
}

abbrev second_pool : Registration
second_pool = record first_pool { pool_key = 72; token_x = 2; token_y = 1 }

two_pools : StateShadow
two_pools = (register_pool (register_pool new first_pool).1 second_pool).1

abbrev events : List Event
events =
    pool first_pool
    ∷ pool second_pool
    ∷ swap 0 10_000 true
    ∷ update 1 900_000 2_100_000 6
    ∷ swap 1 500 false
    ∷ swap 0 20_000 false
    ∷ block 7
    ∷ swap 1 1000 true
    ∷ []

after : List Event → StateShadow
unfolding run
after es = elim (run new es) [ none ↦ new | some t ↦ t ]

after-events : run new events ≡ some (after events)
unfolding after run step register_pool recompute_price write_pool count_pool update_reserves
    write_reserves apply_speculative_swap fill write_spec on_new_block revert_speculative
    revert_from revert_one new
after-events = refl

swapped : sim_swap (after events) 0 10_000 true ≡ some 19744
unfolding after run step register_pool recompute_price write_pool count_pool update_reserves
    write_reserves apply_speculative_swap fill write_spec on_new_block revert_speculative
    revert_from revert_one new sim_swap quote
swapped = refl

found : find_pool (after events) 72 ≡ some (some 1)
unfolding after run step register_pool recompute_price write_pool count_pool update_reserves
    write_reserves apply_speculative_swap fill write_spec on_new_block revert_speculative
    revert_from revert_one new find_pool find_from
found = refl

paired : find_pools_for_pair (after events) 1 2 ≡ some (0 ∷ 1 ∷ [])
unfolding after run step register_pool recompute_price write_pool count_pool update_reserves
    write_reserves apply_speculative_swap fill write_spec on_new_block revert_speculative
    revert_from revert_one new find_pools_for_pair pools_from
paired = refl

rates :
    (effective_rate_x_to_y (after events) 0 ≡ some 8564164788)
    × (effective_rate_y_to_x (after events) 0 ≡ some 2141041197)
unfolding after run step register_pool recompute_price write_pool count_pool update_reserves
    write_reserves apply_speculative_swap fill write_spec on_new_block revert_speculative
    revert_from revert_one new effective_rate_x_to_y effective_rate_y_to_x
rates = (refl, refl)

-- The first pool with a mark, from a swap.
marked : StateShadow
unfolding run
marked = after (pool first_pool ∷ swap 0 10_000 true ∷ [])

speculation_is_private_example :
    ((t' : StateShadow) × (run new (settled events) ≡ some t')
      × (confirmed t' ≡ confirmed (after events))
      × Inv t')
    × Inv (after events)
    × ((u : StateShadow) × (on_new_block (after events) 8 ≡ some u) × IsClean u)
speculation_is_private_example = speculation_is_private events (after events) 8 after-events

two_pools-few : two_pools.pool_count ≤ max_pools
unfolding two_pools new register_pool recompute_price write_pool count_pool
two_pools-few = omega arith

on_new_block_lem_example :
    (t : StateShadow) × (on_new_block two_pools 9 ≡ some t)
    × (confirmed t ≡ confirmed (record two_pools { confirmed_slot = 9 }))
    × IsClean t
on_new_block_lem_example = on_new_block_lem two_pools 9 two_pools-few

find_pools_for_pair_lem_example :
    (l : List ℕ) × (find_pools_for_pair two_pools 1 2 ≡ some l)
    × Finds two_pools 1 2 0 two_pools.pool_count l
    × (find_pools_for_pair two_pools 2 1 ≡ find_pools_for_pair two_pools 1 2)
find_pools_for_pair_lem_example = find_pools_for_pair_lem two_pools 1 2 two_pools-few

fits : Fits 1_000_000 2_000_000 3 1000 10_000
fits = omega arith

fill_lem_example :
    (f : Filled) × (fill 1_000_000 2_000_000 3 1000 10_000 ≡ some f)
    × (f.new_in ≡ 1_000_000 + after_fee 3 1000 10_000)
    × (f.new_out + f.amount_out ≡ 2_000_000)
    × (f.new_in * f.new_out ≤ 1_000_000 * 2_000_000)
    × (1_000_000 * 2_000_000 < f.new_in * (f.new_out + 1))
    × IsCeil 1_000_000 2_000_000 (after_fee 3 1000 10_000) f.amount_out
fill_lem_example = fill_lem fits

sim_swap-apply_example : sim_swap two_pools 1 10_000 false ≡ (
    if two_pools.spec_reserve_x 1 == 0 || two_pools.spec_reserve_y 1 == 0
    then some 0
    else (apply_speculative_swap two_pools 1 10_000 false >>= λ r. some r.0))
sim_swap-apply_example = sim_swap-apply two_pools 1 10_000 false (omega arith)

marked-spec_dirty : marked.spec_dirty 0 ≢ 0
unfolding marked after run step register_pool recompute_price write_pool count_pool
    apply_speculative_swap fill write_spec new
marked-spec_dirty = omega arith

update_drift_example :
    (t : StateShadow) × (update_reserves marked 0 5 6 9 ≡ some t)
    × (t.spec_dirty_count ≡ marked.spec_dirty_count)
    × (marks max_pools t.spec_dirty + 1 ≡ marks max_pools marked.spec_dirty)
update_drift_example = update_drift marked 0 5 6 9 (omega arith) marked-spec_dirty
