-- ===== src/Mev/Router/Tests.antt =====
-- Two pools of one pair at different prices, and the theorems about the registry and the route.
use the_ai_cowboys_6_shooter.Prelude.{◌≡◌, refl, arith, some, [], ◌∷◌, In, inl, inr}
use the_ai_cowboys_6_shooter.Memory.AmmPool.{AmmPool}
use the_ai_cowboys_6_shooter.Memory.AmmPool.Swap.{IsPool}
use the_ai_cowboys_6_shooter.Mev.Amm.{SwapInstruction}
use the_ai_cowboys_6_shooter.Mev.Amm.Registry
use the_ai_cowboys_6_shooter.Mev.Amm.Registry.{
  PoolRegistry, register_pool, get_pool, get_pools_for_pair,
}
use the_ai_cowboys_6_shooter.Mev.Amm.Pairs.{register_pool-get_pools_for_pair}
use the_ai_cowboys_6_shooter.Mev.Router.{RouteOptimizer, optimize_input, input_rounds}
use the_ai_cowboys_6_shooter.Mev.Router

abbrev cheap : AmmPool
cheap = record {
  reserve_x = 1_000_000;
  reserve_y = 2_000_000;
  fee_numerator = 3;
  fee_denominator = 1000;
  pool_id = 1;
}

abbrev dear : AmmPool
dear = record {
  reserve_x = 1_000_000;
  reserve_y = 1_500_000;
  fee_numerator = 3;
  fee_denominator = 1000;
  pool_id = 2;
}

abbrev registry : PoolRegistry
registry = register_pool (register_pool Registry.new cheap (7 ∷ []) (8 ∷ [])) dear (7 ∷ []) (8 ∷ [])

register_pool-get_pools_for_pair_example :
    (get_pool (register_pool registry cheap (7 ∷ []) (9 ∷ [])) 1 ≡ some cheap)
    × In cheap
        (get_pools_for_pair (register_pool registry cheap (7 ∷ []) (9 ∷ [])) (7 ∷ []) (9 ∷ []))
    × In cheap
        (get_pools_for_pair (register_pool registry cheap (7 ∷ []) (9 ∷ [])) (9 ∷ []) (7 ∷ []))
register_pool-get_pools_for_pair_example =
    register_pool-get_pools_for_pair registry cheap (7 ∷ []) (9 ∷ [])

abbrev swap : SwapInstruction
swap = record {
  pool_id = 1 ∷ [];
  token_in = 7 ∷ [];
  token_out = 8 ∷ [];
  amount_in = 10;
  min_amount_out = 0;
  user = [];
}

abbrev registry-IsPool : (p : AmmPool) → In p (cheap ∷ dear ∷ []) → IsPool p
registry-IsPool p (inl e) = rw (e) (omega arith)
registry-IsPool p (inr (inl e)) = rw (e) (omega arith)
registry-IsPool p (inr (inr h)) = absurd h

-- A route of another length than two gets ten times its profit.
one_leg :
    (optimize_input (record { legs = []; expected_profit = 5 })
      ≡ record { input_amount = 50; expected_profit = 5; expected_output = 55 })
unfolding optimize_input
one_leg = refl
