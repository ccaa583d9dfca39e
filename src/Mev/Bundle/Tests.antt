-- ===== src/Mev/Bundle/Tests.antt =====
-- A route of one leg, submitted live.
use the_ai_cowboys_6_shooter.Prelude.{◌≡◌, refl, false, none, [], ◌∷◌, replicate}
use the_ai_cowboys_6_shooter.Mev.Executor.{LiveExecutor}
use the_ai_cowboys_6_shooter.Mev.Bundle.{
  RouteLeg, ArbitrageRoute, OptimalInput, x_to_y, new, with_executor, construct, submit,
}
use the_ai_cowboys_6_shooter.Mev.Bundle.Submit.{submit_lem}

abbrev leg : RouteLeg
leg = record {
  pool_id = replicate 32 1;
  token_in = replicate 32 2;
  token_out = replicate 32 3;
  direction = x_to_y;
}

abbrev route : ArbitrageRoute
route = record { legs = leg ∷ []; expected_profit = 500 }

abbrev optimal : OptimalInput
optimal = record { input_amount = 1000; expected_profit = 500; expected_output = 1500 }

abbrev executor : LiveExecutor
executor = record { pubkey = replicate 32 3; sign = λ message. replicate 64 7; dry_run = false }

submit_lem_example :
    submit (with_executor (new false) executor) (replicate 32 9) [] (construct route optimal) ≡ none
unfolding with_executor new
submit_lem_example =
    submit_lem (replicate 32 9) [] (with_executor (new false) executor) route leg [] optimal refl
