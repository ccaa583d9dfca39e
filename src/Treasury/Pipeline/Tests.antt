-- ===== src/Treasury/Pipeline/Tests.antt =====
-- Amounts in whole micro-dollars, and the theorems of the modules of the treasury at them.
use the_ai_cowboys_6_shooter.Prelude.{
  ℕ, ◌*◌, ◌/◌, ◌<◌, ◌≡◌, ◌≢◌, ◌⊎◌, refl, arith, leb, min, Bool, true, false, none, some, [], ◌∷◌,
  In, inl, inr,
}
use the_ai_cowboys_6_shooter.Treasury.Offramp.{
  TreasuryConfig, OfframpClient, World, ok, err, sell, withdraw, kraken, unsupported_exchange,
  no_credentials, execute_offramp, exchange_offramp, client_new,
}
use the_ai_cowboys_6_shooter.Treasury.Pipeline.{
  Amounts, TreasuryState, keeper_new, consolidate_to_stablecoin, collect, withdraw_step,
  jupiter_swap, round, rounds, run, new,
}
use the_ai_cowboys_6_shooter.Treasury.Offramp.Sound.{Answered, execute_offramp_sound}
use the_ai_cowboys_6_shooter.Treasury.Pipeline.Runs.{
  Untouched, Repeated, revenue, run_live_idle, rounds_repeat,
}

-- Numbers with six decimals in place of `f64`.
abbrev fixed : Amounts
fixed = record {
  F = ℕ;
  of_u64 = λ n. n * 1_000_000;
  to_u64 = λ x. x / 1_000_000;
  mul = λ x y. x * y / 1_000_000;
  div = λ x y. x * 1_000_000 / y;
  min_float = min;
  ge = λ x y. leb y x;
}

abbrev config_of : Bool → TreasuryConfig ℕ
config_of dry = record {
  enabled = true;
  consolidation_threshold = 50_000_000;
  target_stablecoin = 85 ∷ 83 ∷ 68 ∷ 67 ∷ [];
  stablecoin_mint = none;
  offramp_threshold_usd = 100_000_000;
  max_offramp_usd = 10_000_000_000;
  exchange = 75 ∷ 114 ∷ 97 ∷ 107 ∷ 101 ∷ 110 ∷ [];
  exchange_api_key = some (1 ∷ []);
  exchange_api_secret = some (2 ∷ []);
  exchange_api_passphrase = none;
  bank_account_id = some (3 ∷ []);
  fiat_currency = 85 ∷ 83 ∷ 68 ∷ [];
  check_interval_secs = 300;
  wallet_keypair_path = some (4 ∷ []);
  evm_private_key = none;
  vault_contract = none;
  swap_router = none;
  slippage_bps = 50;
  dry_run = dry;
}

abbrev client_of : Bool → OfframpClient
client_of dry = record {
  exchange = kraken;
  api_key = 1 ∷ [];
  api_secret = 2 ∷ [];
  api_passphrase = none;
  bank_account_id = some (3 ∷ []);
  fiat_currency = 85 ∷ 83 ∷ 68 ∷ [];
  dry_run = dry;
}

-- A round in which everything answers; its revenue is in lamports.
abbrev world_of : ℕ → World
world_of lamports = record {
  zk_revenue_sat = lamports;
  mev_revenue_sat = 0;
  ml_revenue_sat = 0;
  now = 1000;
  timestamp = 49 ∷ 48 ∷ 48 ∷ 48 ∷ [];
  reply = λ x call. some (some (7 ∷ []));
  quote = some 150_000_000;
  keypair_loads = true;
  swap_returned = true;
}

clients :
    (client_new (config_of true) ≡ ok (client_of true))
    × (client_new (record (config_of true) { exchange = 98 ∷ [] }) ≡ err unsupported_exchange)
    × (execute_offramp (world_of 0) (record (client_of false) { api_key = [] })
        ≡ err no_credentials)
unfolding client_new execute_offramp
clients = (refl, refl, refl)

-- One SOL of revenue in a dry run: 150 dollars are credited in each of two rounds, 150 dollars are
-- withdrawn in the first and 300 in the second.
dry_rounds :
    run fixed true (config_of true) (world_of 1_000_000_000 ∷ world_of 1_000_000_000 ∷ [])
    ≡ ok (
        some (record {
          total_profit_accumulated = 1_000_000_000;
          stablecoin_balance_micro = 300_000_000;
          total_fiat_withdrawn_cents = 45_000;
          offramp_cycles = 2;
          consolidation_swaps = 2;
          last_offramp_ts = 1000;
          offramp_failures = 0;
        }))
unfolding run client_new rounds round collect consolidate_to_stablecoin keeper_new withdraw_step
    execute_offramp
dry_rounds = refl

-- The same revenue without a dry run: the swap counts, and nothing is withdrawn.
abbrev live_end : TreasuryState
live_end = record {
  total_profit_accumulated = 1_000_000_000;
  stablecoin_balance_micro = 0;
  total_fiat_withdrawn_cents = 0;
  offramp_cycles = 0;
  consolidation_swaps = 1;
  last_offramp_ts = 0;
  offramp_failures = 0;
}

live_round : run fixed true (config_of false) (world_of 1_000_000_000 ∷ []) ≡ ok (some live_end)
unfolding run client_new rounds round collect consolidate_to_stablecoin jupiter_swap keeper_new
    withdraw_step
live_round = refl

run_live_idle_example : Untouched new live_end
run_live_idle_example =
    run_live_idle fixed true (config_of false) (world_of 1_000_000_000 ∷ []) live_end refl refl
      live_round

abbrev rich : TreasuryState
rich = record new { stablecoin_balance_micro = 150_000_000 }

abbrev quiet_worlds :
    (world : World) → In world (world_of 0 ∷ world_of 0 ∷ []) → revenue world < 50_000_000
quiet_worlds world (inl e) = rw (e) (omega arith)
quiet_worlds world (inr (inl e)) = rw (e) (omega arith)
quiet_worlds world (inr (inr h)) = absurd h

rounds_repeat_example : Repeated fixed (config_of true) 2 rich (
    rounds fixed true
      (config_of true)
      (client_of true)
      (keeper_new fixed (config_of true))
      rich
      (world_of 0 ∷ world_of 0 ∷ []))
rounds_repeat_example =
    rounds_repeat fixed true (config_of true) (client_of true) (keeper_new fixed (config_of true))
      rich (world_of 0 ∷ world_of 0 ∷ []) refl refl quiet_worlds (omega arith) (omega arith)

withdrawn : execute_offramp (world_of 0) (client_of false) ≡ ok (7 ∷ [])
unfolding execute_offramp exchange_offramp
withdrawn = refl

execute_offramp_sound_example :
    (false ≡ true)
    ⊎ (((client_of false).api_key ≢ [])
        × ((client_of false).api_secret ≢ [])
        × ((client_of false).bank_account_id ≢ none)
        × Answered (world_of 0) kraken sell
        × Answered (world_of 0) kraken withdraw)
execute_offramp_sound_example =
    execute_offramp_sound (world_of 0) (client_of false) (7 ∷ []) withdrawn
