-- ===== src/Treasury/Pipeline.antt =====
-- src/treasury/mod.rs and keeper.rs: the state, the keeper's consolidation and the loop over it and
-- the off-ramp. The operations on `f64` are a parameter; a counter wraps.
pub mod Runs
mod Tests
use the_ai_cowboys_6_shooter.Prelude.{
  ℕ, ◌+◌, ◌*◌, ◌%◌, ◌^◌, ltb, leb, ◌==◌, ◌&&◌, ◌||◌, if◌then◌else◌, Bool, true, false, Option, none,
  some, List, [], ◌∷◌, map, eq_list,
}
use the_ai_cowboys_6_shooter.Prelude.Words.{add_u64, mul_u64}
use the_ai_cowboys_6_shooter.Treasury.Offramp.{
  TreasuryConfig, ExchangeType, coinbase, kraken, OfframpError, Outcome, ok, err, OfframpClient,
  client_new, Call, sell, withdraw, World, exchange_offramp, dispatch, is_empty, is_none,
  dry_run_id, execute_offramp, kraken_name, unsupported_exchange, no_credentials, no_bank_account,
  request_failed,
}

-- The operations on `f64` that the treasury uses; `to_u64` is the cast.
pub record Amounts : Type 1 where
  pub F : Type 0
  pub of_u64 : ℕ → F
  pub to_u64 : F → ℕ
  pub mul : F → F → F
  pub div : F → F → F
  pub min_float : F → F → F
  pub ge : F → F → Bool

pub record TreasuryState : Type 0 where
  pub total_profit_accumulated : ℕ
  pub stablecoin_balance_micro : ℕ
  pub total_fiat_withdrawn_cents : ℕ
  pub offramp_cycles : ℕ
  pub consolidation_swaps : ℕ
  pub last_offramp_ts : ℕ
  pub offramp_failures : ℕ

abbrev pub new : TreasuryState
new = record {
  total_profit_accumulated = 0;
  stablecoin_balance_micro = 0;
  total_fiat_withdrawn_cents = 0;
  offramp_cycles = 0;
  consolidation_swaps = 0;
  last_offramp_ts = 0;
  offramp_failures = 0;
}

pub record TreasuryKeeper (F : Type 0) : Type 0 where
  pub cooldown_secs : ℕ
  pub max_gas_price : ℕ
  pub threshold_multiplier : F

-- The swap on Solana: its output, `none` an error.
unfoldable pub jupiter_swap : {F : Type 0} → World → TreasuryConfig F → Option ℕ
jupiter_swap world config = elim world.quote [
  | none ↦ none
  | some out_amount ↦
      if out_amount == 0 || is_none config.wallet_keypair_path
      then none
      else (if world.keypair_loads && world.swap_returned then some out_amount else none)
]

-- The swap on the other chains.
abbrev pub uniswap_swap : Option ℕ
uniswap_swap = none

abbrev pub count_swap : TreasuryState → Option ℕ → TreasuryState
count_swap s none = s
count_swap s (some amount) =
    if ltb 0 amount then record s { consolidation_swaps = add_u64 s.consolidation_swaps 1 } else s

module _ (amounts : Amounts) where
  open amounts use {F, of_u64, to_u64, mul, div, min_float, ge}

  unfoldable pub keeper_new : TreasuryConfig F → TreasuryKeeper F
  keeper_new config = record {
    cooldown_secs = mul_u64 config.check_interval_secs 2;
    max_gas_price = 50_000_000;
    threshold_multiplier = of_u64 1;
  }

  -- The micro-dollars that a dry run credits for an amount of lamports.
  abbrev pub simulated_micro_usd : ℕ → ℕ
  simulated_micro_usd total =
      to_u64 (mul (mul (div (of_u64 total) (of_u64 1_000_000_000)) (of_u64 150)) (of_u64 1_000_000))

  -- The new state, and the amount or the error; `solana` tells whether the chain is Solana.
  unfoldable pub consolidate_to_stablecoin :
      World → Bool → TreasuryConfig F → TreasuryKeeper F → TreasuryState → TreasuryState × Option ℕ
  consolidate_to_stablecoin world solana config keeper s =
      let effective =
        to_u64 (mul (of_u64 config.consolidation_threshold) keeper.threshold_multiplier) in
      let total = s.total_profit_accumulated in
      if ltb total effective
      then (s, some 0)
      else (if config.dry_run
          then (
            record s {
              stablecoin_balance_micro =
                  add_u64 s.stablecoin_balance_micro (simulated_micro_usd total);
            },
            some total,
          )
          else (s, if solana then jupiter_swap world config else uniswap_swap))

  -- The first two steps of a round: the revenue, and the consolidation above its threshold.
  unfoldable pub collect :
      World → Bool → TreasuryConfig F → TreasuryKeeper F → TreasuryState → TreasuryState
  collect world solana config keeper s =
      let total_rev =
        add_u64 (add_u64 world.zk_revenue_sat world.mev_revenue_sat) world.ml_revenue_sat in
      let s' : TreasuryState = record s { total_profit_accumulated = total_rev } in
      let (s'', amount) = consolidate_to_stablecoin world solana config keeper s' in
      if leb config.consolidation_threshold total_rev then count_swap s'' amount else s'

  abbrev pub count_offramp : World → F → TreasuryState → Outcome (List ℕ) → TreasuryState
  count_offramp world amount s (err e) = record s {
    offramp_failures = add_u64 s.offramp_failures 1;
  }
  count_offramp world amount s (ok id) =
      let cents = to_u64 (mul amount (of_u64 100)) in
      record s {
        offramp_cycles = add_u64 s.offramp_cycles 1;
        total_fiat_withdrawn_cents = add_u64 s.total_fiat_withdrawn_cents cents;
        last_offramp_ts = world.now;
      }

  abbrev pub stable_usd : TreasuryState → F
  stable_usd s = div (of_u64 s.stablecoin_balance_micro) (of_u64 1_000_000)

  -- The third step: the off-ramp above its threshold.
  unfoldable pub withdraw_step :
      World → TreasuryConfig F → OfframpClient → TreasuryState → TreasuryState
  withdraw_step world config client s =
      if ge (stable_usd s) config.offramp_threshold_usd
      then count_offramp world (min_float (stable_usd s) config.max_offramp_usd) s
          (execute_offramp world client)
      else s

  -- One round of the loop.
  unfoldable pub round :
      Bool
      → TreasuryConfig F
      → OfframpClient
      → TreasuryKeeper F
      → TreasuryState
      → World
      → TreasuryState
  round solana config client keeper s world =
      withdraw_step world config client (collect world solana config keeper s)

  -- The loop, for what the world answers in each round until the shutdown.
  unfoldable pub rounds :
      Bool
      → TreasuryConfig F
      → OfframpClient
      → TreasuryKeeper F
      → TreasuryState
      → List World
      → TreasuryState
  rounds solana config client keeper s [] = s
  rounds solana config client keeper s (world ∷ worlds) =
      rounds solana config client keeper (round solana config client keeper s world) worlds

  -- The state that the loop leaves; `none` where it is disabled, an error where the exchange is
  -- not supported.
  unfoldable pub run : Bool → TreasuryConfig F → List World → Outcome (Option TreasuryState)
  run solana config worlds =
      if config.enabled
      then elim (client_new config) [
        | err e ↦ err e
        | ok client ↦ ok (some (rounds solana config client (keeper_new config) new worlds))
      ]
      else ok none
