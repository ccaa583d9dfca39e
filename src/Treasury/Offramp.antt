-- ===== src/Treasury/Offramp.antt =====
-- src/treasury/offramp.rs: the client and its off-ramp, and the configuration of mod.rs. What the
-- chain, the exchange and the clock answer is a parameter. A string is the list of its bytes.
pub mod Sound
use the_ai_cowboys_6_shooter.Prelude.{
  ℕ, ◌+◌, ◌*◌, ◌%◌, ◌^◌, ltb, leb, ◌==◌, ◌&&◌, ◌||◌, if◌then◌else◌, Bool, true, false, Option, none,
  some, List, [], ◌∷◌, map, eq_list,
}
use the_ai_cowboys_6_shooter.Prelude.Words.{add_u64, mul_u64}

pub record TreasuryConfig (F : Type 0) : Type 0 where
  pub enabled : Bool
  pub consolidation_threshold : ℕ
  pub target_stablecoin : List ℕ
  pub stablecoin_mint : Option (List ℕ)
  pub offramp_threshold_usd : F
  pub max_offramp_usd : F
  pub exchange : List ℕ
  pub exchange_api_key : Option (List ℕ)
  pub exchange_api_secret : Option (List ℕ)
  pub exchange_api_passphrase : Option (List ℕ)
  pub bank_account_id : Option (List ℕ)
  pub fiat_currency : List ℕ
  pub check_interval_secs : ℕ
  pub wallet_keypair_path : Option (List ℕ)
  pub evm_private_key : Option (List ℕ)
  pub vault_contract : Option (List ℕ)
  pub swap_router : Option (List ℕ)
  pub slippage_bps : ℕ
  pub dry_run : Bool

pub data ExchangeType : Type 0 where
  coinbase kraken : ExchangeType

-- The errors of `new` and `execute_offramp`, and what an exchange's request fails with.
pub data OfframpError : Type 0 where
  unsupported_exchange no_credentials no_bank_account request_failed : OfframpError

pub data Outcome {ℓ} (A : Type ℓ) : Type ℓ where
  ok : A → Outcome A
  err : OfframpError → Outcome A

pub record OfframpClient : Type 0 where
  pub exchange : ExchangeType
  pub api_key : List ℕ
  pub api_secret : List ℕ
  pub api_passphrase : Option (List ℕ)
  pub bank_account_id : Option (List ℕ)
  pub fiat_currency : List ℕ
  pub dry_run : Bool

-- `to_lowercase`, of an ASCII string.
abbrev pub to_lowercase : List ℕ → List ℕ
to_lowercase s = map (λ c. if leb 65 c && leb c 90 then c + 32 else c) s

-- "coinbase", "coinbase_pro", "coinbase_advanced" and "kraken".
abbrev coinbase_name : List ℕ
coinbase_name = 99 ∷ 111 ∷ 105 ∷ 110 ∷ 98 ∷ 97 ∷ 115 ∷ 101 ∷ []

abbrev coinbase_pro_name : List ℕ
coinbase_pro_name = 99 ∷ 111 ∷ 105 ∷ 110 ∷ 98 ∷ 97 ∷ 115 ∷ 101 ∷ 95 ∷ 112 ∷ 114 ∷ 111 ∷ []

abbrev coinbase_advanced_name : List ℕ
coinbase_advanced_name =
    99 ∷ 111 ∷ 105 ∷ 110 ∷ 98 ∷ 97 ∷ 115 ∷ 101 ∷ 95 ∷ 97 ∷ 100 ∷ 118 ∷ 97 ∷ 110 ∷ 99 ∷ 101 ∷ 100
    ∷ []

abbrev pub kraken_name : List ℕ
kraken_name = 107 ∷ 114 ∷ 97 ∷ 107 ∷ 101 ∷ 110 ∷ []

abbrev pub exchange_of : List ℕ → Option ExchangeType
exchange_of name =
    let s = to_lowercase name in
    if eq_list s coinbase_name || eq_list s coinbase_pro_name || eq_list s coinbase_advanced_name
    then some coinbase
    else (if eq_list s kraken_name then some kraken else none)

abbrev pub unwrap_or_default : Option (List ℕ) → List ℕ
unwrap_or_default none = []
unwrap_or_default (some s) = s

-- `OfframpClient::new`; the HTTP client it builds is left out.
unfoldable pub client_new : {F : Type 0} → TreasuryConfig F → Outcome OfframpClient
client_new config = elim (exchange_of config.exchange) [
  | none ↦ err unsupported_exchange
  | some exchange ↦ ok (record {
    exchange = exchange;
    api_key = unwrap_or_default config.exchange_api_key;
    api_secret = unwrap_or_default config.exchange_api_secret;
    api_passphrase = config.exchange_api_passphrase;
    bank_account_id = config.bank_account_id;
    fiat_currency = config.fiat_currency;
    dry_run = config.dry_run;
  })
]

-- What a request to an exchange is for; an answer holds the id that the reply names, if any.
pub data Call : Type 0 where
  sell withdraw : Call

-- What the world answers during one cycle: the revenue counters of the daemon, the clock in
-- seconds and as text, the replies of the exchanges (`none` is an error), and of the aggregator the
-- quoted output, whether the keypair loads, and whether a transaction is returned (`none` is an error).
pub record World : Type 0 where
  pub zk_revenue_sat : ℕ
  pub mev_revenue_sat : ℕ
  pub ml_revenue_sat : ℕ
  pub now : ℕ
  pub timestamp : List ℕ
  pub reply : ExchangeType → Call → Option (Option (List ℕ))
  pub quote : Option ℕ
  pub keypair_loads : Bool
  pub swap_returned : Bool

-- The id of a sale, or "unknown".
abbrev pub order_id : Option (List ℕ) → List ℕ
order_id none = 117 ∷ 110 ∷ 107 ∷ 110 ∷ 111 ∷ 119 ∷ 110 ∷ []
order_id (some id) = id

-- The id of a withdrawal, or that of its sale.
abbrev pub tx_id : List ℕ → Option (List ℕ) → List ℕ
tx_id order none = order
tx_id order (some id) = id

-- `coinbase_offramp` and `kraken_offramp` send the same two requests, each to its own exchange.
unfoldable pub exchange_offramp : World → ExchangeType → Outcome (List ℕ)
exchange_offramp world x = elim (world.reply x sell) [
  | none ↦ err request_failed
  | some sold ↦ elim (world.reply x withdraw) [
    | none ↦ err request_failed
    | some withdrawn ↦ ok (tx_id (order_id sold) withdrawn)
  ]
]

-- `match &self.exchange`
abbrev pub dispatch : World → ExchangeType → Outcome (List ℕ)
dispatch world coinbase = exchange_offramp world coinbase
dispatch world kraken = exchange_offramp world kraken

abbrev pub is_empty : List ℕ → Bool
is_empty [] = true
is_empty (c ∷ s) = false

abbrev pub is_none : Option (List ℕ) → Bool
is_none none = true
is_none (some s) = false

-- "DRY_RUN_" and the time.
abbrev pub dry_run_id : World → List ℕ
dry_run_id world = 68 ∷ 82 ∷ 89 ∷ 95 ∷ 82 ∷ 85 ∷ 78 ∷ 95 ∷ world.timestamp

unfoldable pub execute_offramp : World → OfframpClient → Outcome (List ℕ)
execute_offramp world client =
    if client.dry_run
    then ok (dry_run_id world)
    else (if is_empty client.api_key || is_empty client.api_secret
        then err no_credentials
        else (if is_none client.bank_account_id
            then err no_bank_account
            else dispatch world client.exchange))
