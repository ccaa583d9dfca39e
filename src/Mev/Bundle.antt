-- ===== src/Mev/Bundle.antt =====
-- src/mev/bundle.rs: the bundles of a route and their submission, and the routes of
-- src/mev/router.rs that they carry. `none` is a panic.
pub mod Submit
mod Tests
use the_ai_cowboys_6_shooter.Prelude.{
  ℕ, zero, suc, ◌+◌, ◌/◌, ◌%◌, ◌^◌, ltb, if◌then◌else◌, Bool, true, false, Option, none, some,
  ◌>>=◌, List, [], ◌∷◌, ◌++◌, length,
}
use the_ai_cowboys_6_shooter.Net.Solana.{Key, SolanaInstruction, to_le_bytes, zero_key}
use the_ai_cowboys_6_shooter.Mev.Executor.{LiveExecutor, Submission, execute_arbitrage}

pub data SwapDirection : Type 0 where
  x_to_y : SwapDirection
  y_to_x : SwapDirection

pub record RouteLeg : Type 0 where
  pub pool_id : Key
  pub token_in : Key
  pub token_out : Key
  pub direction : SwapDirection

pub record ArbitrageRoute : Type 0 where
  pub legs : List RouteLeg
  pub expected_profit : ℕ

pub record OptimalInput : Type 0 where
  pub input_amount : ℕ
  pub expected_profit : ℕ
  pub expected_output : ℕ

pub record TransactionBundle : Type 0 where
  pub transactions : List (List ℕ)
  pub tip_lamports : ℕ
  pub blockhash : Key

pub record BundleConstructor : Type 0 where
  pub dry_run : Bool
  pub executor : Option LiveExecutor

unfoldable pub new : Bool → BundleConstructor
new dry_run = record { dry_run = dry_run; executor = none }

unfoldable pub with_executor : BundleConstructor → LiveExecutor → BundleConstructor
with_executor constructor executor = record constructor { executor = some executor }

unfoldable pub build_swap_ix : Key → Key → Key → ℕ → List ℕ
build_swap_ix pool_id token_in token_out amount =
    9
    ∷ 0
    ∷ 0
    ∷ 0
    ∷ 0
    ∷ 0
    ∷ 0
    ∷ 0
    ∷ (to_le_bytes 16 amount ++ to_le_bytes 16 0 ++ pool_id ++ token_in ++ token_out)

unfoldable pub build_tip_ix : ℕ → List ℕ
build_tip_ix tip_lamports = 2 ∷ 0 ∷ 0 ∷ 0 ∷ to_le_bytes 8 tip_lamports

-- The loop over the legs, and the tip after it.
unfoldable pub build_legs : List RouteLeg → ℕ → List (List ℕ) → List (List ℕ)
build_legs [] amount rest = rest
build_legs (leg ∷ legs) amount rest =
    build_swap_ix leg.pool_id leg.token_in leg.token_out amount ∷ build_legs legs amount rest

unfoldable pub construct : ArbitrageRoute → OptimalInput → TransactionBundle
construct route optimal =
    let tip = route.expected_profit / 10 in
    record {
      transactions = build_legs route.legs optimal.input_amount (build_tip_ix tip ∷ []);
      tip_lamports = tip;
      blockhash = zero_key;
    }

-- All but the last, as `submit` slices them.
abbrev pub all_but_last : List (List ℕ) → List (List ℕ)
all_but_last [] = []
all_but_last (tx ∷ []) = []
all_but_last (tx ∷ next ∷ txs) = tx ∷ all_but_last (next ∷ txs)

-- The loop that rebuilds an instruction from the bytes of a transaction.
unfoldable pub rebuild : List (List ℕ) → List (List Key × SolanaInstruction)
rebuild [] = []
rebuild (tx_data ∷ txs) =
    let ix : SolanaInstruction = record {
      program_id_idx = 0;
      account_indices = [];
      payload = tx_data;
    } in
    if ltb (length tx_data) 8 then rebuild txs else ([], ix) ∷ rebuild txs

-- What `submit` comes to: a made-up signature in a dry run, an error without an executor, or what
-- the executor does.
pub data Submitted : Type 0 where
  dry_run_signature : Submitted
  no_executor : Submitted
  executed : Submission → Submitted

-- The blockhash of the node and the tip account are the executor's.
unfoldable pub submit : BundleConstructor → Key → List ℕ → TransactionBundle → Option Submitted
submit constructor recent tip_account bundle =
    if constructor.dry_run then some dry_run_signature else elim constructor.executor [
      | none ↦ some no_executor
      | some executor ↦
          execute_arbitrage executor recent tip_account (rebuild (all_but_last bundle.transactions))
            bundle.tip_lamports
          >>= λ done. some (executed done)
    ]
