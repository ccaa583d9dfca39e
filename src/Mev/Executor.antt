-- ===== src/Mev/Executor.antt =====
-- src/mev/executor.rs: the instructions of the swaps and the bundle that carries them. The signature
-- scheme is a parameter, and so is the blockhash, which the node is asked for; `none` is a panic.
pub mod Accounts
pub mod Assembly
pub mod Bundles
mod Tests
use the_ai_cowboys_6_shooter.Prelude.{
  ℕ, zero, suc, ◌+◌, ◌-◌, ◌%◌, ◌==◌, ◌||◌, if◌then◌else◌, Bool, true, false, Option, none, some,
  ◌>>=◌, List, [], ◌∷◌, ◌++◌, length, get_elem?, eq_list,
}
use the_ai_cowboys_6_shooter.Net.Base58.{bs58_decode}
use the_ai_cowboys_6_shooter.Net.Solana.{
  Key, SolanaInstruction, SolanaTransaction, sign_and_serialize, to_le_bytes, zero_key,
  build_transfer_ix,
}

abbrev pub raydium_swap_discriminator : List ℕ
raydium_swap_discriminator = 9 ∷ 0 ∷ 0 ∷ 0 ∷ 0 ∷ 0 ∷ 0 ∷ 0 ∷ []

abbrev pub orca_swap_discriminator : List ℕ
orca_swap_discriminator = 248 ∷ 198 ∷ 158 ∷ 145 ∷ 225 ∷ 117 ∷ 135 ∷ 200 ∷ []

abbrev pub meteora_swap_discriminator : List ℕ
meteora_swap_discriminator = 228 ∷ 69 ∷ 165 ∷ 46 ∷ 81 ∷ 203 ∷ 154 ∷ 29 ∷ []

abbrev pub orca_program_prefix : List ℕ
orca_program_prefix = 3 ∷ 120 ∷ 164 ∷ 46 ∷ []

abbrev pub meteora_program_prefix : List ℕ
meteora_program_prefix = 2 ∷ 78 ∷ 243 ∷ 125 ∷ []

abbrev pub take : ℕ → List ℕ → List ℕ
take zero xs = []
take (suc n) [] = []
take (suc n) (x ∷ xs) = x ∷ take n xs

-- Whether the first four bytes of a key are `prefix`.
abbrev pub has_prefix : Key → List ℕ → Bool
has_prefix key prefix = eq_list (take 4 key) prefix

unfoldable pub select_discriminator : Key → List ℕ
select_discriminator program_id =
    if has_prefix program_id orca_program_prefix
    then orca_swap_discriminator
    else (if has_prefix program_id meteora_program_prefix
        then meteora_swap_discriminator
        else raydium_swap_discriminator)

-- The numbers from `i` on, `n` of them.
abbrev pub range : ℕ → ℕ → List ℕ
range i zero = []
range i (suc n) = i ∷ range (i + 1) n

-- The instruction on all the accounts but the last, which is the program; the lengths are cut to
-- `u8`, and `len() as u8 - 1` wraps.
abbrev pub call_last : List Key → List ℕ → SolanaInstruction
call_last accounts payload = record {
  program_id_idx = (length accounts - 1) % 256;
  account_indices = range 0 ((length accounts % 256 + 255) % 256);
  payload = payload;
}

unfoldable pub build_generic_swap :
    Key → List Key → Key → Key → Key → ℕ → ℕ → List Key × SolanaInstruction
build_generic_swap program_id pool_accounts user_source user_dest user_owner amount_in minimum_out =
    let accounts = pool_accounts ++ (user_source ∷ user_dest ∷ user_owner ∷ program_id ∷ []) in
    (
      accounts,
      call_last accounts
          (select_discriminator program_id ++ to_le_bytes 8 amount_in ++ to_le_bytes 8 minimum_out),
    )

-- `.ok().and_then(..).unwrap_or([0u8; 32])`
abbrev pub key_of : Option (List ℕ) → Key
key_of none = zero_key
key_of (some bytes) = if length bytes == 32 then bytes else zero_key

-- "675kPX9MHTjS2zt1qfr1NYHuzeLXfQM9H24wFSUt1Mp8"
abbrev pub raydium_program_id : List ℕ
raydium_program_id =
    54 ∷ 55 ∷ 53 ∷ 107 ∷ 80 ∷ 88 ∷ 57 ∷ 77 ∷ 72 ∷ 84 ∷ 106 ∷ 83 ∷ 50 ∷ 122 ∷ 116 ∷ 49 ∷ 113 ∷ 102
    ∷ 114 ∷ 49 ∷ 78 ∷ 89 ∷ 72 ∷ 117 ∷ 122 ∷ 101 ∷ 76 ∷ 88 ∷ 102 ∷ 81 ∷ 77 ∷ 57 ∷ 72 ∷ 50 ∷ 52 ∷ 119
    ∷ 70 ∷ 83 ∷ 85 ∷ 116 ∷ 49 ∷ 77 ∷ 112 ∷ 56 ∷ []

-- "TokenkegQfeZyiNwAJbNbGKPFXCWuBvf9Ss623VQ5DA"
abbrev pub token_program_id : List ℕ
token_program_id =
    84 ∷ 111 ∷ 107 ∷ 101 ∷ 110 ∷ 107 ∷ 101 ∷ 103 ∷ 81 ∷ 102 ∷ 101 ∷ 90 ∷ 121 ∷ 105 ∷ 78 ∷ 119 ∷ 65
    ∷ 74 ∷ 98 ∷ 78 ∷ 98 ∷ 71 ∷ 75 ∷ 80 ∷ 70 ∷ 88 ∷ 67 ∷ 87 ∷ 117 ∷ 66 ∷ 118 ∷ 102 ∷ 57 ∷ 83 ∷ 115
    ∷ 54 ∷ 50 ∷ 51 ∷ 86 ∷ 81 ∷ 53 ∷ 68 ∷ 65 ∷ []

-- The keys that `build_raydium_swap` takes, in their order.
pub record RaydiumKeys : Type 0 where
  pub amm_id : Key
  pub authority : Key
  pub open_orders : Key
  pub target_orders : Key
  pub pool_coin_token : Key
  pub pool_pc_token : Key
  pub serum_program : Key
  pub serum_market : Key
  pub serum_bids : Key
  pub serum_asks : Key
  pub serum_event_queue : Key
  pub serum_coin_vault : Key
  pub serum_pc_vault : Key
  pub serum_vault_signer : Key
  pub user_source_token : Key
  pub user_dest_token : Key
  pub user_owner : Key

unfoldable pub build_raydium_swap : RaydiumKeys → ℕ → ℕ → List Key × SolanaInstruction
build_raydium_swap k amount_in minimum_amount_out =
    let accounts : List Key =
      key_of (bs58_decode token_program_id)
      ∷ k.amm_id
      ∷ k.authority
      ∷ k.open_orders
      ∷ k.target_orders
      ∷ k.pool_coin_token
      ∷ k.pool_pc_token
      ∷ k.serum_program
      ∷ k.serum_market
      ∷ k.serum_bids
      ∷ k.serum_asks
      ∷ k.serum_event_queue
      ∷ k.serum_coin_vault
      ∷ k.serum_pc_vault
      ∷ k.serum_vault_signer
      ∷ k.user_source_token
      ∷ k.user_dest_token
      ∷ k.user_owner
      ∷ key_of (bs58_decode raydium_program_id)
      ∷ [] in
    (
      accounts,
      call_last accounts (
          raydium_swap_discriminator
          ++ to_le_bytes 8 amount_in
          ++ to_le_bytes 8 minimum_amount_out),
    )

-- `all_accounts.contains(acc)`
abbrev pub contains : List Key → Key → Bool
contains [] acc = false
contains (a ∷ all) acc = eq_list a acc || contains all acc

-- The loop that adds the accounts that are not there yet.
unfoldable pub add_accounts : List Key → List Key → List Key
add_accounts all [] = all
add_accounts all (acc ∷ accounts) =
    add_accounts (if contains all acc then all else all ++ (acc ∷ [])) accounts

-- `iter().position(..)`
unfoldable pub position : List Key → Key → Option ℕ
position [] acc = none
position (a ∷ all) acc = if eq_list a acc then some 0 else (position all acc >>= λ i. some (suc i))

-- `.unwrap_or(0) as u8`
abbrev pub index_u8 : Option ℕ → ℕ
index_u8 none = 0
index_u8 (some i) = i % 256

unfoldable pub remap_one : List Key → List Key → ℕ → Option ℕ
remap_one all accounts idx = do acc ← get_elem? accounts idx; some (index_u8 (position all acc))

unfoldable pub remap_indices : List Key → List Key → List ℕ → Option (List ℕ)
remap_indices all accounts [] = some []
remap_indices all accounts (idx ∷ indices) = do
  i ← remap_one all accounts idx
  rest ← remap_indices all accounts indices
  some (i ∷ rest)

unfoldable pub remap : List Key → List Key → SolanaInstruction → Option SolanaInstruction
remap all accounts ix = do
  program ← remap_one all accounts ix.program_id_idx
  indices ← remap_indices all accounts ix.account_indices
  some (record { program_id_idx = program; account_indices = indices; payload = ix.payload })

-- The loop over the swaps.
unfoldable pub assemble :
    List Key → List (List Key × SolanaInstruction) → Option (List Key × List SolanaInstruction)
assemble all [] = some (all, [])
assemble all ((accounts, ix) ∷ swaps) = do
  let known = add_accounts all accounts
  one ← remap known accounts ix
  more ← assemble known swaps
  some (more.0, one ∷ more.1)

-- What `execute_arbitrage` comes to: nothing in a dry run, an error on a tip account that is no
-- base58, or the signed transactions that it submits.
pub data Submission : Type 0 where
  dry : Submission
  invalid_tip : Submission
  bundle : List (List ℕ) → Submission

pub record LiveExecutor : Type 0 where
  pub pubkey : Key
  pub sign : List ℕ → List ℕ
  pub dry_run : Bool

abbrev pub swap_tx : Key → List Key → List SolanaInstruction → SolanaTransaction
swap_tx blockhash accounts instructions = record {
  recent_blockhash = blockhash;
  instructions = instructions;
  account_keys = accounts;
  num_signers = 1;
  num_readonly_signed = 0;
  num_readonly_unsigned = 0;
}

abbrev pub transfer_tx : Key → Key → Key → ℕ → SolanaTransaction
transfer_tx blockhash from to lamports =
    let ix = build_transfer_ix from to lamports in
    record {
      recent_blockhash = blockhash;
      instructions = ix.1 ∷ [];
      account_keys = ix.0;
      num_signers = 1;
      num_readonly_signed = 0;
      num_readonly_unsigned = 1;
    }

unfoldable pub execute_arbitrage :
    LiveExecutor → Key → List ℕ → List (List Key × SolanaInstruction) → ℕ → Option Submission
execute_arbitrage executor blockhash tip_account swaps tip_lamports =
    if executor.dry_run
    then some dry
    else (assemble (executor.pubkey ∷ []) swaps >>= λ r. elim (bs58_decode tip_account) [
      | none ↦ some invalid_tip
      | some tip ↦ some (
          bundle (
            sign_and_serialize executor.sign (swap_tx blockhash r.0 r.1)
            ∷ sign_and_serialize executor.sign
                (transfer_tx blockhash executor.pubkey (key_of (some tip)) tip_lamports)
            ∷ []))
    ])
