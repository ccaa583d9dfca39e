-- ===== src/Mev/Amm.antt =====
-- The parser of swap instructions of src/mev/amm.rs, on the transactions of src/net/p2p.rs. An
-- account is the list of the bytes of its string.
pub mod RoundTrip
pub mod Registry
pub mod Pairs
mod Tests
use the_ai_cowboys_6_shooter.Prelude.{
  ℕ, zero, suc, ◌+◌, ◌*◌, ltb, ◌||◌, if◌then◌else◌, Bool, true, false, Option, none, some, List, [],
  ◌∷◌, length, get_elem?, eq_list,
}
use the_ai_cowboys_6_shooter.Net.Base58.{bs58_decode}
use the_ai_cowboys_6_shooter.Net.Solana.{Key, zero_key}
use the_ai_cowboys_6_shooter.Mev.Executor.{
  take, key_of, raydium_swap_discriminator, orca_swap_discriminator, meteora_swap_discriminator,
}

pub record MempoolTransaction : Type 0 where
  pub signature : List ℕ
  pub program_ids : List (List ℕ)
  pub accounts : List (List ℕ)
  pub payload : List ℕ
  pub slot : ℕ
  pub received_at_ns : ℕ

pub record SwapInstruction : Type 0 where
  pub pool_id : Key
  pub token_in : Key
  pub token_out : Key
  pub amount_in : ℕ
  pub min_amount_out : ℕ
  pub user : Key

abbrev pub drop : ℕ → List ℕ → List ℕ
drop zero xs = xs
drop (suc n) [] = []
drop (suc n) (x ∷ xs) = drop n xs

-- `from_le_bytes`
unfoldable pub from_le_bytes : List ℕ → ℕ
from_le_bytes [] = 0
from_le_bytes (b ∷ bytes) = b + 256 * from_le_bytes bytes

-- The `u64` in the eight bytes from `at` on.
abbrev pub u64_at : List ℕ → ℕ → ℕ
u64_at bytes at = from_le_bytes (take 8 (drop at bytes))

abbrev pub decode_account : List ℕ → Key
decode_account s = key_of (bs58_decode s)

abbrev pub decoded : Option (List ℕ) → Key
decoded none = zero_key
decoded (some s) = decode_account s

abbrev pub account_at : List (List ℕ) → ℕ → Key
account_at accounts idx = decoded (get_elem? accounts idx)

unfoldable pub parse_raydium : MempoolTransaction → Option SwapInstruction
parse_raydium tx =
    if ltb (length tx.payload) 24 || ltb (length tx.accounts) 18
    then none
    else some (record {
      pool_id = account_at tx.accounts 1;
      token_in = account_at tx.accounts 15;
      token_out = account_at tx.accounts 16;
      amount_in = u64_at tx.payload 8;
      min_amount_out = u64_at tx.payload 16;
      user = account_at tx.accounts 17;
    })

unfoldable pub parse_orca : MempoolTransaction → Option SwapInstruction
parse_orca tx =
    if ltb (length tx.payload) 16 || ltb (length tx.accounts) 11
    then none
    else some (record {
      pool_id = account_at tx.accounts 2;
      token_in = account_at tx.accounts 5;
      token_out = account_at tx.accounts 7;
      amount_in = u64_at tx.payload 8;
      min_amount_out = if ltb (length tx.payload) 24 then 0 else u64_at tx.payload 16;
      user = account_at tx.accounts 1;
    })

unfoldable pub parse_meteora : MempoolTransaction → Option SwapInstruction
parse_meteora tx =
    if ltb (length tx.payload) 24 || ltb (length tx.accounts) 10
    then none
    else some (record {
      pool_id = account_at tx.accounts 0;
      token_in = account_at tx.accounts 5;
      token_out = account_at tx.accounts 6;
      amount_in = u64_at tx.payload 8;
      min_amount_out = u64_at tx.payload 16;
      user = account_at tx.accounts 8;
    })

-- The dispatch on the first eight bytes.
unfoldable pub parse_swap_instruction : MempoolTransaction → Option SwapInstruction
parse_swap_instruction tx =
    let discriminator = take 8 tx.payload in
    if ltb (length tx.payload) 8
    then none
    else (if eq_list discriminator raydium_swap_discriminator
        then parse_raydium tx
        else (if eq_list discriminator orca_swap_discriminator
            then parse_orca tx
            else (if eq_list discriminator meteora_swap_discriminator
                then parse_meteora tx
                else none)))
