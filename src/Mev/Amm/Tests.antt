-- ===== src/Mev/Amm/Tests.antt =====
-- A swap that the executor builds, seen in the mempool.
use the_ai_cowboys_6_shooter.Prelude.{
  ℕ, zero, suc, ◌<◌, ◌≡◌, refl, arith, Option, none, some, List, [], ◌∷◌, length-replicate,
  replicate,
}
use the_ai_cowboys_6_shooter.Net.Base58.{
  push_carry, scale_digits, encode_digits, decode_digits, bs58_encode, bs58_decode,
}
use the_ai_cowboys_6_shooter.Net.Base58.RoundTrip.{Below}
use the_ai_cowboys_6_shooter.Net.Solana.{Key}
use the_ai_cowboys_6_shooter.Mev.Executor.{RaydiumKeys, build_raydium_swap}
use the_ai_cowboys_6_shooter.Mev.Amm.{MempoolTransaction, parse_swap_instruction}
use the_ai_cowboys_6_shooter.Mev.Amm.RoundTrip.{
  IsKey, encode_all, parse_swap_instruction-build_raydium_swap,
}

abbrev key : ℕ → Key
key n = replicate 32 n

abbrev keys : RaydiumKeys
keys = record {
  amm_id = key 10;
  authority = key 11;
  open_orders = key 12;
  target_orders = key 13;
  pool_coin_token = key 14;
  pool_pc_token = key 15;
  serum_program = key 16;
  serum_market = key 17;
  serum_bids = key 18;
  serum_asks = key 19;
  serum_event_queue = key 20;
  serum_coin_vault = key 21;
  serum_pc_vault = key 22;
  serum_vault_signer = key 23;
  user_source_token = key 1;
  user_dest_token = key 2;
  user_owner = key 3;
}

replicate-Below : (m n : ℕ) → n < 256 → Below 256 (replicate m n)
replicate-Below zero n h = tt
replicate-Below (suc m) n h = (h, replicate-Below m n h)

key-IsKey : (n : ℕ) → n < 256 → IsKey (key n)
key-IsKey n h = record { bytes = replicate-Below 32 n h; size = length-replicate 32 n }

abbrev found : Option (List (List ℕ)) → List (List ℕ)
found none = []
found (some strings) = strings

abbrev tx : MempoolTransaction
tx = record {
  signature = [];
  program_ids = [];
  accounts = found (encode_all (build_raydium_swap keys 5000 4900).0);
  payload = (build_raydium_swap keys 5000 4900).1.payload;
  slot = 8;
  received_at_ns = 0;
}

strings : encode_all (build_raydium_swap keys 5000 4900).0 ≡ some tx.accounts
unfolding encode_all build_raydium_swap bs58_encode bs58_decode encode_digits decode_digits
    scale_digits push_carry
strings = refl

parse_swap_instruction-build_raydium_swap_example :
    parse_swap_instruction tx
    ≡ some (record {
      pool_id = key 10;
      token_in = key 1;
      token_out = key 2;
      amount_in = 5000;
      min_amount_out = 4900;
      user = key 3;
    })
parse_swap_instruction-build_raydium_swap_example =
    parse_swap_instruction-build_raydium_swap keys 5000 4900 tx (key-IsKey 10 (omega arith))
      (key-IsKey 1 (omega arith)) (key-IsKey 2 (omega arith)) (key-IsKey 3 (omega arith))
      (omega arith) (omega arith) strings refl

-- Too few bytes for an instruction.
short : parse_swap_instruction (record tx { payload = 9 ∷ 0 ∷ [] }) ≡ none
unfolding parse_swap_instruction
short = refl
