-- ===== src/Net/Solana/Wire.antt =====
-- A reference decoder of signed transactions, read off the format and not off the encoder.
use the_ai_cowboys_6_shooter.Prelude.{
  ℕ, zero, suc, ◌+◌, ◌-◌, ◌*◌, ltb, true, false, Option, none, some, ◌>>=◌, List, [], ◌∷◌,
}
use the_ai_cowboys_6_shooter.Net.Solana.{Key, SolanaInstruction, SolanaTransaction}

-- Seven bits to a byte, the lowest first, the top bit set on all but the last; at most 3 bytes.
unfoldable pub read_compact : ℕ → List ℕ → Option (ℕ × List ℕ)
read_compact zero bytes = none
read_compact (suc rounds) [] = none
read_compact (suc rounds) (b ∷ bytes) = elim (ltb b 128) [
  | true ↦ some (b, bytes)
  | false ↦ do r ← read_compact rounds bytes; some (b - 128 + 128 * r.0, r.1)
]

unfoldable pub read_bytes : ℕ → List ℕ → Option (List ℕ × List ℕ)
read_bytes zero bytes = some ([], bytes)
read_bytes (suc n) [] = none
read_bytes (suc n) (b ∷ bytes) = do r ← read_bytes n bytes; some (b ∷ r.0, r.1)

unfoldable pub read_keys : ℕ → List ℕ → Option (List Key × List ℕ)
read_keys zero bytes = some ([], bytes)
read_keys (suc n) bytes = do
  key ← read_bytes 32 bytes
  keys ← read_keys n (key.1)
  some (key.0 ∷ keys.0, keys.1)

-- A length and as many bytes.
unfoldable pub read_block : List ℕ → Option (List ℕ × List ℕ)
read_block bytes = do n ← read_compact 3 bytes; read_bytes (n.0) (n.1)

unfoldable pub read_instructions : ℕ → List ℕ → Option (List SolanaInstruction × List ℕ)
read_instructions zero bytes = some ([], bytes)
read_instructions (suc n) [] = none
read_instructions (suc n) (program ∷ bytes) = do
  accounts ← read_block bytes
  payload ← read_block (accounts.1)
  rest ← read_instructions n (payload.1)
  some (
    record { program_id_idx = program; account_indices = accounts.0; payload = payload.0 } ∷ rest.0,
    rest.1,
  )

unfoldable pub read_message : List ℕ → Option (SolanaTransaction × List ℕ)
read_message (signers ∷ readonly_signed ∷ readonly_unsigned ∷ bytes) = do
  n ← read_compact 3 bytes
  keys ← read_keys (n.0) (n.1)
  blockhash ← read_bytes 32 (keys.1)
  m ← read_compact 3 (blockhash.1)
  instructions ← read_instructions (m.0) (m.1)
  some (
    record {
      recent_blockhash = blockhash.0;
      instructions = instructions.0;
      account_keys = keys.0;
      num_signers = signers;
      num_readonly_signed = readonly_signed;
      num_readonly_unsigned = readonly_unsigned;
    },
    instructions.1,
  )
read_message _ = none

-- One signature of 64 bytes and the message.
unfoldable pub read_signed : List ℕ → Option (List ℕ × SolanaTransaction)
read_signed bytes = do
  n ← read_compact 3 bytes
  signature ← read_bytes 64 (n.1)
  message ← read_message (signature.1)
  some (signature.0, message.0)
