-- ===== src/Net/Solana.antt =====
-- The transactions of src/net/solana.rs and their bytes. A byte is a number below 256, a key is the
-- list of its 32 bytes. A function that appends to a buffer has what follows in it as its last
-- argument. The signature scheme is a parameter.
pub mod Wire
pub mod RoundTrip
mod Tests
use the_ai_cowboys_6_shooter.Prelude.{
  ℕ, zero, suc, ◌+◌, ◌/◌, ◌%◌, ◌^◌, ltb, if◌then◌else◌, true, false, List, [], ◌∷◌, ◌++◌, length,
  replicate,
}

abbrev pub Key : Type 0
Key = List ℕ

pub record SolanaInstruction : Type 0 where
  pub program_id_idx : ℕ
  pub account_indices : List ℕ
  pub payload : List ℕ

pub record SolanaTransaction : Type 0 where
  pub recent_blockhash : Key
  pub instructions : List SolanaInstruction
  pub account_keys : List Key
  pub num_signers : ℕ
  pub num_readonly_signed : ℕ
  pub num_readonly_unsigned : ℕ

-- The loop of `compact_u16_encode`, with the 3 rounds that shift any `u16` to zero; setting the
-- top bit of a number below 128 adds 128.
unfoldable pub compact_loop : ℕ → ℕ → List ℕ → List ℕ
compact_loop zero val rest = rest
compact_loop (suc rounds) val rest =
    if ltb 0 (val / 128)
    then (val % 128 + 128) ∷ compact_loop rounds (val / 128) rest
    else val % 128 ∷ rest

abbrev pub compact_u16_encode : ℕ → List ℕ → List ℕ
compact_u16_encode value rest = compact_loop 3 value rest

-- `len() as u16`
abbrev pub length_u16 {ℓ} : {A : Type ℓ} → List A → ℕ
length_u16 xs = length xs % 2 ^ 16

unfoldable pub put_keys : List Key → List ℕ → List ℕ
put_keys [] rest = rest
put_keys (key ∷ keys) rest = key ++ put_keys keys rest

unfoldable pub put_instructions : List SolanaInstruction → List ℕ → List ℕ
put_instructions [] rest = rest
put_instructions (ix ∷ instructions) rest =
    ix.program_id_idx
    ∷ compact_u16_encode (length_u16 ix.account_indices) (
        ix.account_indices
        ++ compact_u16_encode (length_u16 ix.payload)
            (ix.payload ++ put_instructions instructions rest))

unfoldable pub put_message : SolanaTransaction → List ℕ → List ℕ
put_message tx rest =
    tx.num_signers
    ∷ tx.num_readonly_signed
    ∷ tx.num_readonly_unsigned
    ∷ compact_u16_encode (length_u16 tx.account_keys) (
        put_keys tx.account_keys (
          tx.recent_blockhash
          ++ compact_u16_encode (length_u16 tx.instructions)
              (put_instructions tx.instructions rest)))

abbrev pub serialize_message : SolanaTransaction → List ℕ
serialize_message tx = put_message tx []

unfoldable pub sign_and_serialize : (List ℕ → List ℕ) → SolanaTransaction → List ℕ
sign_and_serialize sign tx =
    let message = serialize_message tx in compact_u16_encode 1 (sign message ++ message)

-- `to_le_bytes` of a number of `width` bytes.
unfoldable pub to_le_bytes : ℕ → ℕ → List ℕ
to_le_bytes zero n = []
to_le_bytes (suc width) n = n % 256 ∷ to_le_bytes width (n / 256)

abbrev pub zero_key : Key
zero_key = replicate 32 0

unfoldable pub build_transfer_ix : Key → Key → ℕ → List Key × SolanaInstruction
build_transfer_ix from to lamports = (
  from ∷ to ∷ zero_key ∷ [],
  record {
    program_id_idx = 2;
    account_indices = 0 ∷ 1 ∷ [];
    payload = to_le_bytes 4 2 ++ to_le_bytes 8 lamports;
  },
)
