-- ===== src/Net/Solana/RoundTrip.antt =====
-- Reading back what `sign_and_serialize` writes.
use the_ai_cowboys_6_shooter.Prelude.{
  ℕ, zero, suc, ◌+◌, ◌-◌, ◌*◌, ◌/◌, ◌%◌, ◌^◌, ◌<◌, ◌≡◌, refl, arith, ltb, if◌then◌else◌, true,
  false, Bool-cases, inl, inr, some, ◌>>=◌, List, [], ◌∷◌, ◌++◌, length,
}
use mathlib.Core.Path.{subst}
use the_ai_cowboys_6_shooter.Net.Solana.{
  Key, SolanaInstruction, SolanaTransaction, compact_loop, compact_u16_encode, length_u16, put_keys,
  put_instructions, put_message, serialize_message, sign_and_serialize,
}
use the_ai_cowboys_6_shooter.Net.Solana.Wire.{
  read_compact, read_bytes, read_keys, read_block, read_instructions, read_message, read_signed,
}

read_compact-last :
    (rounds n : ℕ) (rest : List ℕ)
    → ltb 0 (n / 128) ≡ false
    → read_compact (suc rounds) (compact_loop (suc rounds) n rest) ≡ some (n, rest)
unfolding read_compact compact_loop
read_compact-last rounds n rest e =
    let last : ltb (n % 128) 128 ≡ true = ground arith in
    let whole : n % 128 ≡ n = ground (arith, e) in
    rw (e, if◌then◌else◌, read_compact, last, whole) refl

read_compact-compact_loop :
    (rounds n : ℕ) (rest : List ℕ)
    → n < 128 ^ suc rounds
    → read_compact (suc rounds) (compact_loop (suc rounds) n rest) ≡ some (n, rest)
unfolding read_compact compact_loop
read_compact-compact_loop zero n rest h =
    read_compact-last zero n rest (let few : n / 128 ≡ 0 = omega (arith, h) in ground (arith, few))
read_compact-compact_loop (suc rounds) n rest h = elim (Bool-cases (ltb 0 (n / 128))) [
  | inl e ↦
      let more : ltb (n % 128 + 128) 128 ≡ false = ground arith in
      let power : 128 ^ suc (suc rounds) ≡ 128 ^ suc rounds * 128 = omega arith in
      let again = read_compact-compact_loop rounds (n / 128) rest (omega (arith, h, power)) in
      let whole : n % 128 + 128 - 128 + 128 * (n / 128) ≡ n = omega arith in
      rw (e, if◌then◌else◌, read_compact, more, again, ◌>>=◌, whole) refl
  | inr e ↦ read_compact-last (suc rounds) n rest e
]

-- The three bytes are enough for every length.
compact_round_trip :
    (n : ℕ) (rest : List ℕ)
    → n < 2 ^ 16
    → read_compact 3 (compact_u16_encode (n % 2 ^ 16) rest) ≡ some (n, rest)
compact_round_trip n rest h =
    let same : n % 2 ^ 16 ≡ n = omega arith in
    rw (same) (read_compact-compact_loop 2 n rest (omega (arith, h)))

read_bytes-append : (xs rest : List ℕ) → read_bytes (length xs) (xs ++ rest) ≡ some (xs, rest)
unfolding read_bytes
read_bytes-append [] rest = refl
read_bytes-append (x ∷ xs) rest = let e = read_bytes-append xs rest in rw (e, ◌>>=◌) refl

-- Keys of 32 bytes.
unfoldable pub AllKeys : List Key → Type 0
AllKeys [] = Unit
AllKeys (key ∷ keys) = (length key ≡ 32) × AllKeys keys

-- Lists that a `u16` can count.
unfoldable pub AllCounted : List SolanaInstruction → Type 0
AllCounted [] = Unit
AllCounted (ix ∷ instructions) =
    (length ix.account_indices < 2 ^ 16) × (length ix.payload < 2 ^ 16) × AllCounted instructions

pub record IsWire (tx : SolanaTransaction) : Type 0 where
  pub keys : AllKeys tx.account_keys
  pub key_count : length tx.account_keys < 2 ^ 16
  pub blockhash : length tx.recent_blockhash ≡ 32
  pub counted : AllCounted tx.instructions
  pub instruction_count : length tx.instructions < 2 ^ 16

read_bytes-key :
    (key rest : List ℕ) → length key ≡ 32 → read_bytes 32 (key ++ rest) ≡ some (key, rest)
read_bytes-key key rest e =
    subst (λ n. read_bytes n (key ++ rest) ≡ some (key, rest)) e (read_bytes-append key rest)

read_keys-put_keys :
    (keys : List Key) (rest : List ℕ)
    → AllKeys keys
    → read_keys (length keys) (put_keys keys rest) ≡ some (keys, rest)
unfolding read_keys put_keys AllKeys
read_keys-put_keys [] rest h = refl
read_keys-put_keys (key ∷ keys) rest (h, hs) =
    let one = read_bytes-key key (put_keys keys rest) h in
    let more = read_keys-put_keys keys rest hs in rw (one, ◌>>=◌, more) refl

read_block-bytes :
    (xs rest : List ℕ)
    → length xs < 2 ^ 16
    → read_block (compact_u16_encode (length_u16 xs) (xs ++ rest)) ≡ some (xs, rest)
unfolding read_block
read_block-bytes xs rest h =
    let n = compact_round_trip (length xs) (xs ++ rest) h in
    rw (n, ◌>>=◌) (read_bytes-append xs rest)

read_instructions-put_instructions :
    (instructions : List SolanaInstruction) (rest : List ℕ)
    → AllCounted instructions
    → read_instructions (length instructions) (put_instructions instructions rest)
      ≡ some (instructions, rest)
unfolding read_instructions put_instructions AllCounted
read_instructions-put_instructions [] rest h = refl
read_instructions-put_instructions (ix ∷ instructions) rest (a, d, h) =
    let payload = read_block-bytes ix.payload (put_instructions instructions rest) d in
    let accounts =
      read_block-bytes ix.account_indices
        (compact_u16_encode (length_u16 ix.payload)
          (ix.payload ++ put_instructions instructions rest))
        a in
    let more = read_instructions-put_instructions instructions rest h in
    rw (accounts, ◌>>=◌, payload, more) refl

read_message-put_message :
    (tx : SolanaTransaction) (rest : List ℕ)
    → IsWire tx
    → read_message (put_message tx rest) ≡ some (tx, rest)
unfolding read_message put_message
read_message-put_message tx rest w =
    let ixs = put_instructions tx.instructions rest in
    let tail = compact_u16_encode (length_u16 tx.instructions) ixs in
    let n =
      compact_round_trip (length tx.account_keys)
        (put_keys tx.account_keys (tx.recent_blockhash ++ tail)) w.key_count in
    let keys = read_keys-put_keys tx.account_keys (tx.recent_blockhash ++ tail) w.keys in
    let blockhash = read_bytes-key tx.recent_blockhash tail w.blockhash in
    let m = compact_round_trip (length tx.instructions) ixs w.instruction_count in
    let all = read_instructions-put_instructions tx.instructions rest w.counted in
    rw (n, ◌>>=◌, keys, blockhash, m, all) refl

-- A transaction with keys and a blockhash of 32 bytes and lists of fewer than 2^16 elements, signed
-- by a scheme of 64-byte signatures, is read back from its bytes with the signature of its message.
pub read_signed-sign_and_serialize :
    (sign : List ℕ → List ℕ) (tx : SolanaTransaction)
    → ((message : List ℕ) → length (sign message) ≡ 64)
    → IsWire tx
    → read_signed (sign_and_serialize sign tx) ≡ some (sign (serialize_message tx), tx)
unfolding read_signed sign_and_serialize
read_signed-sign_and_serialize sign tx long w =
    let message = serialize_message tx in
    let one = compact_round_trip 1 (sign message ++ message) (omega arith) in
    let signature =
      subst (λ n. read_bytes n (sign message ++ message) ≡ some (sign message, message))
        (long message) (read_bytes-append (sign message) message) in
    let whole = read_message-put_message tx [] w in rw (one, ◌>>=◌, signature, whole) refl
