-- ===== src/Net/Solana/Tests.antt =====
-- A transfer, signed and read back.
use the_ai_cowboys_6_shooter.Prelude.{ℕ, ◌≡◌, refl, arith, some, List, [], ◌∷◌, replicate}
use the_ai_cowboys_6_shooter.Net.Solana.{
  SolanaTransaction, compact_loop, compact_u16_encode, build_transfer_ix, to_le_bytes,
  serialize_message, sign_and_serialize,
}
use the_ai_cowboys_6_shooter.Net.Solana.Wire.{read_signed}
use the_ai_cowboys_6_shooter.Net.Solana.RoundTrip.{
  AllKeys, AllCounted, IsWire, read_signed-sign_and_serialize,
}

-- 300 is 44 and 2 groups of 128.
three_hundred : compact_u16_encode 300 [] ≡ 172 ∷ 2 ∷ []
unfolding compact_loop
three_hundred = refl

-- A stand-in for a signature scheme.
abbrev sign : List ℕ → List ℕ
sign message = replicate 64 7

transfer : SolanaTransaction
transfer =
    let (accounts, ix) = build_transfer_ix (replicate 32 1) (replicate 32 2) 5000 in
    record {
      recent_blockhash = replicate 32 9;
      instructions = ix ∷ [];
      account_keys = accounts;
      num_signers = 1;
      num_readonly_signed = 0;
      num_readonly_unsigned = 1;
    }

transfer-IsWire : IsWire transfer
unfolding transfer build_transfer_ix to_le_bytes AllKeys AllCounted
transfer-IsWire = record {
  keys = (refl, (refl, (refl, tt)));
  key_count = omega arith;
  blockhash = refl;
  counted = (omega arith, omega arith, tt);
  instruction_count = omega arith;
}

read_signed-sign_and_serialize_example :
    read_signed (sign_and_serialize sign transfer)
    ≡ some (sign (serialize_message transfer), transfer)
read_signed-sign_and_serialize_example =
    read_signed-sign_and_serialize sign transfer (λ message. refl) transfer-IsWire
