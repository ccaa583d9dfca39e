-- ===== src/Net/Base58/Tests.antt =====
-- A key with leading zeros, written and read.
use the_ai_cowboys_6_shooter.Prelude.{ℕ, ◌≡◌, refl, arith, none, some, List, [], ◌∷◌}
use the_ai_cowboys_6_shooter.Net.Base58.{
  push_carry, scale_digits, encode_digits, bs58_encode, decode_digits, bs58_decode,
}
use the_ai_cowboys_6_shooter.Net.Base58.RoundTrip.{bs58_decode-encode}

abbrev bytes : List ℕ
bytes = 0 ∷ 0 ∷ 57 ∷ 255 ∷ 1 ∷ []

encodes : bs58_encode bytes ≡ some (49 ∷ 49 ∷ 76 ∷ 85 ∷ 114 ∷ 99 ∷ [])
unfolding bs58_encode encode_digits scale_digits push_carry
encodes = refl

-- `0` is no character of the alphabet.
refuses : bs58_decode (49 ∷ 48 ∷ []) ≡ none
unfolding bs58_decode decode_digits scale_digits push_carry
refuses = refl

bs58_decode-encode_example :
    (s : List ℕ) × (bs58_encode bytes ≡ some s) × (bs58_decode s ≡ some bytes)
bs58_decode-encode_example =
    bs58_decode-encode bytes
      (omega arith, (omega arith, (omega arith, (omega arith, (omega arith, tt)))))
