-- ===== src/Treasury/Base64/Tests.antt =====
-- The strings of the repository's tests, and the theorem of the sibling module at one of them.
use the_ai_cowboys_6_shooter.Prelude.{ℕ, ◌≡◌, refl, arith, List, [], ◌∷◌, some, none, inl, inr}
use the_ai_cowboys_6_shooter.Treasury.Base64.{
  base64_encode, base64_decode, base64_decode_simple, encode_chunk, decode_chunks, decode_char, val,
  utf8_loop,
}
use the_ai_cowboys_6_shooter.Treasury.Base64.RoundTrip.{IsBytes, base64_round_trip}

-- "hello world"
abbrev hello : List ℕ
hello = 104 ∷ 101 ∷ 108 ∷ 108 ∷ 111 ∷ 32 ∷ 119 ∷ 111 ∷ 114 ∷ 108 ∷ 100 ∷ []

-- "aGVsbG8gd29ybGQ="
hello_encoded :
    base64_encode hello
    ≡ some (97 ∷ 71 ∷ 86 ∷ 115 ∷ 98 ∷ 71 ∷ 56 ∷ 103 ∷ 100 ∷ 50 ∷ 57 ∷ 121 ∷ 98 ∷ 71 ∷ 81 ∷ 61 ∷ [])
unfolding base64_encode encode_chunk
hello_encoded = refl

-- A line feed is a digit of value 0 to the off-ramp's decoder, and nothing to the executor's; a
-- byte that begins no UTF-8 is an error of the first.
line_feed :
    (base64_decode (97 ∷ 71 ∷ 10 ∷ 86 ∷ []) ≡ some (104 ∷ 96 ∷ 21 ∷ []))
    × (base64_decode_simple (97 ∷ 71 ∷ 10 ∷ 86 ∷ []) ≡ 104 ∷ 101 ∷ [])
    × (base64_decode (255 ∷ 97 ∷ []) ≡ none)
unfolding base64_decode base64_decode_simple decode_chunks decode_char val utf8_loop
line_feed = (refl, refl, refl)

abbrev two_bytes : List ℕ
two_bytes = 104 ∷ 255 ∷ []

abbrev two_bytes-IsBytes : IsBytes two_bytes
two_bytes-IsBytes b (inl e) = omega arith
two_bytes-IsBytes b (inr (inl e)) = omega arith
two_bytes-IsBytes b (inr (inr e)) = absurd e

base64_round_trip_example :
    (e : List ℕ) × (base64_encode two_bytes ≡ some e)
    × (base64_decode e ≡ some two_bytes)
    × (base64_decode_simple e ≡ two_bytes)
base64_round_trip_example = base64_round_trip two_bytes two_bytes-IsBytes
