-- ===== src/Treasury/Base64/RoundTrip.antt =====
-- What the decoders make of an encoding.

use the_ai_cowboys_6_shooter.Prelude.{
  ℕ, ◌+◌, ◌*◌, ◌/◌, ◌%◌, ◌^◌, ◌<◌, ◌≡◌, refl, sym, ap, ap₂, ◌∙◌, arith, lt→ltb, ◌==◌, ◌&&◌, not,
  Bool, true, false, some, ◌>>=◌, if◌then◌else◌, List, [], ◌∷◌, ◌++◌, In, inl, inr,
}
use the_ai_cowboys_6_shooter.Treasury.Base64.{
  Expected, base64_encode, base64_decode, base64_decode_simple, byte_triple, sextet_triple,
  encode_chunk, decode_chunks, decode_char, val, unwrap_or_zero, filter, utf8_loop,
}
use the_ai_cowboys_6_shooter.Treasury.Base64.Alphabet.{IsCharacter, sextet_total, val-decode_char}
use the_ai_cowboys_6_shooter.Treasury.Base64.Triples.{byte_triple_sum, digits_back, bytes_back}

abbrev start : Expected
start = record { left = 0; low = 0; high = 0 }

utf8-ascii :
    (c : ℕ) (rest : List ℕ)
    → c < 128
    → utf8_loop start rest ≡ true
    → utf8_loop start (c ∷ rest) ≡ true
unfolding utf8_loop
utf8-ascii c rest h e = rw (utf8_loop, lt→ltb c 128 h, if◌then◌else◌) e

-- A filter that drops the padding and keeps the characters.
pub record Strips (keep : ℕ → Bool) : Type 0 where
  pub drops : keep 61 ≡ false
  pub keeps : (d c : ℕ) → IsCharacter d c → keep c ≡ true

-- An encoding is UTF-8, and the loop of the decoders takes it back to the data.
pub record Encodes (bytes e : List ℕ) : Type 0 where
  pub is_utf8 : utf8_loop start e ≡ true
  pub back : (keep : ℕ → Bool) → Strips keep → decode_chunks decode_char (filter keep e) ≡ bytes

encode_three :
    (b0 b1 b2 : ℕ)
    → b0 < 256
    → b1 < 256
    → b2 < 256
    → (chunk : List ℕ) × (encode_chunk true true (byte_triple b0 b1 b2) ≡ some chunk)
      × ((bytes e : List ℕ) → Encodes bytes e → Encodes (b0 ∷ b1 ∷ b2 ∷ bytes) (chunk ++ e))
unfolding encode_chunk decode_chunks
encode_three b0 b1 b2 h0 h1 h2 =
    let t = byte_triple b0 b1 b2 in
    let sum : t ≡ b0 * 65536 + b1 * 256 + b2 = byte_triple_sum b0 b1 b2 h0 h1 h2 in
    let (c0, e0, k0) = sextet_total (t / 2 ^ 18) in
    let (c1, e1, k1) = sextet_total (t / 2 ^ 12) in
    let (c2, e2, k2) = sextet_total (t / 2 ^ 6) in
    let (c3, e3, k3) = sextet_total t in
    let whole : sextet_triple (decode_char c0) (decode_char c1) (decode_char c2) (decode_char c3)
        ≡ t =
      rw (k0.back, k1.back, k2.back, k3.back) (digits_back t (omega (arith, sum))) in
    let (f0, f1, f2) = bytes_back b0 b1 b2 h0 h1 h2 t sum in
    (
      c0 ∷ c1 ∷ c2 ∷ c3 ∷ [],
      rw (encode_chunk, e0, e1, e2, e3, if◌then◌else◌, ◌>>=◌) refl,
      λ bytes e ok. record {
        is_utf8 = utf8-ascii c0 _ k0.ascii (
            utf8-ascii c1 _ k1.ascii
              (utf8-ascii c2 _ k2.ascii (utf8-ascii c3 _ k3.ascii ok.is_utf8)));
        back = λ keep s.
            rw
              (
                s.keeps _ c0 k0,
                s.keeps _ c1 k1,
                s.keeps _ c2 k2,
                s.keeps _ c3 k3,
                if◌then◌else◌,
                whole,
                f0,
                f1,
                f2,
                ok.back keep s,
              )
              refl;
      },
    )

empty-Encodes : Encodes [] []
unfolding decode_chunks utf8_loop
empty-Encodes = record { is_utf8 = refl; back = λ keep s. refl }

encode_two :
    (b0 b1 : ℕ)
    → b0 < 256
    → b1 < 256
    → (chunk : List ℕ) × (encode_chunk true false (byte_triple b0 b1 0) ≡ some chunk)
      × Encodes (b0 ∷ b1 ∷ []) chunk
unfolding encode_chunk decode_chunks
encode_two b0 b1 h0 h1 =
    let t = byte_triple b0 b1 0 in
    let sum : t ≡ b0 * 65536 + b1 * 256 + 0 = byte_triple_sum b0 b1 0 h0 h1 (omega arith) in
    let (c0, e0, k0) = sextet_total (t / 2 ^ 18) in
    let (c1, e1, k1) = sextet_total (t / 2 ^ 12) in
    let (c2, e2, k2) = sextet_total (t / 2 ^ 6) in
    let low : t % 64 ≡ 0 = omega (arith, sum) in
    let whole : sextet_triple (decode_char c0) (decode_char c1) (decode_char c2) 0 ≡ t =
      rw (k0.back, k1.back, k2.back)
        (ap (λ d. sextet_triple (t / 2 ^ 18 % 64) (t / 2 ^ 12 % 64) (t / 2 ^ 6 % 64) d) (sym low)
          ∙ digits_back t (omega (arith, sum))) in
    let (f0, f1, f2) = bytes_back b0 b1 0 h0 h1 (omega arith) t sum in
    (
      c0 ∷ c1 ∷ c2 ∷ 61 ∷ [],
      rw (encode_chunk, e0, e1, e2, if◌then◌else◌, ◌>>=◌) refl,
      record {
        is_utf8 = utf8-ascii c0 _ k0.ascii (
            utf8-ascii c1 _ k1.ascii
              (utf8-ascii c2 _ k2.ascii (utf8-ascii 61 [] (omega arith) empty-Encodes.is_utf8)));
        back = λ keep s.
            rw
              (
                s.keeps _ c0 k0,
                s.keeps _ c1 k1,
                s.keeps _ c2 k2,
                s.drops,
                if◌then◌else◌,
                whole,
                f0,
                f1,
              )
              refl;
      },
    )

encode_one :
    (b0 : ℕ)
    → b0 < 256
    → (chunk : List ℕ) × (encode_chunk false false (byte_triple b0 0 0) ≡ some chunk)
      × Encodes (b0 ∷ []) chunk
unfolding encode_chunk decode_chunks
encode_one b0 h0 =
    let t = byte_triple b0 0 0 in
    let sum : t ≡ b0 * 65536 + 0 * 256 + 0 =
      byte_triple_sum b0 0 0 h0 (omega arith) (omega arith) in
    let (c0, e0, k0) = sextet_total (t / 2 ^ 18) in
    let (c1, e1, k1) = sextet_total (t / 2 ^ 12) in
    let mid : t / 2 ^ 6 % 64 ≡ 0 = omega (arith, sum) in
    let low : t % 64 ≡ 0 = omega (arith, sum) in
    let whole : sextet_triple (decode_char c0) (decode_char c1) 0 0 ≡ t =
      rw (k0.back, k1.back)
        (ap₂ (λ d e. sextet_triple (t / 2 ^ 18 % 64) (t / 2 ^ 12 % 64) d e) (sym mid) (sym low)
          ∙ digits_back t (omega (arith, sum))) in
    let (f0, f1, f2) = bytes_back b0 0 0 h0 (omega arith) (omega arith) t sum in
    (
      c0 ∷ c1 ∷ 61 ∷ 61 ∷ [],
      rw (encode_chunk, e0, e1, if◌then◌else◌, ◌>>=◌) refl,
      record {
        is_utf8 = utf8-ascii c0 _ k0.ascii (
            utf8-ascii c1 _ k1.ascii (
              utf8-ascii 61 _ (omega arith)
                (utf8-ascii 61 [] (omega arith) empty-Encodes.is_utf8)));
        back =
            λ keep s. rw (s.keeps _ c0 k0, s.keeps _ c1 k1, s.drops, if◌then◌else◌, whole, f0) refl;
      },
    )

-- Lists of bytes.
abbrev pub IsBytes : List ℕ → Type 0
IsBytes bytes = (b : ℕ) → In b bytes → b < 256

base64_encode_total :
    (bytes : List ℕ)
    → IsBytes bytes
    → (e : List ℕ) × (base64_encode bytes ≡ some e) × Encodes bytes e
unfolding base64_encode
base64_encode_total [] h = ([], refl, empty-Encodes)
base64_encode_total (b0 ∷ []) h = encode_one b0 (h b0 (inl refl))
base64_encode_total (b0 ∷ b1 ∷ []) h = encode_two b0 b1 (h b0 (inl refl)) (h b1 (inr (inl refl)))
base64_encode_total (b0 ∷ b1 ∷ b2 ∷ bytes) h =
    let (chunk, run, join) =
      encode_three b0 b1 b2 (h b0 (inl refl)) (h b1 (inr (inl refl)))
        (h b2 (inr (inr (inl refl)))) in
    let (e, more, ok) = base64_encode_total bytes (λ b m. h b (inr (inr (inr m)))) in
    (chunk ++ e, rw (run, ◌>>=◌, more) refl, join bytes e ok)

decode_chunks-value :
    (v w : ℕ → ℕ) → ((c : ℕ) → v c ≡ w c) → (cs : List ℕ) → decode_chunks v cs ≡ decode_chunks w cs
unfolding decode_chunks
decode_chunks-value v w e [] = refl
decode_chunks-value v w e (c0 ∷ []) = refl
decode_chunks-value v w e (c0 ∷ c1 ∷ []) = rw (e c0, e c1) refl
decode_chunks-value v w e (c0 ∷ c1 ∷ c2 ∷ []) = rw (e c0, e c1, e c2) refl
decode_chunks-value v w e (c0 ∷ c1 ∷ c2 ∷ c3 ∷ rest) =
    rw (e c0, e c1, e c2, e c3, decode_chunks-value v w e rest) refl

-- For every list of bytes `base64_encode` gives a string, without a panic, and both
-- `base64_decode` of the off-ramp and `base64_decode_simple` of the executor take it back to those
-- bytes.
pub base64_round_trip :
    (bytes : List ℕ)
    → IsBytes bytes
    → (e : List ℕ) × (base64_encode bytes ≡ some e)
      × (base64_decode e ≡ some bytes)
      × (base64_decode_simple e ≡ bytes)
unfolding base64_decode base64_decode_simple
base64_round_trip bytes h =
    let (e, run, ok) = base64_encode_total bytes h in
    let here : Strips (λ b. not (b == 61)) = record {
      drops = refl;
      keeps = λ d c k. rw (k.no_padding) refl;
    } in
    let there : Strips (λ b. not (b == 61) && not (b == 10) && not (b == 13)) = record {
      drops = refl;
      keeps = λ d c k. rw (k.no_padding, k.no_feed, k.no_return) refl;
    } in
    (
      e,
      run,
      rw (ok.is_utf8, if◌then◌else◌, ok.back (λ b. not (b == 61)) here) refl,
      decode_chunks-value (λ c. unwrap_or_zero (val c)) decode_char val-decode_char
            (filter (λ b. not (b == 61) && not (b == 10) && not (b == 13)) e)
          ∙ ok.back (λ b. not (b == 61) && not (b == 10) && not (b == 13)) there,
    )
