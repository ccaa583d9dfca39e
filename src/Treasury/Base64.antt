-- ===== src/Treasury/Base64.antt =====
-- `base64_encode` and `base64_decode` of src/treasury/offramp.rs, and `base64_decode_simple` of
-- src/mev/executor.rs. A byte is a number below 256, a string is the list of its bytes. `none` is a
-- panic of the encoder and the error of the decoder.
pub mod Alphabet
pub mod Triples
pub mod RoundTrip
mod Tests
use Prim.Native.Nat.{bit_and, bit_or}
use the_ai_cowboys_6_shooter.Prelude.{
  ℕ, ◌+◌, ◌-◌, ◌*◌, ◌/◌, ◌%◌, ◌^◌, ltb, leb, ◌==◌, ◌&&◌, not, if◌then◌else◌, Bool, true, false,
  Option, none, some, ◌>>=◌, List, [], ◌∷◌, ◌++◌, get_elem?,
}

-- The characters of `CHARS`.
abbrev pub base64_chars : List ℕ
base64_chars =
    65 ∷ 66 ∷ 67 ∷ 68 ∷ 69 ∷ 70 ∷ 71 ∷ 72 ∷ 73 ∷ 74 ∷ 75 ∷ 76 ∷ 77 ∷ 78 ∷ 79 ∷ 80 ∷ 81 ∷ 82 ∷ 83
    ∷ 84 ∷ 85 ∷ 86 ∷ 87 ∷ 88 ∷ 89 ∷ 90 ∷ 97 ∷ 98 ∷ 99 ∷ 100 ∷ 101 ∷ 102 ∷ 103 ∷ 104 ∷ 105 ∷ 106
    ∷ 107 ∷ 108 ∷ 109 ∷ 110 ∷ 111 ∷ 112 ∷ 113 ∷ 114 ∷ 115 ∷ 116 ∷ 117 ∷ 118 ∷ 119 ∷ 120 ∷ 121 ∷ 122
    ∷ 48 ∷ 49 ∷ 50 ∷ 51 ∷ 52 ∷ 53 ∷ 54 ∷ 55 ∷ 56 ∷ 57 ∷ 43 ∷ 47 ∷ []

-- `<<` on a `u32`.
abbrev pub shl_u32 : ℕ → ℕ → ℕ
shl_u32 a k = a * 2 ^ k % 2 ^ 32

-- `CHARS[(n & 0x3F) as usize]`
abbrev pub sextet : ℕ → Option ℕ
sextet n = get_elem? base64_chars (bit_and n 63)

abbrev pub byte_triple : ℕ → ℕ → ℕ → ℕ
byte_triple b0 b1 b2 = bit_or (bit_or (shl_u32 b0 16) (shl_u32 b1 8)) b2

-- The body of the loop for the bytes of one chunk and what they come to; `two` and `three` tell
-- whether the chunk has more than one and more than two bytes.
unfoldable pub encode_chunk : Bool → Bool → ℕ → Option (List ℕ)
encode_chunk two three triple = do
  c0 ← sextet (triple / 2 ^ 18)
  c1 ← sextet (triple / 2 ^ 12)
  c2 ← (if two then sextet (triple / 2 ^ 6) else some 61)
  c3 ← (if three then sextet triple else some 61)
  some (c0 ∷ c1 ∷ c2 ∷ c3 ∷ [])

-- The loop over `data.chunks(3)`.
unfoldable pub base64_encode : List ℕ → Option (List ℕ)
base64_encode [] = some []
base64_encode (b0 ∷ []) = encode_chunk false false (byte_triple b0 0 0)
base64_encode (b0 ∷ b1 ∷ []) = encode_chunk true false (byte_triple b0 b1 0)
base64_encode (b0 ∷ b1 ∷ b2 ∷ rest) = encode_chunk true true (byte_triple b0 b1 b2) >>= λ chunk.
    base64_encode rest >>= λ more. some (chunk ++ more)

abbrev pub between : ℕ → ℕ → ℕ → Bool
between low high c = leb low c && leb c high

unfoldable pub decode_char : ℕ → ℕ
decode_char c =
    if between 65 90 c
    then c - 65
    else (if between 97 122 c
        then c - 97 + 26
        else (if between 48 57 c
            then c - 48 + 52
            else (if c == 43 then 62 else (if c == 47 then 63 else 0))))

-- What must follow a byte of UTF-8: how many bytes, and the range of the next one.
pub record Expected : Type 0 where
  pub left : ℕ
  pub low : ℕ
  pub high : ℕ

abbrev pub lead : ℕ → Option Expected
lead a =
    if ltb a 128
    then some (record { left = 0; low = 0; high = 0 })
    else (if between 194 223 a
        then some (record { left = 1; low = 128; high = 191 })
        else (if a == 224
            then some (record { left = 2; low = 160; high = 191 })
            else (if a == 237
                then some (record { left = 2; low = 128; high = 159 })
                else (if between 225 239 a
                    then some (record { left = 2; low = 128; high = 191 })
                    else (if a == 240
                        then some (record { left = 3; low = 144; high = 191 })
                        else (if between 241 243 a
                            then some (record { left = 3; low = 128; high = 191 })
                            else (if a == 244
                                then some (record { left = 3; low = 128; high = 143 })
                                else none)))))))

abbrev pub follow : Expected → ℕ → Option Expected
follow e a =
    if e.left == 0
    then lead a
    else (if between e.low e.high a
        then some (record { left = e.left - 1; low = 128; high = 191 })
        else none)

unfoldable pub utf8_loop : Expected → List ℕ → Bool
utf8_loop e [] = e.left == 0
utf8_loop e (a ∷ bytes) = elim (follow e a) [ none ↦ false | some e' ↦ utf8_loop e' bytes ]

-- `std::str::from_utf8`: whether the bytes are UTF-8.
abbrev pub from_utf8 : List ℕ → Bool
from_utf8 bytes = utf8_loop (record { left = 0; low = 0; high = 0 }) bytes

-- `filter(|b| keep b)`
abbrev pub filter : (ℕ → Bool) → List ℕ → List ℕ
filter keep [] = []
filter keep (b ∷ bytes) = if keep b then b ∷ filter keep bytes else filter keep bytes

-- `(b0 << 18) | (b1 << 12) | (b2 << 6) | b3`
abbrev pub sextet_triple : ℕ → ℕ → ℕ → ℕ → ℕ
sextet_triple b0 b1 b2 b3 =
    bit_or (bit_or (bit_or (shl_u32 b0 18) (shl_u32 b1 12)) (shl_u32 b2 6)) b3

-- The bytes of one chunk; `two` and `three` tell whether it has more than two and three characters.
abbrev pub decode_chunk : Bool → Bool → ℕ → List ℕ
decode_chunk two three triple =
    bit_and (triple / 2 ^ 16) 255
    ∷ ((if two then bit_and (triple / 2 ^ 8) 255 ∷ [] else [])
        ++ (if three then bit_and triple 255 ∷ [] else []))

-- The loop over `chars.chunks(4)`, which stops at a chunk of one character.
unfoldable pub decode_chunks : (ℕ → ℕ) → List ℕ → List ℕ
decode_chunks value [] = []
decode_chunks value (c0 ∷ []) = []
decode_chunks value (c0 ∷ c1 ∷ []) =
    decode_chunk false false (sextet_triple (value c0) (value c1) 0 0)
decode_chunks value (c0 ∷ c1 ∷ c2 ∷ []) =
    decode_chunk true false (sextet_triple (value c0) (value c1) (value c2) 0)
decode_chunks value (c0 ∷ c1 ∷ c2 ∷ c3 ∷ rest) =
    decode_chunk true true (sextet_triple (value c0) (value c1) (value c2) (value c3))
    ++ decode_chunks value rest

unfoldable pub base64_decode : List ℕ → Option (List ℕ)
base64_decode bytes =
    if from_utf8 bytes
    then some (decode_chunks decode_char (filter (λ b. not (b == 61)) bytes))
    else none

-- `val` of the executor's decoder.
unfoldable pub val : ℕ → Option ℕ
val c =
    if between 65 90 c
    then some (c - 65)
    else (if between 97 122 c
        then some (c - 97 + 26)
        else (if between 48 57 c
            then some (c - 48 + 52)
            else (if c == 43 then some 62 else (if c == 47 then some 63 else none))))

abbrev pub unwrap_or_zero : Option ℕ → ℕ
unwrap_or_zero none = 0
unwrap_or_zero (some n) = n

-- Of a string, which never fails.
unfoldable pub base64_decode_simple : List ℕ → List ℕ
base64_decode_simple bytes =
    decode_chunks (λ c. unwrap_or_zero (val c))
      (filter (λ b. not (b == 61) && not (b == 10) && not (b == 13)) bytes)
