-- ===== src/Net/Base58.antt =====
-- `bs58_encode` and `bs58_decode` of src/net/solana.rs. A byte or a character is a number below 256,
-- a string is the list of its bytes; the carry is a `u32`, which wraps.
pub mod Alphabet
pub mod Digits
pub mod RoundTrip
mod Tests
use mathlib.Core.List.{reverse}
use the_ai_cowboys_6_shooter.Prelude.{
  ℕ, zero, suc, ◌+◌, ◌*◌, ◌/◌, ◌%◌, ◌^◌, ltb, leb, ◌==◌, ◌||◌, if◌then◌else◌, Bool, true, false,
  Option, none, some, ◌>>=◌, List, [], ◌∷◌, ◌++◌, map, get_elem?, replicate,
}

-- The characters of `BASE58_ALPHABET`.
abbrev pub base58_alphabet : List ℕ
base58_alphabet =
    49 ∷ 50 ∷ 51 ∷ 52 ∷ 53 ∷ 54 ∷ 55 ∷ 56 ∷ 57 ∷ 65 ∷ 66 ∷ 67 ∷ 68 ∷ 69 ∷ 70 ∷ 71 ∷ 72 ∷ 74 ∷ 75
    ∷ 76 ∷ 77 ∷ 78 ∷ 80 ∷ 81 ∷ 82 ∷ 83 ∷ 84 ∷ 85 ∷ 86 ∷ 87 ∷ 88 ∷ 89 ∷ 90 ∷ 97 ∷ 98 ∷ 99 ∷ 100 ∷ 101
    ∷ 102 ∷ 103 ∷ 104 ∷ 105 ∷ 106 ∷ 107 ∷ 109 ∷ 110 ∷ 111 ∷ 112 ∷ 113 ∷ 114 ∷ 115 ∷ 116 ∷ 117 ∷ 118
    ∷ 119 ∷ 120 ∷ 121 ∷ 122 ∷ []

-- `take_while(|&&b| b == c).count()`
abbrev pub count_leading : ℕ → List ℕ → ℕ
count_leading c [] = 0
count_leading c (b ∷ bytes) = if b == c then suc (count_leading c bytes) else 0

-- The loop that pushes what is left of the carry, with the 32 rounds that shift any `u32` to zero.
unfoldable pub push_carry : ℕ → ℕ → ℕ → List ℕ
push_carry base zero carry = []
push_carry base (suc rounds) carry =
    if carry == 0 then [] else carry % base ∷ push_carry base rounds (carry / base)

-- The two inner loops on one byte: every digit times `scale`, with the carry, in `base`.
unfoldable pub scale_digits : ℕ → ℕ → List ℕ → ℕ → List ℕ
scale_digits scale base [] carry = push_carry base 32 carry
scale_digits scale base (d ∷ digits) carry =
    let sum = (carry + d * scale) % 2 ^ 32 in
    sum % base ∷ scale_digits scale base digits (sum / base)

unfoldable pub encode_digits : List ℕ → List ℕ → List ℕ
encode_digits [] digits = digits
encode_digits (byte ∷ bytes) digits = encode_digits bytes (scale_digits 256 58 digits byte)

-- `BASE58_ALPHABET[d]` for each digit; a digit out of range is a panic.
abbrev pub characters : List ℕ → Option (List ℕ)
characters [] = some []
characters (d ∷ digits) =
    get_elem? base58_alphabet d >>= λ c. characters digits >>= λ rest. some (c ∷ rest)

-- The early return on no bytes gives what the loops give on none.
unfoldable pub bs58_encode : List ℕ → Option (List ℕ)
bs58_encode bytes = characters (reverse (encode_digits bytes [])) >>= λ rest.
    some (replicate (count_leading 0 bytes) 49 ++ rest)

-- The table of 128 entries, filled in the order of the alphabet.
abbrev pub fill_table : List ℕ → ℕ → (ℕ → ℕ) → ℕ → ℕ
fill_table [] i table = table
fill_table (c ∷ alphabet) i table =
    fill_table alphabet (i + 1) (λ byte. if byte == c then i else table byte)

abbrev pub table : ℕ → ℕ
table = fill_table base58_alphabet 0 (λ byte. 255)

-- The loop over the characters; `none` is the error of an invalid one.
unfoldable pub decode_digits : List ℕ → List ℕ → Option (List ℕ)
decode_digits [] digits = some digits
decode_digits (byte ∷ bytes) digits = elim (leb 128 byte || table byte == 255) [
  | true ↦ none
  | false ↦ decode_digits bytes (scale_digits 58 256 digits (table byte))
]

unfoldable pub bs58_decode : List ℕ → Option (List ℕ)
bs58_decode s =
    decode_digits s [] >>= λ digits. some (replicate (count_leading 49 s) 0 ++ reverse digits)
