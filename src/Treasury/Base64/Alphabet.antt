-- ===== src/Treasury/Base64/Alphabet.antt =====
-- The characters of the six-bit digits and their values.
use Prim.Native.Nat.{bit_and}
use the_ai_cowboys_6_shooter.Prelude.{
  ℕ, zero, suc, ◌%◌, ◌<◌, ◌≡◌, refl, ap, ◌∙◌, arith, ltb, ◌==◌, ◌&&◌, not, Bool, true, false,
  Bool-cases, inl, inr, none, some, Option-cases, get_elem?,
}
use the_ai_cowboys_6_shooter.Prelude.Bits.{bit_and-low}
use the_ai_cowboys_6_shooter.Treasury.Base64.{
  base64_chars, decode_char, sextet, val, unwrap_or_zero,
}

good : ℕ → Bool
good d = elim (get_elem? base64_chars d) [
  | none ↦ false
  | some c ↦ ltb c 128 && (decode_char c == d) && not (c == 61) && not (c == 10) && not (c == 13)
]

checks : ℕ → Bool
checks zero = true
checks (suc n) = good n && checks n

checks-good : (n d : ℕ) → checks n ≡ true → d < n → good d ≡ true
unfolding checks
checks-good zero d e h = absurd (omega arith)
checks-good (suc n) d e h = elim (Bool-cases (d == n)) [
  | inl same ↦
      let here : good n ≡ true = ground (arith, e) in
      let eq : d ≡ n = ground (arith, same) in ap good eq ∙ here
  | inr other ↦ checks-good n d (ground (arith, e)) (ground (arith, other, h))
]

all_good : checks 64 ≡ true
unfolding checks good decode_char
all_good = refl

-- What the loops need of the character of a digit.
pub record IsCharacter (d c : ℕ) : Type 0 where
  pub ascii : c < 128
  pub back : decode_char c ≡ d
  pub no_padding : (c == 61) ≡ false
  pub no_feed : (c == 10) ≡ false
  pub no_return : (c == 13) ≡ false

pub sextet_total : (n : ℕ) → (c : ℕ) × (sextet n ≡ some c) × IsCharacter (n % 64) c
unfolding good
sextet_total n =
    let low : bit_and n 63 ≡ n % 64 = bit_and-low n 6 in
    let g = checks-good 64 (n % 64) all_good (omega arith) in
    elim (Option-cases (get_elem? base64_chars (n % 64))) [
      | inl e ↦ absurd (ground (arith, e, g))
      | inr (c, e) ↦
          let f = rw (good, e) at g in
          (
            c,
            rw (low) e,
            record {
              ascii = ground (arith, f);
              back = ground (arith, f);
              no_padding = ground (arith, f);
              no_feed = ground (arith, f);
              no_return = ground (arith, f);
            },
          )
    ]

-- The two tables of the repository are one.
pub val-decode_char : (c : ℕ) → unwrap_or_zero (val c) ≡ decode_char c
unfolding val decode_char
val-decode_char c = ground arith
