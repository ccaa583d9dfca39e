-- ===== src/Net/Base58/Alphabet.antt =====
-- The alphabet and the table that `bs58_decode` fills from it.
use the_ai_cowboys_6_shooter.Prelude.{
  ℕ, zero, suc, ◌<◌, ◌≡◌, refl, ap, ◌∙◌, sym, arith, ltb, leb, ◌==◌, ◌&&◌, ◌||◌, not, Bool, true,
  false, Bool-cases, inl, inr, none, some, Option-cases, get_elem?,
}
use the_ai_cowboys_6_shooter.Net.Base58.{base58_alphabet, table}

eqb : Bool → Bool → Bool
eqb true b = b
eqb false b = not b

-- The digit `d` has a character, the table maps that back to it, and only 0 has the character `1`.
good : ℕ → Bool
good d = elim (get_elem? base58_alphabet d) [
  | none ↦ false
  | some c ↦ ltb c 128 && (table c == d) && eqb (c == 49) (d == 0)
]

checks : ℕ → Bool
checks zero = true
checks (suc n) = good n && checks n

checks-good : (n d : ℕ) → checks n ≡ true → d < n → good d ≡ true
unfolding checks
checks-good zero d e h = absurd (omega arith)
checks-good (suc n) d e h = elim (Bool-cases (d == n)) [
  | inl same ↦
      let here : good n ≡ true = ground (arith, e) in
      let eq : d ≡ n = ground (arith, same) in ap good eq ∙ here
  | inr other ↦ checks-good n d (ground (arith, e)) (ground (arith, other, h))
]

all_good : checks 58 ≡ true
unfolding checks good eqb
all_good = refl

-- What the loops need of the character of a digit.
pub record IsCharacter (d c : ℕ) : Type 0 where
  pub at : get_elem? base58_alphabet d ≡ some c
  pub valid : (leb 128 c || table c == 255) ≡ false
  pub back : table c ≡ d
  pub one : (c == 49) ≡ (d == 0)

eqb-eq : (a b : Bool) → eqb a b ≡ true → a ≡ b
unfolding eqb
eqb-eq true true e = refl
eqb-eq true false e = sym e
eqb-eq false true e = e
eqb-eq false false e = refl

pub character : (d : ℕ) → d < 58 → (c : ℕ) × IsCharacter d c
unfolding good
character d h =
    let g = checks-good 58 d all_good h in
    elim (Option-cases (get_elem? base58_alphabet d)) [
      | inl e ↦ absurd (ground (arith, e, g))
      | inr (c, e) ↦
          let f = rw (e) at g in
          let back : table c ≡ d = ground (arith, f) in
          (
            c,
            record {
              at = e;
              valid = ground (arith, f, back);
              back = back;
              one = eqb-eq (c == 49) (d == 0) (ground (arith, f));
            },
          )
    ]
