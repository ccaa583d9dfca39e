-- ===== src/Zk/Fields/Zeros.antt =====
-- The zeros that a number ends with, of one number and of `a | b`.
use Prim.Native.Nat.{bit_and, digits}
use native.Mathlib.Nat.{two-pow-succ, mul-div_cancel_left}
use the_ai_cowboys_6_shooter.Prelude.{
  ℕ, zero, suc, ◌+◌, ◌*◌, ◌/◌, ◌%◌, ◌^◌, ◌<◌, ◌≤◌, ◌≡◌, refl, sym, ap, ◌∙◌, arith, min, max, ◌==◌,
  Bool-cases, inl, inr, ==→eq, ==_false→ne, eq→==, ne→==_false,
}
use the_ai_cowboys_6_shooter.Prelude.Bits.{bit_and-low, pow-pos}
use the_ai_cowboys_6_shooter.Zk.Fields.Binary.{zeros}

-- A number is a power of two times an odd number, which the shift leaves.
pub record Split (n k : ℕ) : Type 0 where
  pub odd : ℕ
  pub is_odd : odd % 2 ≡ 1
  pub whole : n ≡ 2 ^ k * odd

pub zeros-Split : (digits n : ℕ) → 0 < n → n < 2 ^ digits → Split n (zeros digits n)
unfolding zeros
zeros-Split zero n h l = absurd (omega (arith, h, l))
zeros-Split (suc r) n h l =
    let bit : bit_and n 1 ≡ n % 2 = bit_and-low n 1 in
    elim (Bool-cases (bit_and n 1 == 0)) [
      | inl even ↦
          let half : n ≡ 2 * (n / 2) = omega (arith, bit, ==→eq (bit_and n 1) 0 even) in
          let rest =
            zeros-Split r (n / 2) (omega (arith, half, h)) (omega (arith, l, two-pow-succ r)) in
          rw (zeros, even)
            (record {
              odd = rest.odd;
              is_odd = rest.is_odd;
              whole =
                  half
                  ∙ ap (λ t. 2 * t) rest.whole
                  ∙ assoc (2 ^ zeros r (n / 2)) rest.odd
                  ∙ ap (λ t. t * rest.odd) (sym (two-pow-succ (zeros r (n / 2))));
            })
      | inr odd ↦
          rw (zeros, odd)
            (record {
              odd = n;
              is_odd = omega (arith, bit, ==_false→ne (bit_and n 1) 0 odd);
              whole = omega arith;
            })
    ]
  where
    assoc : (c n : ℕ) → 2 * (c * n) ≡ (c + c) * n
    assoc c n = omega arith

pub odd_part : (n k : ℕ) (s : Split n k) → n / 2 ^ k ≡ s.odd
odd_part n k s = ap (λ t. t / 2 ^ k) s.whole ∙ mul-div_cancel_left s.odd (pow-pos k)

-- The trailing zeros of `a | b` are those that both have.
zeros-le : (r n : ℕ) → zeros r n ≤ r
unfolding zeros
zeros-le zero n = omega arith
zeros-le (suc r) n = elim (Bool-cases (bit_and n 1 == 0)) [
  | inl even ↦ rw (zeros, even) (omega (arith, zeros-le r (n / 2)))
  | inr odd ↦ rw (zeros, odd) (omega arith)
]

zeros_even : (r n : ℕ) → n % 2 ≡ 0 → zeros (suc r) n ≡ suc (zeros r (n / 2))
unfolding zeros
zeros_even r n h = rw (zeros, eq→== (bit_and n 1) 0 (bit_and-low n 1 ∙ h)) refl

zeros_odd : (r n : ℕ) → n % 2 ≡ 1 → zeros (suc r) n ≡ 0
unfolding zeros
zeros_odd r n h = rw (zeros, ne→==_false (bit_and n 1) 0 (omega (arith, bit_and-low n 1, h))) refl

zeros_none : (r : ℕ) → zeros r 0 ≡ r
unfolding zeros
zeros_none zero = refl
zeros_none (suc r) = zeros_even r 0 (omega arith) ∙ ap suc (zeros_none r)

pub zeros-or :
    (r n a b : ℕ) → a ≤ n → zeros r (digits (λ b. b) max n a b) ≡ min (zeros r a) (zeros r b)
zeros-or zero n a b h =
    omega (arith, zeros-le 0 (digits (λ b. b) max n a b), zeros-le 0 a, zeros-le 0 b)
zeros-or (suc r) zero zero b h = omega (arith, zeros_none (suc r), zeros-le (suc r) b)
zeros-or (suc r) zero (suc a) b h = absurd (omega arith)
zeros-or (suc r) (suc n) zero b h = omega (arith, zeros_none (suc r), zeros-le (suc r) b)
zeros-or (suc r) (suc n) (suc a) b h =
    let q = digits (λ b. b) max n (suc a / 2) (b / 2) in
    let ih = zeros-or r n (suc a / 2) (b / 2) (omega arith) in
    elim (Bool-cases (suc a % 2 == 0)) [
      | inl even ↦
          let ea : suc a % 2 ≡ 0 = ==→eq (suc a % 2) 0 even in
          elim (Bool-cases (b % 2 == 0)) [
            | inl even' ↦
                let eb : b % 2 ≡ 0 = ==→eq (b % 2) 0 even' in
                let digit : (q * 2 + max (suc a % 2) (b % 2)) % 2 ≡ 0 = omega (arith, ea, eb) in
                let half : (q * 2 + max (suc a % 2) (b % 2)) / 2 ≡ q = omega (arith, ea, eb) in
                zeros_even r (q * 2 + max (suc a % 2) (b % 2)) digit
                ∙ ap (λ t. suc (zeros r t)) half
                ∙ omega (arith, ih, zeros_even r (suc a) ea, zeros_even r b eb)
            | inr odd ↦
                let ob : b % 2 ≡ 1 = omega (arith, ==_false→ne (b % 2) 0 odd) in
                zeros_odd r (q * 2 + max (suc a % 2) (b % 2)) (omega (arith, ob, ea))
                ∙ omega (arith, zeros_odd r b ob)
          ]
      | inr odd ↦
          let oa : suc a % 2 ≡ 1 = omega (arith, ==_false→ne (suc a % 2) 0 odd) in
          zeros_odd r (q * 2 + max (suc a % 2) (b % 2)) (omega (arith, oa))
          ∙ omega (arith, zeros_odd r (suc a) oa)
    ]
