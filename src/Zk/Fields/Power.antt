-- ===== src/Zk/Fields/Power.antt =====
-- The power that `mod_pow` computes.
use Prim.Native.Nat.{bit_and}
use native.Mathlib.Nat.{mul-le-mul, mod-lt, pow-zero, pow-succ', mod-eq_of_lt, two-pow-succ}
use mathlib.Core.Path.{subst}
use the_ai_cowboys_6_shooter.Prelude.{
  ℕ, zero, suc, ◌+◌, ◌-◌, ◌*◌, ◌/◌, ◌%◌, ◌^◌, ◌≤◌, ◌<◌, ◌≡◌, refl, sym, ap, ◌∙◌, arith, ◌==◌,
  if◌then◌else◌, false, some, ◌>>=◌, Bool-cases, inl, inr, ==→eq, ==_false→ne,
}
use the_ai_cowboys_6_shooter.Prelude.Bits.{bit_and-low}
use the_ai_cowboys_6_shooter.Prelude.Powers.{pow-digit, mod-mul_left, mod-pow}
use the_ai_cowboys_6_shooter.Prelude.Words.{mul_u128, add_u128, sub_u128}
use the_ai_cowboys_6_shooter.Zk.Fields.{BarrettReducer, new, bit_length, reduce, pow_loop, mod_pow}

-- On words the products are reduced without wrapping.
reduce-product :
    (r : BarrettReducer) (x y : ℕ)
    → 0 < r.modulus
    → r.modulus < 2 ^ 64
    → x < 2 ^ 64
    → y < 2 ^ 64
    → reduce r (mul_u128 x y) ≡ some (x * y % r.modulus)
unfolding reduce
reduce-product r x y pos small hx hy =
    let low : x * y ≤ (2 ^ 64 - 1) * (2 ^ 64 - 1) =
      mul-le-mul {n₂ = 2 ^ 64 - 1} {m₂ = 2 ^ 64 - 1} (omega arith) (omega arith) in
    let whole : x * y % 2 ^ 128 ≡ x * y = omega (arith, low) in
    let less = mod-lt (x * y) pos in rw (whole) (ground (arith, less))

times_zero : (r b : ℕ) → r * b ^ 0 ≡ r
times_zero r b = rw (pow-zero b) (omega arith)

-- One round of the loop in numbers: the factor of the lowest bit, and the rest of the exponent.
round_numbers :
    (m r b e : ℕ)
    → (if bit_and e 1 == 1 then r * b % m else r) * (b * b % m) ^ (e / 2) % m ≡ r * b ^ e % m
round_numbers m r b e =
    let flag : bit_and e 1 ≡ e % 2 = bit_and-low e 1 in
    let n = e / 2 in
    elim (Bool-cases (bit_and e 1 == 1)) [
      | inl odd ↦
          let one : n * 2 + 1 ≡ e = omega (arith, flag, ==→eq (bit_and e 1) 1 odd) in
          rw (odd, if◌then◌else◌)
            (mod-pow m (r * b % m) (b * b) n
              ∙ mod-mul_left m (r * b) ((b * b) ^ n)
              ∙ ap (λ k. k % m)
                  (sym (ap (λ k. r * k * (b * b) ^ n) (pow-one b)) ∙ pow-digit r b n 1)
              ∙ ap (λ k. r * b ^ k % m) one)
      | inr even ↦
          let zero' : n * 2 + 0 ≡ e = omega (arith, flag, ==_false→ne (bit_and e 1) 1 even) in
          rw (even, if◌then◌else◌)
            (mod-pow m r (b * b) n
              ∙ ap (λ k. k % m)
                  (sym (ap (λ k. k * (b * b) ^ n) (times_zero r b)) ∙ pow-digit r b n 0)
              ∙ ap (λ k. r * b ^ k % m) zero')
    ]
  where
    pow-one : (b : ℕ) → b ^ 1 ≡ b
    pow-one b = pow-succ' b 0 ∙ ap (λ k. b * k) (pow-zero b) ∙ omega arith

finished : (m r b e : ℕ) → r < m → e ≡ 0 → r ≡ r * b ^ e % m
finished m r b e h z = rw (z) (sym (ap (λ k. k % m) (times_zero r b) ∙ mod-eq_of_lt h))

pow_loop_lem :
    (red : BarrettReducer) (rounds b e r : ℕ)
    → 0 < red.modulus
    → red.modulus < 2 ^ 64
    → e < 2 ^ rounds
    → b < red.modulus
    → r < red.modulus
    → pow_loop red rounds b e r ≡ some (r * b ^ e % red.modulus)
unfolding pow_loop
pow_loop_lem red zero b e r pos small he hb hr =
    let z : e ≡ 0 = omega arith in rw (z) (ap some (finished red.modulus r b 0 hr refl))
pow_loop_lem red (suc rounds) b e r pos small he hb hr = elim (Bool-cases (e == 0)) [
  | inl z ↦ rw (pow_loop, z) (ap some (finished red.modulus r b e hr (==→eq e 0 z)))
  | inr more ↦
      let m = red.modulus in
      let less : e / 2 < 2 ^ rounds = omega (arith, two-pow-succ rounds) in
      let b' = b * b % m in
      let squared = reduce-product red b b pos small (omega arith) (omega arith) in
      let numbers = round_numbers m r b e in
      elim (Bool-cases (bit_and e 1 == 1)) [
        | inl odd ↦
            let rest =
              pow_loop_lem red rounds b' (e / 2) (r * b % m) pos small less (mod-lt (b * b) pos)
                (mod-lt (r * b) pos) in
            let product = reduce-product red r b pos small (omega arith) (omega arith) in
            rw (pow_loop, more, odd, if◌then◌else◌, product, ◌>>=◌, squared)
              (rest
                ∙ ap some (
                    subst (λ c. (if c then r * b % m else r) * b' ^ (e / 2) % m ≡ r * b ^ e % m) odd
                      numbers))
        | inr even ↦
            let rest =
              pow_loop_lem red rounds b' (e / 2) r pos small less (mod-lt (b * b) pos) hr in
            rw (pow_loop, more, even, if◌then◌else◌, ◌>>=◌, squared)
              (rest
                ∙ ap some (
                    subst (λ c. (if c then r * b % m else r) * b' ^ (e / 2) % m ≡ r * b ^ e % m)
                      even numbers))
      ]
]

-- For a modulus of one word above 1, `mod_pow` never panics or runs out of rounds on words, and
-- gives the remainder of the power.
pub mod_pow_lem :
    (base exp modulus : ℕ)
    → exp < 2 ^ 64
    → 1 < modulus
    → modulus < 2 ^ 64
    → mod_pow base exp modulus ≡ some (base ^ exp % modulus)
unfolding mod_pow new
mod_pow_lem base exp m he one small =
    let nonzero : (m == 0) ≡ false = ground arith in
    let red : BarrettReducer = record {
      modulus = m;
      reciprocal = reciprocal;
      k = bit_length 64 m;
    } in
    rw (nonzero, ◌>>=◌)
      (pow_loop_lem red 64 (base % m) exp 1 (omega arith) small he (mod-lt base (omega arith)) one
        ∙ ap some (mod-pow m 1 base exp ∙ ap (λ k. k % m) (one_left (base ^ exp))))
  where
    reciprocal : ℕ
    reciprocal = sub_u128 (add_u128 (2 ^ (2 * bit_length 64 m % 128)) m) 1 / m

    one_left : (n : ℕ) → 1 * n ≡ n
    one_left n = omega arith
