-- ===== src/Zk/Montgomery/Power.antt =====
-- Elements as representatives in the Montgomery domain, and the powers that `mont_pow` computes.
use Prim.Native.Nat.{bit_and}
use native.Mathlib.Nat.{pow-succ', pow-zero, two-pow-succ, div-div-eq-div-mul}
use the_ai_cowboys_6_shooter.Prelude.{
  ℕ, zero, suc, ◌+◌, ◌*◌, ◌/◌, ◌%◌, ◌^◌, ◌<◌, ◌≡◌, refl, sym, ap, ap₂, ◌∙◌, arith, List, [], ◌∷◌,
}
use mathlib.Core.Path.{subst}
use the_ai_cowboys_6_shooter.Prelude.Bits.{bit_and-low, mod-pow_suc}
use the_ai_cowboys_6_shooter.Prelude.Powers.{pow-square, pow-digit, pow-add, pow-mul}
use the_ai_cowboys_6_shooter.Prelude.Xor.{select-ones, select-zeros}
use the_ai_cowboys_6_shooter.Zk.Montgomery.{
  MontgomeryU256, one_element, mont_mul, mont_sqr, to_montgomery, from_montgomery,
  conditional_select, pow_bits, pow_words, mont_pow,
}
use the_ai_cowboys_6_shooter.Zk.Montgomery.Limbs.{value, modulus, IsWords, IsElement}
use the_ai_cowboys_6_shooter.Zk.Montgomery.Convert.{Stands, mont_mul-Stands, to-Stands, from-Stands}

-- On words `conditional_select` gives the first when the flag is 0, and the second when it is 1.
pub conditional_select_lem :
    (a b : MontgomeryU256)
    → IsWords a
    → IsWords b
    → (conditional_select a b 0 ≡ a) × (conditional_select a b 1 ≡ b)
unfolding conditional_select
conditional_select_lem a b u v = (
  rw (
    select-zeros a.l0 b.l0,
    select-zeros a.l1 b.l1,
    select-zeros a.l2 b.l2,
    select-zeros a.l3 b.l3,
  ),
  rw (
    select-ones a.l0 b.l0 u.w0 v.w0,
    select-ones a.l1 b.l1 u.w1 v.w1,
    select-ones a.l2 b.l2 u.w2 v.w2,
    select-ones a.l3 b.l3 u.w3 v.w3,
  ),
)

one_element-Stands : Stands one_element 1
one_element-Stands = record { element = unfold value in omega arith; scaled = unfold value in refl }

select-Stands :
    {x y : MontgomeryU256} {r b flag : ℕ}
    → flag < 2
    → Stands x r
    → Stands y b
    → Stands (conditional_select x (mont_mul x y) flag) (r * b ^ flag)
select-Stands {x} {y} {r} {b} {flag = zero} h u v =
    rw
      ((conditional_select_lem x (mont_mul x y) u.element.words
        (mont_mul-Stands u v).element.words).0)
      (subst (Stands x) (sym (ap (λ k. r * k) (pow-zero b) ∙ omega arith)) u)
select-Stands {x} {y} {r} {b} {flag = suc zero} h u v =
    rw
      ((conditional_select_lem x (mont_mul x y) u.element.words
        (mont_mul-Stands u v).element.words).1)
      (subst (Stands (mont_mul x y))
        (sym (ap (λ k. r * k) (pow-succ' b 0 ∙ ap (λ k. b * k) (pow-zero b)) ∙ omega arith))
        (mont_mul-Stands u v))
select-Stands {flag = suc (suc flag)} h u v = absurd (omega arith)

-- The inner loop, over `rounds` bits of the word from `bit` on.
pow_bits-Stands :
    (rounds bit word : ℕ) {result base : MontgomeryU256} {r b : ℕ}
    → Stands result r
    → Stands base b
    → Stands (pow_bits rounds bit word result base).0 (r * b ^ (word / 2 ^ bit % 2 ^ rounds))
      × Stands (pow_bits rounds bit word result base).1 (b ^ 2 ^ rounds)
unfolding pow_bits mont_sqr
pow_bits-Stands zero bit word {result} {base} {r = r} {b = b} x y = (
  subst (Stands result)
      (sym (ap (λ k. r * b ^ k) (omega arith) ∙ ap (λ k. r * k) (pow-zero b) ∙ omega arith)) x,
  subst (Stands base) (sym (pow-succ' b 0 ∙ ap (λ k. b * k) (pow-zero b) ∙ omega arith)) y,
)
pow_bits-Stands (suc rounds) bit word {result} {base} {r = r} {b = b} x y =
    let w = word / 2 ^ bit in
    let flag : bit_and w 1 ≡ w % 2 = bit_and-low w 1 in
    let small : bit_and w 1 < 2 = omega (arith, flag) in
    let next : word / 2 ^ (bit + 1) ≡ w / 2 =
      ap (λ k. word / k) (two-pow-suc bit) ∙ sym (div-div-eq-div-mul word (2 ^ bit) 2) in
    let exponent : word / 2 ^ (bit + 1) % 2 ^ rounds * 2 + bit_and w 1 ≡ w % 2 ^ suc rounds =
      ap₂ (λ m n. m % 2 ^ rounds * 2 + n) next flag ∙ sym (mod-pow_suc w rounds) in
    let (first, second) =
      pow_bits-Stands rounds (bit + 1) word (select-Stands small x y) (mont_mul-Stands y y) in
    (
      subst (Stands _)
          (pow-digit r b (word / 2 ^ (bit + 1) % 2 ^ rounds) (bit_and w 1)
            ∙ ap (λ k. r * b ^ k) exponent)
          first,
      subst (Stands _) (pow-square b (2 ^ rounds) ∙ ap (λ k. b ^ k) (doubled rounds)) second,
    )
  where
    two-pow-suc : (n : ℕ) → 2 ^ (n + 1) ≡ 2 ^ n * 2
    two-pow-suc n =
        let exponent : n + 1 ≡ suc n = omega arith in rw (exponent) (omega (arith, two-pow-succ n))

    doubled : (n : ℕ) → 2 * 2 ^ n ≡ 2 ^ suc n
    doubled n = omega (arith, two-pow-succ n)

-- The number of an exponent's words, the lowest first.
pub number : List ℕ → ℕ
number [] = 0
number (w ∷ ws) = w + 2 ^ 64 * number ws

-- Every word of the list is one.
abbrev pub AreWords : List ℕ → Type 0
AreWords [] = Unit
AreWords (w ∷ ws) = (w < 2 ^ 64) × AreWords ws

pow_words-Stands :
    (ws : List ℕ) {result base : MontgomeryU256} {r b : ℕ}
    → AreWords ws
    → Stands result r
    → Stands base b
    → Stands (pow_words ws result base) (r * b ^ number ws)
unfolding pow_words number
pow_words-Stands [] {result} {r = r} {b = b} h x y =
    subst (Stands result) (sym (ap (λ k. r * k) (pow-zero b) ∙ omega arith)) x
pow_words-Stands (w ∷ ws) {result} {base} {r = r} {b = b} (small, h) x y =
    let (first, second) = pow_bits-Stands 64 0 w x y in
    let low : w / 2 ^ 0 % 2 ^ 64 ≡ w = omega (arith, small) in
    subst (Stands (pow_words (w ∷ ws) result base)) (joined (2 ^ 64) (w / 2 ^ 0 % 2 ^ 64) low)
      (pow_words-Stands ws h first second)
  where
    joined : (k e : ℕ) → e ≡ w → r * b ^ e * (b ^ k) ^ number ws ≡ r * b ^ (w + k * number ws)
    joined k e same = rw (same, pow-mul b k (number ws), pow-add b w (k * number ws)) (omega arith)

-- Powers in the Montgomery domain are powers modulo the modulus: entering with an element, raising
-- it with `mont_pow` to the number of any words, and leaving gives the element for that power.
pub mont_pow-power :
    (a : MontgomeryU256) (exp : List ℕ)
    → IsElement a
    → AreWords exp
    → value (from_montgomery (mont_pow (to_montgomery a) exp)) ≡ value a ^ number exp % modulus
unfolding mont_pow
mont_pow-power a exp u h =
    from-Stands (pow_words-Stands exp h one_element-Stands (to-Stands a u))
    ∙ ap (λ k. k % modulus) (one_left (value a ^ number exp))
  where
    one_left : (n : ℕ) → 1 * n ≡ n
    one_left n = omega arith
