-- ===== src/Zk/Montgomery/Convert.antt =====
-- The Montgomery domain: conversion there and back, and multiplication seen from outside.

use the_ai_cowboys_6_shooter.Prelude.{
  ℕ, ◌+◌, ◌*◌, ◌/◌, ◌%◌, ◌^◌, ◌<◌, ◌≡◌, sym, ap, ap₂, ◌∙◌, arith,
}
use the_ai_cowboys_6_shooter.Prelude.Powers.{mod-mul}
use the_ai_cowboys_6_shooter.Zk.Montgomery.{
  MontgomeryU256, mont_r2, mont_mul, to_montgomery, from_montgomery,
}
use the_ai_cowboys_6_shooter.Zk.Montgomery.Limbs.{value, modulus, IsWords, IsElement}
use the_ai_cowboys_6_shooter.Zk.Montgomery.Product.{mont_mul_lem, mod_agree}

-- 2 ^ 256 has an inverse modulo the modulus, so it can be taken off both sides.
r_cancel : (x y : ℕ) → 2 ^ 256 * x % modulus ≡ 2 ^ 256 * y % modulus → x % modulus ≡ y % modulus
r_cancel x y e =
    let inverse : ℕ =
      9915499612839321149637521777990102151350674507940716049588462388200839649614 in
    let extra : ℕ = 52454480824480482120356829342366457550537710351690908576382634413609933864959 in
    let i = 2 ^ 256 * x / modulus in
    let j = 2 ^ 256 * y / modulus in
    mod_agree x y (extra * x + inverse * j) (extra * y + inverse * i) (omega (arith, e))

r2-IsWords : IsWords mont_r2
r2-IsWords = omega arith

-- The constant `MONT_R2` is the square of 2 ^ 256, less a multiple of the modulus.
r2_agree : (n : ℕ) → n * value mont_r2 % modulus ≡ 2 ^ 256 * (2 ^ 256 * n) % modulus
unfolding value
r2_agree n =
    mod_agree (n * value mont_r2) (2 ^ 256 * (2 ^ 256 * n))
      (612557527273816073910311476275045157067432104571610153771051915293407781491289 * n) 0
      (omega arith)

below-mod : {n : ℕ} → n < modulus → n ≡ n % modulus
below-mod h = omega arith

-- On an element `to_montgomery` gives the element for `a * R` modulo the modulus.
pub to_montgomery_lem :
    (a : MontgomeryU256)
    → IsElement a
    → IsElement (to_montgomery a) × (value (to_montgomery a) ≡ 2 ^ 256 * value a % modulus)
unfolding to_montgomery
to_montgomery_lem a u =
    let (el, e) = mont_mul_lem a mont_r2 u r2-IsWords in
    let v = value (mont_mul a mont_r2) in
    (el, below-mod el.below ∙ r_cancel v (2 ^ 256 * value a) (e ∙ r2_agree (value a)))

-- On an element `from_montgomery` gives the element which multiplied by `R` is `a` again.
pub from_montgomery_lem :
    (a : MontgomeryU256)
    → IsElement a
    → IsElement (from_montgomery a) × (2 ^ 256 * value (from_montgomery a) % modulus ≡ value a)
unfolding from_montgomery
from_montgomery_lem a u =
    let (el, e) =
      mont_mul_lem a (record { l0 = 1; l1 = 0; l2 = 0; l3 = 0 }) u
        (record { w0 = omega arith; w1 = omega arith; w2 = omega arith; w3 = omega arith }) in
    (el, e ∙ one_right (value a) ∙ sym (below-mod u.below))
  where
    one_right :
        (n : ℕ) → n * value (record { l0 = 1; l1 = 0; l2 = 0; l3 = 0 }) % modulus ≡ n % modulus
    one_right n = unfold value in omega arith

-- Words are determined by the number they stand for.
value-injective : (a b : MontgomeryU256) → IsWords a → IsWords b → value a ≡ value b → a ≡ b
unfolding value
value-injective a b u v e = ground (arith, e, u, v)

-- Leaving the Montgomery domain undoes entering it, on every element.
pub from_to : (a : MontgomeryU256) → IsElement a → from_montgomery (to_montgomery a) ≡ a
from_to a u =
    let (el, e) = to_montgomery_lem a u in
    let (el', e') = from_montgomery_lem (to_montgomery a) el in
    let same = r_cancel (value (from_montgomery (to_montgomery a))) (value a) (e' ∙ e) in
    value-injective (from_montgomery (to_montgomery a)) a el'.words u.words
      (below-mod el'.below ∙ same ∙ sym (below-mod u.below))

-- `x` is the element that stands for the number `n` in the Montgomery domain.
pub record Stands (x : MontgomeryU256) (n : ℕ) : Type 0 where
  pub element : IsElement x
  pub scaled : value x ≡ 2 ^ 256 * n % modulus

pub mont_mul-Stands :
    {x y : MontgomeryU256} {m n : ℕ} → Stands x m → Stands y n → Stands (mont_mul x y) (m * n)
mont_mul-Stands {x} {y} {m} {n} u v =
    let (el, e) = mont_mul_lem x y u.element v.element.words in
    let product : value x * value y % modulus ≡ 2 ^ 256 * (2 ^ 256 * (m * n)) % modulus =
      ap₂ (λ i j. i * j % modulus) u.scaled v.scaled
      ∙ mod-mul modulus (2 ^ 256 * m) (2 ^ 256 * n)
      ∙ ap (λ k. k % modulus) (squares m n) in
    record {
      element = el;
      scaled =
          below-mod el.below ∙ r_cancel (value (mont_mul x y)) (2 ^ 256 * (m * n)) (e ∙ product);
    }
  where
    squares : (m n : ℕ) → 2 ^ 256 * m * (2 ^ 256 * n) ≡ 2 ^ 256 * (2 ^ 256 * (m * n))
    squares m n = omega arith

pub to-Stands : (a : MontgomeryU256) → IsElement a → Stands (to_montgomery a) (value a)
to-Stands a u = let (el, e) = to_montgomery_lem a u in record { element = el; scaled = e }

-- Leaving the domain gives the remainder of the number stood for.
pub from-Stands :
    {x : MontgomeryU256} {n : ℕ} → Stands x n → value (from_montgomery x) ≡ n % modulus
from-Stands {x} {n} u =
    let (el, e) = from_montgomery_lem x u.element in
    below-mod el.below ∙ r_cancel (value (from_montgomery x)) n (e ∙ u.scaled)

-- Multiplying in the Montgomery domain multiplies modulo the modulus: entering with two elements,
-- multiplying with `mont_mul` and leaving gives the element for their product.
pub mont_mul-product :
    (a b : MontgomeryU256)
    → IsElement a
    → IsElement b
    → value (from_montgomery (mont_mul (to_montgomery a) (to_montgomery b)))
      ≡ value a * value b % modulus
mont_mul-product a b u v = from-Stands (mont_mul-Stands (to-Stands a u) (to-Stands b v))
