-- ===== src/Zk/Montgomery/Reduce.antt =====
-- Reduction below the modulus, addition and subtraction.
use the_ai_cowboys_6_shooter.Prelude.{
  ◌+◌, ◌-◌, ◌*◌, ◌%◌, ◌<◌, ◌≡◌, ◌⊎◌, refl, arith, ltb, if◌then◌else◌, Bool-cases, inl, inr,
}
use the_ai_cowboys_6_shooter.Zk.Montgomery.{
  MontgomeryU256, bn254_modulus, add_limbs, sub_limbs, gte_modulus, sub_modulus, reduce, mont_add,
  mont_sub,
}
use the_ai_cowboys_6_shooter.Zk.Montgomery.Limbs.{
  value, modulus, IsWords, IsElement, gte_modulus_lem, add_limbs-Holds, sub_limbs-Holds,
}

pub modulus-IsWords : IsWords bn254_modulus
modulus-IsWords = omega arith

pub modulus-value : value bn254_modulus ≡ modulus
unfolding value
modulus-value = omega arith

-- Words below twice the modulus are reduced to the element that is equal modulo the modulus.
pub reduce_lem :
    (a : MontgomeryU256)
    → IsWords a
    → value a < 2 * modulus
    → IsElement (reduce a) × (value (reduce a) ≡ value a ⊎ value (reduce a) + modulus ≡ value a)
unfolding reduce sub_modulus value
reduce_lem a w h = elim (Bool-cases (gte_modulus a)) [
  | inl e ↦
      let big = (gte_modulus_lem a w).0 e in
      let (words, total, out) = sub_limbs-Holds a bn254_modulus w modulus-IsWords in
      rw (e, if◌then◌else◌)
        (
          record { words = words; below = omega (arith, total, out, big, words, h) },
          inr (omega (arith, total, out, big, words, h)),
        )
  | inr e ↦
      rw (e, if◌then◌else◌) (record { words = w; below = (gte_modulus_lem a w).1 e }, inl refl)
]

pub reduce-mod :
    (a : MontgomeryU256) → IsWords a → value a < 2 * modulus → value (reduce a) ≡ value a % modulus
reduce-mod a w h =
    let (el, cases) = reduce_lem a w h in
    let small = el.below in
    elim cases [ inl e ↦ omega (arith, e, small) | inr e ↦ omega (arith, e, small) ]

-- On two elements `mont_add` gives the element that stands for their sum modulo the modulus.
pub mont_add_lem :
    (a b : MontgomeryU256)
    → IsElement a
    → IsElement b
    → IsElement (mont_add a b) × (value (mont_add a b) ≡ (value a + value b) % modulus)
unfolding mont_add
mont_add_lem a b u v =
    let r = add_limbs-Holds a b u.words v.words in
    let total = r.total in
    let small : (add_limbs a b).out ≡ 0 = omega (arith, total, u.below, v.below) in
    let sum : value (add_limbs a b).limbs ≡ value a + value b = omega (arith, total, small) in
    let under : value (add_limbs a b).limbs < 2 * modulus = omega (arith, sum, u.below, v.below) in
    (
      (reduce_lem (add_limbs a b).limbs r.words under).0,
      rw (← sum) (reduce-mod (add_limbs a b).limbs r.words under),
    )

-- On two elements `mont_sub` gives the element that stands for their difference modulo the
-- modulus.
pub mont_sub_lem :
    (a b : MontgomeryU256)
    → IsElement a
    → IsElement b
    → IsElement (mont_sub a b) × (value (mont_sub a b) ≡ (value a + modulus - value b) % modulus)
unfolding mont_sub value
mont_sub_lem a b u v =
    let (words, total, out) = sub_limbs-Holds a b u.words v.words in
    let d = (sub_limbs a b).limbs in
    let back = add_limbs-Holds d bn254_modulus words modulus-IsWords in
    elim (Bool-cases (ltb 0 (sub_limbs a b).out)) [
      | inl e ↦
          let one : (sub_limbs a b).out ≡ 1 = ground (arith, e, out) in
          rw (e, if◌then◌else◌)
            (
              record {
                words = back.words;
                below = omega (
                  arith, total, one, back.total, back.words, back.carry, words, u.below, v.below,
                );
              },
              omega
                  (arith, total, one, back.total, back.words, back.carry, words, u.below, v.below),
            )
      | inr e ↦
          let none' : (sub_limbs a b).out ≡ 0 = ground (arith, e, out) in
          rw (e, if◌then◌else◌)
            (
              record {
                words = words;
                below = omega (arith, total, none', words, u.below, v.below);
              },
              omega (arith, total, none', words, u.below, v.below),
            )
    ]
