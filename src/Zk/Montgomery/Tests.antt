-- ===== src/Zk/Montgomery/Tests.antt =====
-- Small elements, and the theorems of the sibling modules at them.

use the_ai_cowboys_6_shooter.Prelude.{◌-◌, ◌*◌, ◌%◌, ◌^◌, ◌≡◌, refl, arith, [], ◌∷◌}
use the_ai_cowboys_6_shooter.Zk.Montgomery.{
  MontgomeryU256, add_step, sub_step, mul_step, add_limbs, sub_limbs, mul_limbs, gte_modulus,
  sub_modulus, reduce, mul_round, mont_add, mont_mul, mont_sqr, to_montgomery, from_montgomery,
  from_u64, mont_pow, mont_inv, mul_wide, conditional_select, pow_bits, pow_words,
}
use the_ai_cowboys_6_shooter.Zk.Montgomery.Limbs.{value, modulus, IsElement}
use the_ai_cowboys_6_shooter.Zk.Montgomery.Convert.{mont_mul-product}
use the_ai_cowboys_6_shooter.Zk.Montgomery.Power.{number, mont_pow-power}

abbrev small : MontgomeryU256
small = record { l0 = 42; l1 = 0; l2 = 0; l3 = 0 }

-- One less than the modulus.
abbrev last : MontgomeryU256
last = record {
  l0 = 4891460686036598784;
  l1 = 2896914383306846353;
  l2 = 13281191951274694749;
  l3 = 3486998266802970665;
}

identity : from_montgomery (mont_mul (from_u64 7) (from_u64 1)) ≡ record small { l0 = 7 }
unfolding from_montgomery to_montgomery from_u64 mont_mul mul_round mul_limbs mul_step reduce
    gte_modulus sub_modulus sub_limbs sub_step
identity = refl

add_wraps : mont_add last small ≡ record small { l0 = 41 }
unfolding mont_add add_limbs add_step reduce gte_modulus sub_modulus sub_limbs sub_step
add_wraps = refl

squared : mont_sqr (from_u64 3) ≡ from_u64 9
unfolding mont_sqr to_montgomery from_u64 mont_mul mul_round mul_limbs mul_step reduce gte_modulus
    sub_modulus sub_limbs sub_step
squared = refl

widest : mul_wide (2 ^ 64 - 1) (2 ^ 64 - 1) ≡ (1, 2 ^ 64 - 2)
unfolding mul_wide
widest = refl

inverted : from_montgomery (mont_mul (from_u64 7) (mont_inv (from_u64 7))) ≡ record small { l0 = 1 }
unfolding mont_inv mont_pow pow_words pow_bits conditional_select mont_sqr from_montgomery
    to_montgomery from_u64 mont_mul mul_round mul_limbs mul_step reduce gte_modulus sub_modulus
    sub_limbs sub_step
inverted = refl

small-IsElement : IsElement small
small-IsElement = record { words = omega arith; below = unfold value in omega arith }

last-IsElement : IsElement last
last-IsElement = record { words = omega arith; below = unfold value in omega arith }

mont_mul-product_example :
    value (from_montgomery (mont_mul (to_montgomery last) (to_montgomery small)))
    ≡ value last * value small % modulus
mont_mul-product_example = mont_mul-product last small last-IsElement small-IsElement

mont_pow-power_example :
    value (from_montgomery (mont_pow (to_montgomery small) (5 ∷ 0 ∷ 0 ∷ 0 ∷ [])))
    ≡ value small ^ number (5 ∷ 0 ∷ 0 ∷ 0 ∷ []) % modulus
mont_pow-power_example =
    mont_pow-power small (5 ∷ 0 ∷ 0 ∷ 0 ∷ []) small-IsElement
      (omega arith, (omega arith, (omega arith, (omega arith, tt))))
