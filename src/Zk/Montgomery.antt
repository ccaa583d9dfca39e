-- ===== src/Zk/Montgomery.antt =====
-- src/zk_prover/montgomery.rs: elements of the scalar field of BN254 as four limbs of 64 bits, the
-- lowest first. The loops over the four limbs are written out.
pub mod Limbs
pub mod Reduce
pub mod Product
pub mod Convert
pub mod Power
mod Tests
use Prim.Native.Nat.{bit_and, bit_xor}
use the_ai_cowboys_6_shooter.Prelude.{
  ℕ, ◌+◌, ◌-◌, ◌*◌, ◌/◌, ◌%◌, ◌^◌, ltb, if◌then◌else◌, Bool, true, false, suc, zero, List, [], ◌∷◌,
}
use the_ai_cowboys_6_shooter.Prelude.Words.{add_u64, sub_u64, mul_u64, add_u128, mul_u128}

-- `limbs[0]` to `limbs[3]`.
pub record MontgomeryU256 : Type 0 where
  pub l0 : ℕ
  pub l1 : ℕ
  pub l2 : ℕ
  pub l3 : ℕ

abbrev pub bn254_modulus : MontgomeryU256
bn254_modulus = record {
  l0 = 4891460686036598785;
  l1 = 2896914383306846353;
  l2 = 13281191951274694749;
  l3 = 3486998266802970665;
}

abbrev pub mont_r : MontgomeryU256
mont_r = record {
  l0 = 12436184717236109307;
  l1 = 3962172157175319849;
  l2 = 7381016538464732718;
  l3 = 1011752739694698287;
}

abbrev pub mont_r2 : MontgomeryU256
mont_r2 = record {
  l0 = 1997599621687373223;
  l1 = 6052339484930628067;
  l2 = 10108755138030829701;
  l3 = 150537098327114917;
}

-- `INV`
abbrev pub inv_u64 : ℕ
inv_u64 = 14042775128853446655

abbrev pub zero_element : MontgomeryU256
zero_element = record { l0 = 0; l1 = 0; l2 = 0; l3 = 0 }

abbrev pub one_element : MontgomeryU256
one_element = mont_r

-- A limb and what it carries into the next one.
pub record Digit : Type 0 where
  pub digit : ℕ
  pub carry : ℕ

abbrev pub overflowing_add : ℕ → ℕ → Digit
overflowing_add a b = record {
  digit = add_u64 a b;
  carry = if ltb (2 ^ 64 - 1) (a + b) then 1 else 0;
}

abbrev pub overflowing_sub : ℕ → ℕ → Digit
overflowing_sub a b = record { digit = sub_u64 a b; carry = if ltb a b then 1 else 0 }

-- One round of the loops of `mont_add`, of `sub_modulus` and `mont_sub`, and of `mont_mul`.
unfoldable pub add_step : ℕ → ℕ → ℕ → Digit
add_step a b carry =
    let s = overflowing_add a b in
    let t = overflowing_add s.digit carry in
    record { digit = t.digit; carry = add_u64 s.carry t.carry }

unfoldable pub sub_step : ℕ → ℕ → ℕ → Digit
sub_step a b borrow =
    let s = overflowing_sub a b in
    let t = overflowing_sub s.digit borrow in
    record { digit = t.digit; carry = add_u64 s.carry t.carry }

unfoldable pub mul_step : ℕ → ℕ → ℕ → ℕ → Digit
mul_step t a b carry =
    let sum = add_u128 t (add_u128 (mul_u128 a b) carry) in
    record { digit = sum % 2 ^ 64; carry = sum / 2 ^ 64 }

-- The limbs after a loop, and the last carry.
pub record Row : Type 0 where
  pub limbs : MontgomeryU256
  pub out : ℕ

abbrev pub row : Digit → Digit → Digit → Digit → Row
row d0 d1 d2 d3 = record {
  limbs = record { l0 = d0.digit; l1 = d1.digit; l2 = d2.digit; l3 = d3.digit };
  out = d3.carry;
}

unfoldable pub add_limbs : MontgomeryU256 → MontgomeryU256 → Row
add_limbs a b =
    let d0 = add_step a.l0 b.l0 0 in
    let d1 = add_step a.l1 b.l1 d0.carry in
    let d2 = add_step a.l2 b.l2 d1.carry in let d3 = add_step a.l3 b.l3 d2.carry in row d0 d1 d2 d3

unfoldable pub sub_limbs : MontgomeryU256 → MontgomeryU256 → Row
sub_limbs a b =
    let d0 = sub_step a.l0 b.l0 0 in
    let d1 = sub_step a.l1 b.l1 d0.carry in
    let d2 = sub_step a.l2 b.l2 d1.carry in let d3 = sub_step a.l3 b.l3 d2.carry in row d0 d1 d2 d3

-- `t += a * b` on the four low limbs of `t`.
unfoldable pub mul_limbs : MontgomeryU256 → MontgomeryU256 → ℕ → Row
mul_limbs t a b =
    let d0 = mul_step t.l0 a.l0 b 0 in
    let d1 = mul_step t.l1 a.l1 b d0.carry in
    let d2 = mul_step t.l2 a.l2 b d1.carry in
    let d3 = mul_step t.l3 a.l3 b d2.carry in row d0 d1 d2 d3

unfoldable pub gte_modulus : MontgomeryU256 → Bool
gte_modulus a =
    if ltb bn254_modulus.l3 a.l3
    then true
    else (if ltb a.l3 bn254_modulus.l3
        then false
        else (if ltb bn254_modulus.l2 a.l2
            then true
            else (if ltb a.l2 bn254_modulus.l2
                then false
                else (if ltb bn254_modulus.l1 a.l1
                    then true
                    else (if ltb a.l1 bn254_modulus.l1
                        then false
                        else (if ltb bn254_modulus.l0 a.l0
                            then true
                            else (if ltb a.l0 bn254_modulus.l0 then false else true)))))))

unfoldable pub sub_modulus : MontgomeryU256 → MontgomeryU256
sub_modulus a = (sub_limbs a bn254_modulus).limbs

unfoldable pub reduce : MontgomeryU256 → MontgomeryU256
reduce a = if gte_modulus a then sub_modulus a else a

unfoldable pub mont_add : MontgomeryU256 → MontgomeryU256 → MontgomeryU256
mont_add a b = reduce (add_limbs a b).limbs

unfoldable pub mont_sub : MontgomeryU256 → MontgomeryU256 → MontgomeryU256
mont_sub a b =
    let d = sub_limbs a b in
    if ltb 0 d.out then (add_limbs d.limbs bn254_modulus).limbs else d.limbs

-- The outer loop of `mont_mul` for the limb `bi`, from `t[4] = 0` to the shift by one limb.
unfoldable pub mul_round : MontgomeryU256 → MontgomeryU256 → ℕ → MontgomeryU256
mul_round a t bi =
    let r = mul_limbs t a bi in
    let m = mul_u64 (r.limbs.l0 % 2 ^ 64) inv_u64 in
    let s = mul_limbs r.limbs bn254_modulus m in
    record {
      l0 = s.limbs.l1;
      l1 = s.limbs.l2;
      l2 = s.limbs.l3;
      l3 = add_u128 (add_u128 0 r.out) s.out;
    }

abbrev pub as_u64 : MontgomeryU256 → MontgomeryU256
as_u64 t = record { l0 = t.l0 % 2 ^ 64; l1 = t.l1 % 2 ^ 64; l2 = t.l2 % 2 ^ 64; l3 = t.l3 % 2 ^ 64 }

unfoldable pub mont_mul : MontgomeryU256 → MontgomeryU256 → MontgomeryU256
mont_mul a b =
    let t0 = mul_round a zero_element b.l0 in
    let t1 = mul_round a t0 b.l1 in
    let t2 = mul_round a t1 b.l2 in let t3 = mul_round a t2 b.l3 in reduce (as_u64 t3)

unfoldable pub mont_sqr : MontgomeryU256 → MontgomeryU256
mont_sqr a = mont_mul a a

pub to_montgomery : MontgomeryU256 → MontgomeryU256
to_montgomery a = mont_mul a mont_r2

pub from_montgomery : MontgomeryU256 → MontgomeryU256
from_montgomery a = mont_mul a (record { l0 = 1; l1 = 0; l2 = 0; l3 = 0 })

pub from_u64 : ℕ → MontgomeryU256
from_u64 val = to_montgomery (record { l0 = val; l1 = 0; l2 = 0; l3 = 0 })

-- The mask is `0 - flag`.
pub conditional_select : MontgomeryU256 → MontgomeryU256 → ℕ → MontgomeryU256
conditional_select a b flag =
    let mask = sub_u64 0 flag in
    record {
      l0 = bit_xor a.l0 (bit_and mask (bit_xor a.l0 b.l0));
      l1 = bit_xor a.l1 (bit_and mask (bit_xor a.l1 b.l1));
      l2 = bit_xor a.l2 (bit_and mask (bit_xor a.l2 b.l2));
      l3 = bit_xor a.l3 (bit_and mask (bit_xor a.l3 b.l3));
    }

-- The inner loop of `mont_pow`, at `bit` with the rounds left: the result and the base.
pub pow_bits : ℕ → ℕ → ℕ → MontgomeryU256 → MontgomeryU256 → MontgomeryU256 × MontgomeryU256
pow_bits zero bit word result base = (result, base)
pow_bits (suc rounds) bit word result base =
    let flag = bit_and (word / 2 ^ bit) 1 in
    let product = mont_mul result base in
    pow_bits rounds (bit + 1) word (conditional_select result product flag) (mont_sqr base)

-- Its outer loop, over the words of the exponent that are left, the lowest first.
pub pow_words : List ℕ → MontgomeryU256 → MontgomeryU256 → MontgomeryU256
pow_words [] result base = result
pow_words (word ∷ rest) result base =
    let after = pow_bits 64 0 word result base in pow_words rest (after.0) (after.1)

pub mont_pow : MontgomeryU256 → List ℕ → MontgomeryU256
mont_pow a exp = pow_words exp one_element a

abbrev pub p_minus_2 : List ℕ
p_minus_2 =
    4891460686036598783 ∷ 2896914383306846353 ∷ 13281191951274694749 ∷ 3486998266802970665 ∷ []

pub mont_inv : MontgomeryU256 → MontgomeryU256
mont_inv a = mont_pow a p_minus_2

-- The product of two words as two words, the low one first.
pub mul_wide : ℕ → ℕ → ℕ × ℕ
mul_wide a b = let full = mul_u128 a b in (full % 2 ^ 64, full / 2 ^ 64 % 2 ^ 64)
