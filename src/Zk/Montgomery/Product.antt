-- ===== src/Zk/Montgomery/Product.antt =====
-- The multiplication, round by round and as a whole.
use native.Mathlib.Nat.{mul-le-mul, add-mul-mod_self_right}
use the_ai_cowboys_6_shooter.Prelude.{
  ℕ, ◌+◌, ◌-◌, ◌*◌, ◌%◌, ◌^◌, ◌≤◌, ◌<◌, ◌≡◌, refl, sym, ap, ◌∙◌, arith, inl, inr,
}
use the_ai_cowboys_6_shooter.Prelude.Words.{mul_u64, add_u128}
use the_ai_cowboys_6_shooter.Zk.Montgomery.{
  MontgomeryU256, Row, bn254_modulus, inv_u64, zero_element, mul_limbs, mul_round, as_u64, reduce,
  mont_mul,
}
use the_ai_cowboys_6_shooter.Zk.Montgomery.Limbs.{
  value, modulus, IsWords, IsElement, mul_limbs-Holds,
}
use the_ai_cowboys_6_shooter.Zk.Montgomery.Reduce.{modulus-IsWords, modulus-value, reduce_lem}

-- What a round leaves: words below twice the modulus, the input and `a * bi` divided by 2 ^ 64
-- after a multiple of the modulus was added.
record Rounded (a t u : MontgomeryU256) (bi : ℕ) : Type 0 where
  words : IsWords u
  below : value u < 2 * modulus
  multiple : ℕ
  total : 2 ^ 64 * value u ≡ value t + value a * bi + modulus * multiple

-- The shift of the two rows of a round by one limb.
abbrev shifted : Row → Row → MontgomeryU256
shifted r s = record {
  l0 = s.limbs.l1;
  l1 = s.limbs.l2;
  l2 = s.limbs.l3;
  l3 = add_u128 (add_u128 0 r.out) s.out;
}

-- The limb that is shifted out is zero.
low_limb_zero :
    (r s : Row)
    → value s.limbs + 2 ^ 256 * s.out
      ≡ value r.limbs + value bn254_modulus * mul_u64 (r.limbs.l0 % 2 ^ 64) inv_u64
    → IsWords s.limbs
    → s.limbs.l0 ≡ 0
unfolding value
low_limb_zero r s e w = omega (arith, e, w)

shifted-value :
    (r s : Row)
    → s.limbs.l0 ≡ 0
    → r.out < 2 ^ 64
    → s.out < 2 ^ 64
    → 2 ^ 64 * value (shifted r s) ≡ value s.limbs + 2 ^ 256 * (r.out + s.out)
unfolding value
shifted-value r s z hr hs = omega arith

shifted-IsWords :
    (r s : Row) → IsWords s.limbs → value (shifted r s) < 2 * modulus → IsWords (shifted r s)
unfolding value
shifted-IsWords r s w h = record { w0 = w.w1; w1 = w.w2; w2 = w.w3; w3 = omega arith }

mul_round-Rounded :
    (a t : MontgomeryU256) (bi : ℕ)
    → IsElement a
    → IsWords t
    → value t < 2 * modulus
    → bi < 2 ^ 64
    → Rounded a t (mul_round a t bi) bi
unfolding mul_round value
mul_round-Rounded a t bi u v h hb =
    let r = mul_limbs t a bi in
    let m = mul_u64 (r.limbs.l0 % 2 ^ 64) inv_u64 in
    let s = mul_limbs r.limbs bn254_modulus m in
    let first = mul_limbs-Holds t a bi v u.words hb in
    let second =
      mul_limbs-Holds r.limbs bn254_modulus m first.words modulus-IsWords (omega arith) in
    let product : value a * bi ≤ modulus * (2 ^ 64 - 1) =
      mul-le-mul {n₂ = modulus} {m₂ = 2 ^ 64 - 1} (omega (arith, u.below)) (omega arith) in
    let zero' = low_limb_zero r s second.total second.words in
    let whole =
      shifted-value r s zero' (omega (arith, first.carry)) (omega (arith, second.carry)) in
    let total : 2 ^ 64 * value (shifted r s) ≡ value t + value a * bi + modulus * m =
      omega (arith, whole, first.total, second.total, modulus-value) in
    let m_small : m < 2 ^ 64 = omega arith in
    let below : value (shifted r s) < 2 * modulus = omega (arith, total, product, h, m_small) in
    record {
      words = shifted-IsWords r s second.words below;
      below = below;
      multiple = m;
      total = total;
    }

-- The four rounds together.
record Multiplied (a b t : MontgomeryU256) : Type 0 where
  words : IsWords t
  below : value t < 2 * modulus
  multiple : ℕ
  total : 2 ^ 256 * value t ≡ value a * value b + modulus * multiple

abbrev rounds : MontgomeryU256 → MontgomeryU256 → MontgomeryU256
rounds a b = mul_round a (mul_round a (mul_round a (mul_round a zero_element b.l0) b.l1) b.l2) b.l3

zero_element-value : value zero_element ≡ 0
unfolding value
zero_element-value = refl

limbs-value :
    (a b : MontgomeryU256)
    → value a * value b
      ≡ value a * b.l0
        + 2 ^ 64 * (value a * b.l1)
        + 2 ^ 128 * (value a * b.l2)
        + 2 ^ 192 * (value a * b.l3)
limbs-value a b = by_total (value a) b
  where
    by_total :
        (n : ℕ) (b : MontgomeryU256)
        → n * value b ≡ n * b.l0 + 2 ^ 64 * (n * b.l1) + 2 ^ 128 * (n * b.l2) + 2 ^ 192 * (n * b.l3)
    by_total n b = unfold value in omega arith

rounds-Multiplied : (a b : MontgomeryU256) → IsElement a → IsWords b → Multiplied a b (rounds a b)
rounds-Multiplied a b u v =
    let z = zero_element-value in
    let r0 = mul_round-Rounded a zero_element b.l0 u (omega arith) (omega (arith, z)) v.w0 in
    let r1 = mul_round-Rounded a _ b.l1 u r0.words r0.below v.w1 in
    let r2 = mul_round-Rounded a _ b.l2 u r1.words r1.below v.w2 in
    let r3 = mul_round-Rounded a _ b.l3 u r2.words r2.below v.w3 in
    record {
      words = r3.words;
      below = r3.below;
      multiple = r0.multiple + 2 ^ 64 * r1.multiple + 2 ^ 128 * r2.multiple + 2 ^ 192 * r3.multiple;
      total = omega (arith, r0.total, r1.total, r2.total, r3.total, z, limbs-value a b);
    }

as_u64-IsWords : (t : MontgomeryU256) → IsWords t → as_u64 t ≡ t
as_u64-IsWords t w = ground arith

-- Numbers that agree up to multiples of the modulus have one remainder.
pub mod_agree : (x y j k : ℕ) → x + j * modulus ≡ y + k * modulus → x % modulus ≡ y % modulus
mod_agree x y j k e =
    sym (add-mul-mod_self_right x j modulus)
    ∙ ap (λ n. n % modulus) e
    ∙ add-mul-mod_self_right y k modulus

-- On an element and four words `mont_mul` gives an element, which multiplied by 2 ^ 256 agrees
-- with the product of the two modulo the modulus: it stands for `a * b / R`.
pub mont_mul_lem :
    (a b : MontgomeryU256)
    → IsElement a
    → IsWords b
    → IsElement (mont_mul a b)
      × (2 ^ 256 * value (mont_mul a b) % modulus ≡ value a * value b % modulus)
unfolding mont_mul
mont_mul_lem a b u v =
    let r = rounds-Multiplied a b u v in
    rw (as_u64-IsWords (rounds a b) r.words) (
      let (el, cases) = reduce_lem (rounds a b) r.words r.below in
      (
        el,
        elim cases [
          | inl e ↦
              mod_agree (2 ^ 256 * value (reduce (rounds a b))) (value a * value b) 0 r.multiple
                (omega (arith, e, r.total))
          | inr e ↦
              mod_agree (2 ^ 256 * value (reduce (rounds a b))) (value a * value b) (2 ^ 256)
                r.multiple (omega (arith, e, r.total))
        ],
      ))
