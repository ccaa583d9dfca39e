-- ===== src/Zk/Montgomery/Limbs.antt =====
-- The number that four limbs stand for, and what the rounds of the three loops do to it.
use native.Mathlib.Nat.{mul-le-mul}
use the_ai_cowboys_6_shooter.Prelude.{ℕ, ◌+◌, ◌-◌, ◌*◌, ◌^◌, ◌≤◌, ◌<◌, ◌≡◌, arith, true, false}
use the_ai_cowboys_6_shooter.Zk.Montgomery.{
  MontgomeryU256, Row, add_step, sub_step, mul_step, add_limbs, sub_limbs, mul_limbs, gte_modulus,
}

unfoldable pub value : MontgomeryU256 → ℕ
value a = a.l0 + 2 ^ 64 * a.l1 + 2 ^ 128 * a.l2 + 2 ^ 192 * a.l3

abbrev pub modulus : ℕ
modulus = 21888242871839275222246405745257275088548364400416034343698204186575808495617

pub record IsWords (a : MontgomeryU256) : Type 0 where
  pub w0 : a.l0 < 2 ^ 64
  pub w1 : a.l1 < 2 ^ 64
  pub w2 : a.l2 < 2 ^ 64
  pub w3 : a.l3 < 2 ^ 64

-- Four words that stand for a number below the modulus.
pub record IsElement (a : MontgomeryU256) : Type 0 where
  pub words : IsWords a
  pub below : value a < modulus

-- A row stands for the number `n`, with a last carry of at most `limit`.
pub record Holds (r : Row) (n limit : ℕ) : Type 0 where
  pub words : IsWords r.limbs
  pub total : value r.limbs + 2 ^ 256 * r.out ≡ n
  pub carry : r.out ≤ limit

add_step_lem :
    (a b carry : ℕ)
    → a < 2 ^ 64
    → b < 2 ^ 64
    → carry ≤ 1
    → ((add_step a b carry).digit + 2 ^ 64 * (add_step a b carry).carry ≡ a + b + carry)
      × ((add_step a b carry).digit < 2 ^ 64)
      × ((add_step a b carry).carry ≤ 1)
unfolding add_step
add_step_lem a b carry ha hb hc = ground arith

sub_step_lem :
    (a b borrow : ℕ)
    → a < 2 ^ 64
    → b < 2 ^ 64
    → borrow ≤ 1
    → ((sub_step a b borrow).digit + b + borrow ≡ a + 2 ^ 64 * (sub_step a b borrow).carry)
      × ((sub_step a b borrow).digit < 2 ^ 64)
      × ((sub_step a b borrow).carry ≤ 1)
unfolding sub_step
sub_step_lem a b borrow ha hb hc = ground arith

mul_step_lem :
    (t a b carry : ℕ)
    → t < 2 ^ 64
    → a < 2 ^ 64
    → b < 2 ^ 64
    → carry < 2 ^ 64
    → ((mul_step t a b carry).digit + 2 ^ 64 * (mul_step t a b carry).carry ≡ t + a * b + carry)
      × ((mul_step t a b carry).digit < 2 ^ 64)
      × ((mul_step t a b carry).carry < 2 ^ 64)
unfolding mul_step
mul_step_lem t a b carry ht ha hb hc =
    let low : a * b ≤ (2 ^ 64 - 1) * (2 ^ 64 - 1) =
      mul-le-mul {n₂ = 2 ^ 64 - 1} {m₂ = 2 ^ 64 - 1} (omega arith) (omega arith) in
    ground (arith, low)

pub gte_modulus_lem :
    (a : MontgomeryU256)
    → IsWords a
    → (gte_modulus a ≡ true → modulus ≤ value a) × (gte_modulus a ≡ false → value a < modulus)
unfolding gte_modulus value
gte_modulus_lem a w = (λ e. ground arith, λ e. ground arith)

pub add_limbs-Holds :
    (a b : MontgomeryU256) → IsWords a → IsWords b → Holds (add_limbs a b) (value a + value b) 1
unfolding add_limbs value
add_limbs-Holds a b u v =
    let d0 = add_step a.l0 b.l0 0 in
    let d1 = add_step a.l1 b.l1 d0.carry in
    let d2 = add_step a.l2 b.l2 d1.carry in
    let (e0, s0, c0) = add_step_lem a.l0 b.l0 0 u.w0 v.w0 (omega arith) in
    let (e1, s1, c1) = add_step_lem a.l1 b.l1 d0.carry u.w1 v.w1 c0 in
    let (e2, s2, c2) = add_step_lem a.l2 b.l2 d1.carry u.w2 v.w2 c1 in
    let (e3, s3, c3) = add_step_lem a.l3 b.l3 d2.carry u.w3 v.w3 c2 in
    record {
      words = record { w0 = s0; w1 = s1; w2 = s2; w3 = s3 };
      total = omega (arith, e0, e1, e2, e3);
      carry = c3;
    }

-- A difference of rows: the number taken off and the limbs make up the other, with the borrow.
pub sub_limbs-Holds :
    (a b : MontgomeryU256)
    → IsWords a
    → IsWords b
    → IsWords (sub_limbs a b).limbs
      × (value (sub_limbs a b).limbs + value b ≡ value a + 2 ^ 256 * (sub_limbs a b).out)
      × ((sub_limbs a b).out ≤ 1)
unfolding sub_limbs value
sub_limbs-Holds a b u v =
    let d0 = sub_step a.l0 b.l0 0 in
    let d1 = sub_step a.l1 b.l1 d0.carry in
    let d2 = sub_step a.l2 b.l2 d1.carry in
    let (e0, s0, c0) = sub_step_lem a.l0 b.l0 0 u.w0 v.w0 (omega arith) in
    let (e1, s1, c1) = sub_step_lem a.l1 b.l1 d0.carry u.w1 v.w1 c0 in
    let (e2, s2, c2) = sub_step_lem a.l2 b.l2 d1.carry u.w2 v.w2 c1 in
    let (e3, s3, c3) = sub_step_lem a.l3 b.l3 d2.carry u.w3 v.w3 c2 in
    (record { w0 = s0; w1 = s1; w2 = s2; w3 = s3 }, omega (arith, e0, e1, e2, e3), c3)

pub mul_limbs-Holds :
    (t a : MontgomeryU256) (b : ℕ)
    → IsWords t
    → IsWords a
    → b < 2 ^ 64
    → Holds (mul_limbs t a b) (value t + value a * b) (2 ^ 64 - 1)
unfolding mul_limbs value
mul_limbs-Holds t a b u v h =
    let d0 = mul_step t.l0 a.l0 b 0 in
    let d1 = mul_step t.l1 a.l1 b d0.carry in
    let d2 = mul_step t.l2 a.l2 b d1.carry in
    let (e0, s0, c0) = mul_step_lem t.l0 a.l0 b 0 u.w0 v.w0 h (omega arith) in
    let (e1, s1, c1) = mul_step_lem t.l1 a.l1 b d0.carry u.w1 v.w1 h c0 in
    let (e2, s2, c2) = mul_step_lem t.l2 a.l2 b d1.carry u.w2 v.w2 h c1 in
    let (e3, s3, c3) = mul_step_lem t.l3 a.l3 b d2.carry u.w3 v.w3 h c2 in
    record {
      words = record { w0 = s0; w1 = s1; w2 = s2; w3 = s3 };
      total = omega (arith, e0, e1, e2, e3);
      carry = omega (arith, c3);
    }
