-- ===== src/Memory/AmmPool/Swap.antt =====
-- Swaps on a pool whose numbers are small enough for the sums and products of the code.
use native.Mathlib.Nat.{
  mul_comm, div-le_of_le-mul, mul-le-mul_left, mul-le-mul, lt_of_mul-lt-mul_right, div-mul-le_self,
  lt-div-mul-add,
}
use the_ai_cowboys_6_shooter.Prelude.{ℕ, ◌+◌, ◌-◌, ◌*◌, ◌/◌, ◌^◌, ◌≤◌, ◌<◌, ◌≡◌, arith, ap, some}
use the_ai_cowboys_6_shooter.Memory.AmmPool.{AmmPool, swap_x_to_y, swap_y_to_x}
use the_ai_cowboys_6_shooter.Memory.AmmPool.Curve.{
  curve_out, IsCeil, curve_out-IsCeil, curve_out-le, curve_out_mono, quotient-le,
}

-- What is left of `a` after a fee of `f / d`, rounded down.
unfoldable pub after_fee : ℕ → ℕ → ℕ → ℕ
after_fee f d a = a - a * f / d

pub fee-le : (f d a : ℕ) → f ≤ d → a * f / d ≤ a
fee-le f d a h = let m = mul-le-mul_left a h in div-le_of_le-mul d (omega (arith, m))

pub after_fee-le : (f d a : ℕ) → after_fee f d a ≤ a
unfolding after_fee
after_fee-le f d a = omega arith

split_sub : (a b : ℕ) → a ≤ b → b ≡ a + (b - a)
split_sub a b le = omega arith

-- More in leaves no less after the fee.
pub after_fee_mono : (f d a b : ℕ) → f ≤ d → 0 < d → a ≤ b → after_fee f d a ≤ after_fee f d b
unfolding after_fee
after_fee_mono f d a b h pos le =
    let qb = b * f / d in
    let qa = a * f / d in
    let low = div-mul-le_self (b * f) d in
    let high = lt-div-mul-add {a = a * f} {b = d} pos in
    let more = mul-le-mul_left (b - a) h in
    let sum : qb * d < (qa + 1 + (b - a)) * d =
      omega (arith, ap (λ (t : ℕ). t * f) (split_sub a b le)) in
    let close = lt_of_mul-lt-mul_right d sum in omega (arith, fee-le f d a h)

-- Both reserves are there, the fee is at most the whole, and every value is below 2 ^ 64.
pub record IsPool (p : AmmPool) : Type 0 where
  pub x_pos : 0 < p.reserve_x
  pub y_pos : 0 < p.reserve_y
  pub x_fits : p.reserve_x < 2 ^ 64
  pub y_fits : p.reserve_y < 2 ^ 64
  pub fee_below : p.fee_numerator ≤ p.fee_denominator
  pub fee_pos : 0 < p.fee_denominator
  pub fee_fits : p.fee_denominator < 2 ^ 64

-- The code's swap is the curve, taken after the fee.
pub product_fits : (a b : ℕ) → a < 2 ^ 64 → b < 2 ^ 64 → a * b < 2 ^ 128
product_fits a b ha hb =
    let m =
      mul-le-mul {n₁ = a} {m₁ = b} {n₂ = 2 ^ 64 - 1} {m₂ = 2 ^ 64 - 1} (omega arith)
        (omega arith) in
    omega (arith, m)

pub swap_x_to_y_curve :
    {p : AmmPool} (a : ℕ)
    → IsPool p
    → a < 2 ^ 64
    → swap_x_to_y p a
      ≡ some (curve_out p.reserve_x p.reserve_y (after_fee p.fee_numerator p.fee_denominator a))
unfolding swap_x_to_y curve_out after_fee
swap_x_to_y_curve {p} a v h = ground (
  arith,
  product_fits a p.fee_numerator h (omega arith),
  product_fits p.reserve_x p.reserve_y v.x_fits v.y_fits,
  fee-le p.fee_numerator p.fee_denominator a v.fee_below,
  quotient-le p.reserve_x p.reserve_y (a - a * p.fee_numerator / p.fee_denominator) v.x_pos,
)

pub swap_y_to_x_curve :
    {p : AmmPool} (a : ℕ)
    → IsPool p
    → a < 2 ^ 64
    → swap_y_to_x p a
      ≡ some (curve_out p.reserve_y p.reserve_x (after_fee p.fee_numerator p.fee_denominator a))
unfolding swap_y_to_x curve_out after_fee
swap_y_to_x_curve {p} a v h =
    let swapped = mul_comm p.reserve_x p.reserve_y in
    ground (
      arith,
      product_fits a p.fee_numerator h (omega arith),
      product_fits p.reserve_x p.reserve_y v.x_fits v.y_fits,
      fee-le p.fee_numerator p.fee_denominator a v.fee_below,
      quotient-le p.reserve_y p.reserve_x (a - a * p.fee_numerator / p.fee_denominator) v.y_pos,
      swapped,
    )

-- On a pool whose reserves are positive and below 2 ^ 64 and whose fee denominator is positive, below
-- 2 ^ 64 and at least the numerator, a swap of less than 2 ^ 64 in either direction returns at most the whole reserve: the amount that keeps the product
-- of the reserves for the input less the rounded-down fee, rounded UP to a whole number.
pub swap-IsCeil :
    {p : AmmPool} (a : ℕ)
    → IsPool p
    → a < 2 ^ 64
    → let fee = after_fee p.fee_numerator p.fee_denominator a in
      ((out : ℕ) × (swap_x_to_y p a ≡ some out)
        × (out ≤ p.reserve_y)
        × IsCeil p.reserve_x p.reserve_y fee out)
      × ((out : ℕ) × (swap_y_to_x p a ≡ some out)
          × (out ≤ p.reserve_x)
          × IsCeil p.reserve_y p.reserve_x fee out)
swap-IsCeil {p} a v h =
    let fee = after_fee p.fee_numerator p.fee_denominator a in
    (
      (
        curve_out p.reserve_x p.reserve_y fee,
        swap_x_to_y_curve a v h,
        curve_out-le p.reserve_x p.reserve_y fee,
        curve_out-IsCeil p.reserve_x p.reserve_y fee v.x_pos,
      ),
      (
        curve_out p.reserve_y p.reserve_x fee,
        swap_y_to_x_curve a v h,
        curve_out-le p.reserve_y p.reserve_x fee,
        curve_out-IsCeil p.reserve_y p.reserve_x fee v.y_pos,
      ),
    )

-- On such a pool, in both directions, a larger input never buys less.
pub swap_mono :
    {p : AmmPool} (a b : ℕ)
    → IsPool p
    → a ≤ b
    → b < 2 ^ 64
    → ((u : ℕ) × (w : ℕ) × (swap_x_to_y p a ≡ some u) × (swap_x_to_y p b ≡ some w) × (u ≤ w))
      × ((u : ℕ) × (w : ℕ) × (swap_y_to_x p a ≡ some u) × (swap_y_to_x p b ≡ some w) × (u ≤ w))
swap_mono {p} a b v le h =
    let fa = after_fee p.fee_numerator p.fee_denominator a in
    let fb = after_fee p.fee_numerator p.fee_denominator b in
    let grows = after_fee_mono p.fee_numerator p.fee_denominator a b v.fee_below v.fee_pos le in
    (
      (
        curve_out p.reserve_x p.reserve_y fa,
        curve_out p.reserve_x p.reserve_y fb,
        swap_x_to_y_curve a v (omega arith),
        swap_x_to_y_curve b v h,
        curve_out_mono p.reserve_x p.reserve_y fa fb v.x_pos grows,
      ),
      (
        curve_out p.reserve_y p.reserve_x fa,
        curve_out p.reserve_y p.reserve_x fb,
        swap_y_to_x_curve a v (omega arith),
        swap_y_to_x_curve b v h,
        curve_out_mono p.reserve_y p.reserve_x fa fb v.y_pos grows,
      ),
    )
