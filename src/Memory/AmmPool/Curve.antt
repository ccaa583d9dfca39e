-- ===== src/Memory/AmmPool/Curve.antt =====
-- The constant-product curve over plain numbers: what is taken out of the reserve `s` for `a` put
-- into the reserve `r`, as the code rounds it.
use native.Mathlib.Nat.{div-mul-le_self, lt-div-mul-add, div-le_of_le-mul, mul-le-mul_left}
use native.Mathlib.Nat.{le-div_iff_mul-le}
use the_ai_cowboys_6_shooter.Prelude.{ℕ, ◌+◌, ◌-◌, ◌*◌, ◌/◌, ◌≤◌, ◌<◌, ◌≡◌, ap, arith}

unfoldable pub curve_out : ℕ → ℕ → ℕ → ℕ
curve_out r s a = s - r * s / (r + a)

-- The new reserve is no more than the old, so the subtraction is exact.
pub quotient-le : (r s a : ℕ) → 0 < r → r * s / (r + a) ≤ s
quotient-le r s a h = div-le_of_le-mul (r + a) (omega arith)

-- `out` is `a * s / (r + a)`, rounded up.
abbrev pub IsCeil : ℕ → ℕ → ℕ → ℕ → Type 0
IsCeil r s a out = (a * s ≤ out * (r + a)) × (out * (r + a) < a * s + (r + a))

pub curve_out-IsCeil : (r s a : ℕ) → 0 < r → IsCeil r s a (curve_out r s a)
unfolding curve_out
curve_out-IsCeil r s a h =
    let q = r * s / (r + a) in
    let low = div-mul-le_self (r * s) (r + a) in
    let high = lt-div-mul-add {a = r * s} {b = r + a} (omega arith) in
    let le = quotient-le r s a h in split q (s - q) (omega arith) low high
  where
    split :
        (q out : ℕ)
        → s ≡ q + out
        → q * (r + a) ≤ r * s
        → r * s < q * (r + a) + (r + a)
        → (a * s ≤ out * (r + a)) × (out * (r + a) < a * s + (r + a))
    split q out e low high =
        let m = ap (λ (t : ℕ). t * (r + a)) e in (omega (arith, m), omega (arith, m))

pub curve_out-le : (r s a : ℕ) → curve_out r s a ≤ s
unfolding curve_out
curve_out-le r s a = omega arith

-- More in, no less out.
pub curve_out_mono : (r s a b : ℕ) → 0 < r → a ≤ b → curve_out r s a ≤ curve_out r s b
unfolding curve_out
curve_out_mono r s a b h le =
    let fewer = mul-le-mul_left {m = r + a} {n = r + b} (r * s / (r + b)) (omega arith) in
    let low = div-mul-le_self (r * s) (r + b) in
    let quotients : r * s / (r + b) ≤ r * s / (r + a) =
      (le-div_iff_mul-le {k = r + a} (omega arith)).1 (omega (arith, fewer, low)) in
    omega arith
