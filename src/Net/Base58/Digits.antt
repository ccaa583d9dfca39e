-- ===== src/Net/Base58/Digits.antt =====
-- Lists of digits, the lowest first, and the loop that multiplies and adds on them.
use the_ai_cowboys_6_shooter.Prelude.{
  ℕ, zero, suc, ◌+◌, ◌*◌, ◌/◌, ◌%◌, ◌^◌, ◌≤◌, ◌<◌, ◌≡◌, refl, ap, ◌∙◌, arith, ◌==◌, if◌then◌else◌,
  Bool-cases, inl, inr, List, [], ◌∷◌,
}
use native.Mathlib.Nat.{mod-lt, mod-add-div, mul-le-mul_left, mul_comm}
use the_ai_cowboys_6_shooter.Net.Base58.{push_carry, scale_digits}

-- The number that the digits stand for.
unfoldable pub value : ℕ → List ℕ → ℕ
value base [] = 0
value base (d ∷ digits) = d + base * value base digits

-- Digits below the base, without a zero at the top.
unfoldable pub IsCanonical : ℕ → List ℕ → Type 0
IsCanonical base [] = Unit
IsCanonical base (d ∷ digits) = (d < base) × (0 < value base (d ∷ digits)) × IsCanonical base digits

pub push_carry-zero : (base rounds : ℕ) → push_carry base rounds 0 ≡ []
unfolding push_carry
push_carry-zero base zero = refl
push_carry-zero base (suc rounds) = refl

-- A canonical list of digits of the number `n`.
pub record Writes (base n : ℕ) (digits : List ℕ) : Type 0 where
  pub number : value base digits ≡ n
  pub canonical : IsCanonical base digits

quotient-halves : (base n : ℕ) → 2 ≤ base → n / base * 2 ≤ n
quotient-halves base n h =
    let whole = mod-add-div n base in
    let more = mul-le-mul_left {m = 2} {n = base} (n / base) h in
    let swap : n / base * base ≡ base * (n / base) = mul_comm (n / base) base in
    omega (arith, whole, more, swap)

-- With enough rounds all of the carry is written.
push_carry-Writes :
    (base rounds carry : ℕ)
    → 2 ≤ base
    → carry < 2 ^ rounds
    → Writes base carry (push_carry base rounds carry)
unfolding push_carry value IsCanonical
push_carry-Writes base zero carry h l = record { number = omega (arith, l); canonical = tt }
push_carry-Writes base (suc rounds) carry h l = elim (Bool-cases (carry == 0)) [
  | inl e ↦ rw (e, if◌then◌else◌) (record { number = ground (arith, e); canonical = tt })
  | inr e ↦
      let half = quotient-halves base carry h in
      let two : 2 ^ suc rounds ≡ 2 ^ rounds * 2 = omega arith in
      let w = push_carry-Writes base rounds (carry / base) h (omega (arith, half, two, l)) in
      let whole : carry % base + base * value base (push_carry base rounds (carry / base)) ≡ carry =
        ap (λ v. carry % base + base * v) w.number ∙ mod-add-div carry base in
      rw (e, if◌then◌else◌)
        (record {
          number = whole;
          canonical =
              (mod-lt carry {m = base} (omega (arith, h)), ground (arith, whole, e), w.canonical);
        })
]

grow : (b q s v : ℕ) → b * (q + s * v) ≡ b * q + s * (b * v)
grow b q s v = omega arith

spread : (s d t : ℕ) → s * (d + t) ≡ d * s + s * t
spread s d t = omega arith

product_pos : (s x : ℕ) → 0 < s → 0 < x → 0 < s * x
product_pos s x h k = grind arith

-- What a round of the loop leaves of a digit and the carry: the carry stays below `scale`.
pub record Fits (scale base carry d : ℕ) : Type 0 where
  pub carry_below : (carry + d * scale) / base < scale
  pub exact : (carry + d * scale) % 2 ^ 32 ≡ carry + d * scale

module _ (scale base : ℕ)
    (fits : (carry d : ℕ) → carry < scale → d < base → Fits scale base carry d) where
  -- The loop multiplies by `scale` and adds the carry.
  pub scale_digits-Writes :
      (digits : List ℕ) (carry : ℕ)
      → 2 ≤ base
      → 0 < scale
      → scale < 2 ^ 32
      → carry < scale
      → IsCanonical base digits
      → Writes base (carry + scale * value base digits) (scale_digits scale base digits carry)
  unfolding scale_digits value IsCanonical
  scale_digits-Writes [] carry h pos small l k =
      let w = push_carry-Writes base 32 carry h (omega (arith, l, small)) in
      record { number = w.number ∙ omega arith; canonical = w.canonical }
  scale_digits-Writes (d ∷ digits) carry h pos small l (below, top, k) =
      let f = fits carry d l below in
      let sum = carry + d * scale in
      let w = scale_digits-Writes digits (sum / base) h pos small f.carry_below k in
      let v = value base digits in
      let g = grow base (sum / base) scale v in
      let whole : sum % base + base * value base (scale_digits scale base digits (sum / base))
          ≡ carry + scale * (d + base * v) =
        ap (λ (t : ℕ). sum % base + base * t) w.number
        ∙ omega (arith, g, mod-add-div sum base, spread scale d (base * v)) in
      rw (f.exact) (record {
        number = whole;
        canonical = (
          mod-lt sum {m = base} (omega (arith, h)),
          omega (arith, whole, product_pos scale (d + base * v) pos top),
          w.canonical,
        );
      })
