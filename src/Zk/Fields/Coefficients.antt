-- ===== src/Zk/Fields/Coefficients.antt =====
-- The coefficients that `extended_gcd` finds, as bit patterns of signed numbers.
use native.Mathlib.Nat.{mod-add-div, mod-lt, mul-le-mul_left}
use the_ai_cowboys_6_shooter.Prelude.{
  ℕ, zero, suc, ◌+◌, ◌-◌, ◌*◌, ◌/◌, ◌%◌, ◌^◌, ◌≤◌, ◌<◌, ◌≡◌, refl, ap, ap₂, ◌∙◌, arith, max, ◌==◌,
  Bool-cases, ==→eq, ==_false→ne, inl, inr, some, ◌>>=◌,
}
use the_ai_cowboys_6_shooter.Prelude.Words.{sub_u128, mul_u128}
use the_ai_cowboys_6_shooter.Zk.Fields.Integers.{Bezout, gcd_calls}

-- The pattern of the opposite of a number.
abbrev pub neg : ℕ → ℕ
neg n = (2 ^ 128 - n) % 2 ^ 128

-- The two coefficients have opposite signs, and give the divisor without wrapping.
pub data Signed (a b : ℕ) (r : Bezout) (u v : ℕ) : Type 0 where
  x_positive : r.x ≡ u → r.y ≡ neg v → a * u ≡ r.g + b * v → Signed a b r u v
  y_positive : r.x ≡ neg u → r.y ≡ v → b * v ≡ r.g + a * u → Signed a b r u v

pub record Found (a b : ℕ) (r : Bezout) : Type 0 where
  pub u : ℕ
  pub v : ℕ
  pub signed : Signed a b r u v
  pub u_small : u ≤ max b 1
  pub v_small : v ≤ max a 1
  pub u_none : a ≡ 0 → u ≡ 0
  pub of_a : ℕ
  pub of_b : ℕ
  pub divides_a : a ≡ r.g * of_a
  pub divides_b : b ≡ r.g * of_b

neg-mul : (q x : ℕ) → q * x < 2 ^ 128 → q * neg x % 2 ^ 128 ≡ neg (q * x)
neg-mul zero x h = omega arith
neg-mul (suc q) zero h = omega arith
neg-mul (suc q) (suc x) h =
    let d = 2 ^ 128 - suc x in
    let fits : suc q * suc x ≡ suc x + q * suc x = omega arith in
    let low : neg (suc x) ≡ d = omega (arith, h, fits) in
    let whole : d + suc x ≡ 2 ^ 128 = omega (arith, h, fits) in
    let all : suc q * d + suc q * suc x ≡ suc q * 2 ^ 128 =
      spread (suc q) d (suc x) ∙ ap (λ t. suc q * t) whole in
    rw (low) (ends (suc q * d) (suc q * suc x) q all h (omega (arith, fits)))
  where
    spread : (q d x : ℕ) → q * d + q * x ≡ q * (d + x)
    spread q d x = omega arith

    ends : (t p q : ℕ) → t + p ≡ suc q * 2 ^ 128 → p < 2 ^ 128 → 0 < p → t % 2 ^ 128 ≡ neg p
    ends t p q e h l = omega (arith, e)

first_form : (a b q r g u v : ℕ) → b ≡ q * a + r → r * u ≡ g + a * v → b * u ≡ g + a * (v + q * u)
first_form a b q r g u v split e = rw (split) (omega (arith, e))

second_form : (a b q r g u v : ℕ) → b ≡ q * a + r → a * v ≡ g + r * u → a * (v + q * u) ≡ g + b * u
second_form a b q r g u v split e = rw (split) (omega (arith, e))

step-Signed :
    (a b q r' : ℕ) (r : Bezout) (u v : ℕ)
    → b ≡ q * a + r'
    → Signed r' a r u v
    → v + q * u < 2 ^ 128
    → Signed a b (record { g = r.g; x = sub_u128 r.y (mul_u128 q r.x); y = r.x }) (v + q * u) u
step-Signed a b q r' r u v split (x_positive ex ey e) h =
    y_positive (rw (ex, ey) (omega (arith, h))) ex (first_form a b q r' r.g u v split e)
step-Signed a b q r' r u v split (y_positive ex ey e) h =
    x_positive (rw (ex, ey, neg-mul q u (omega (arith, h))) (omega (arith, h))) ex
      (second_form a b q r' r.g u v split e)

-- The coefficients of zero and `b`.
last-Found : (a b : ℕ) → a ≡ 0 → Found a b (record { g = b; x = 0; y = 1 })
last-Found a b none_left = record {
  u = 0;
  v = 1;
  signed = y_positive (omega arith) refl (rw (none_left) (omega arith));
  u_small = omega arith;
  v_small = omega arith;
  u_none = λ _. refl;
  of_a = 0;
  of_b = 1;
  divides_a = omega (arith, none_left);
  divides_b = omega arith;
}

-- The coefficients of `a` and `b` from those of `b % a` and `a`.
next-Found :
    (a b : ℕ) (r : Bezout)
    → 0 < a
    → a < 2 ^ 64
    → b < 2 ^ 64
    → Found (b % a) a r
    → Found a b (record { g = r.g; x = sub_u128 r.y (mul_u128 (b / a) r.x); y = r.x })
next-Found a b r pos ha hb found =
    let q = b / a in
    let split : b ≡ q * a + b % a = omega (arith, mod-add-div b a) in
    let room : q * found.u ≤ q * a = mul-le-mul_left q (omega (arith, found.u_small, pos)) in
    let small : found.v + q * found.u ≤ max b 1 =
      fits (b % a) found.u found.v (q * a) (q * found.u) split found.v_small room
        (λ e. ap (λ t. q * t) (found.u_none e) ∙ omega arith) in
    record {
      u = found.v + q * found.u;
      v = found.u;
      signed =
          step-Signed a b q (b % a) r found.u found.v split found.signed (omega (arith, small));
      u_small = small;
      v_small = omega (arith, found.u_small, pos);
      u_none = λ e. absurd (omega (arith, e, pos));
      of_a = found.of_b;
      of_b = q * found.of_b + found.of_a;
      divides_a = found.divides_b;
      divides_b =
          split
          ∙ ap₂ (λ s t. q * s + t) found.divides_b found.divides_a
          ∙ factor q r.g found.of_b found.of_a;
    }
  where
    fits : (r u v p w : ℕ) → b ≡ p + r → v ≤ max r 1 → w ≤ p → (r ≡ 0 → w ≡ 0) → v + w ≤ max b 1
    fits r u v p w e hv hw z = elim (Bool-cases (r == 0)) [
      | inl zero_rest ↦
          let none_left = z (==→eq r 0 zero_rest) in omega (arith, none_left, ==→eq r 0 zero_rest)
      | inr some_rest ↦ omega (arith, ==_false→ne r 0 some_rest)
    ]

    factor : (q g s t : ℕ) → q * (g * s) + g * t ≡ g * (q * s + t)
    factor q g s t = omega arith

pub gcd_calls_total :
    (fuel a b : ℕ)
    → a < fuel
    → a < 2 ^ 64
    → b < 2 ^ 64
    → (r : Bezout) × (gcd_calls fuel a b ≡ some r) × Found a b r
unfolding gcd_calls
gcd_calls_total zero a b h ha hb = absurd (omega arith)
gcd_calls_total (suc fuel) a b h ha hb = elim (Bool-cases (a == 0)) [
  | inl stop ↦
      (record { g = b; x = 0; y = 1 }, rw (gcd_calls, stop) refl, last-Found a b (==→eq a 0 stop))
  | inr more ↦
      let pos : 0 < a = omega (arith, ==_false→ne a 0 more) in
      let low : b % a < a = mod-lt b pos in
      let (r, run, found) =
        gcd_calls_total fuel (b % a) a (omega (arith, low)) (omega (arith, low)) ha in
      (
        record { g = r.g; x = sub_u128 r.y (mul_u128 (b / a) r.x); y = r.x },
        rw (gcd_calls, more, run, ◌>>=◌) refl,
        next-Found a b r pos ha hb found,
      )
]
