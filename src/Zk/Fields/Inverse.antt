-- ===== src/Zk/Fields/Inverse.antt =====
-- The inverse that `mod_inverse` finds.
use native.Mathlib.Nat.{mod-add-div, mod-lt, add-mul-mod_self_left, mul-le-mul_left, mod-eq_of_lt}
use the_ai_cowboys_6_shooter.Prelude.{
  ℕ, zero, suc, ◌+◌, ◌-◌, ◌*◌, ◌/◌, ◌%◌, ◌^◌, ◌≤◌, ◌<◌, ◌≡◌, ◌≢◌, ◌⊎◌, refl, sym, ap, ◌∙◌, arith,
  max, ltb, ◌==◌, if◌then◌else◌, true, false, Bool-cases, ==→eq, ==_false→ne, ne→==_false, inl, inr,
  none, some, ◌>>=◌,
}
use the_ai_cowboys_6_shooter.Prelude.Powers.{mod-mul_right}
use the_ai_cowboys_6_shooter.Zk.Fields.Integers.{Bezout, extended_gcd, signed_mod, mod_inverse}
use the_ai_cowboys_6_shooter.Zk.Fields.Coefficients.{
  neg, Signed, x_positive, y_positive, gcd_calls_total,
}

-- `u` is an inverse where `a * u` is one more than a multiple.
inverse_positive : (a m u v : ℕ) → 0 < m → a * u ≡ 1 + m * v → a * (u % m) % m ≡ 1 % m
inverse_positive a m u v pos e =
    mod-mul_right m a u ∙ ap (λ t. t % m) e ∙ add-mul-mod_self_left 1 m v

-- The opposite of `u` is one where `a * u` is one less than a multiple.
inverse_negative : (a m u v : ℕ) → 0 < m → m * v ≡ 1 + a * u → a * ((m - u % m) % m) % m ≡ 1 % m
inverse_negative a m u v pos e =
    let c = m - u % m in
    let back : c + u % m ≡ m = omega (arith, mod-lt u pos) in
    let whole : u % m + m * (u / m) ≡ u = mod-add-div u m in
    let total : a * c + m * v ≡ 1 + m * (a + a * (u / m)) =
      ap (λ t. a * c + t) e
      ∙ ap (λ t. a * c + (1 + a * t)) (sym whole)
      ∙ regroup a c (u % m) m (u / m)
      ∙ ap (λ t. 1 + (a * t + m * (a * (u / m)))) back
      ∙ close a m (u / m) in
    mod-mul_right m a c
    ∙ sym (add-mul-mod_self_left (a * c) m v)
    ∙ ap (λ t. t % m) total
    ∙ add-mul-mod_self_left 1 m (a + a * (u / m))
  where
    regroup : (a c r m d : ℕ) → a * c + (1 + a * (r + m * d)) ≡ 1 + (a * (c + r) + m * (a * d))
    regroup a c r m d = omega arith

    close : (a m d : ℕ) → 1 + (a * m + m * (a * d)) ≡ 1 + m * (a + a * d)
    close a m d = omega arith

factor_bound : (g t : ℕ) → 0 < g * t → g ≢ 1 → 1 < g × (g ≤ g * t)
factor_bound zero t h other = absurd (omega (arith, h))
factor_bound (suc g) zero h other = absurd (omega (arith, h))
factor_bound (suc g) (suc t) h other =
    (omega (arith, other), omega (arith, mul-le-mul_left (suc g) (one_le t)))
  where
    one_le : (t : ℕ) → 1 ≤ suc t
    one_le t = omega arith

-- A common divisor of `a` and `m` other than 1 leaves no inverse.
no_inverse : (g s t m i : ℕ) → 0 < m → m ≡ g * t → g ≢ 1 → g * s * i % m ≢ 1 % m
no_inverse g s t m i pos em other e =
    let (big, below) = factor_bound g t (omega (arith, em, pos)) other in
    let n = g * s * i in
    let one : 1 % m ≡ 1 = mod-eq_of_lt (omega (arith, em, big, below)) in
    let whole : 1 + g * (t * (n / m)) ≡ g * (s * i) =
      ap (λ k. 1 + k) (shift g t (n / m) ∙ ap (λ k. k * (n / m)) (sym em))
      ∙ ap (λ k. k + m * (n / m)) (sym (e ∙ one))
      ∙ mod-add-div n m
      ∙ shift' g s i in
    let left : (1 + g * (t * (n / m))) % g ≡ 1 =
      add-mul-mod_self_left 1 g (t * (n / m)) ∙ mod-eq_of_lt big in
    let right : g * (s * i) % g ≡ 0 =
      ap (λ k. k % g) (bare (g * (s * i)))
      ∙ add-mul-mod_self_left 0 g (s * i)
      ∙ mod-eq_of_lt (omega (arith, big)) in
    omega (arith, sym left ∙ ap (λ k. k % g) whole ∙ right)
  where
    shift : (g t d : ℕ) → g * (t * d) ≡ g * t * d
    shift g t d = omega arith

    shift' : (g s i : ℕ) → g * s * i ≡ g * (s * i)
    shift' g s i = omega arith

    bare : (k : ℕ) → k ≡ 0 + k
    bare k = omega arith

reduced : (n m : ℕ) → n < m → m < 2 ^ 64 → (n + m) % m % 2 ^ 64 ≡ n
reduced n m h small =
    let once : (n + m) % m ≡ n =
      ap (λ t. (n + t) % m) (times_one m) ∙ add-mul-mod_self_left n m 1 ∙ mod-eq_of_lt h in
    rw (once) (omega arith)
  where
    times_one : (m : ℕ) → m ≡ m * 1
    times_one m = omega arith

whole_back : (m : ℕ) → 0 + m * 1 ≡ m - 0
whole_back m = omega arith

signed_mod_inverse :
    (a m : ℕ) (b : Bezout) (u v : ℕ)
    → 0 < m
    → m < 2 ^ 64
    → Signed a m b u v
    → u ≤ max m 1
    → b.g ≡ 1
    → (signed_mod b.x m < m) × (a * signed_mod b.x m % m ≡ 1 % m)
signed_mod_inverse a m b u v pos hm (x_positive ex ey e) small one =
    let low : ltb b.x (2 ^ 127) ≡ true = ground (arith, ex, small, hm) in
    let plain : signed_mod b.x m ≡ u % m =
      rw (low, if◌then◌else◌, ex) (reduced (u % m) m (mod-lt u pos) hm) in
    rw (plain) (mod-lt u pos, inverse_positive a m u v pos (e ∙ ap (λ t. t + m * v) one))
signed_mod_inverse a m b zero v pos hm (y_positive ex ey e) small one =
    let nothing : b.x ≡ 0 = omega (arith, ex) in
    let gone : 0 % m ≡ 0 = mod-eq_of_lt pos in
    let plain : signed_mod b.x m ≡ 0 % m = rw (nothing) (reduced (0 % m) m (mod-lt 0 pos) hm) in
    let around : (m - 0 % m) % m ≡ 0 % m =
      rw (gone) (ap (λ t. t % m) (sym (whole_back m)) ∙ add-mul-mod_self_left 0 m 1 ∙ gone) in
    rw (plain) (
      mod-lt 0 pos,
      sym (ap (λ t. a * t % m) around) ∙ inverse_negative a m 0 v pos (e ∙ ap (λ t. t + a * 0) one),
    )
signed_mod_inverse a m b (suc u) v pos hm (y_positive ex ey e) small one =
    let n = (m - suc u % m) % m in
    let less : n < m = mod-lt (m - suc u % m) pos in
    let high : ltb b.x (2 ^ 127) ≡ false = ground (arith, ex, small, hm) in
    let plain : signed_mod b.x m ≡ n =
      rw (high, if◌then◌else◌)
        (ap (λ t. (m - t % m) % m % 2 ^ 64)
            (opposite b.x (suc u) ex (omega arith) (omega (arith, small, hm)))
          ∙ mod-eq_of_lt (omega (arith, less, hm))) in
    rw (plain) (less, inverse_negative a m (suc u) v pos (e ∙ ap (λ t. t + a * suc u) one))
  where
    opposite : (x u : ℕ) → x ≡ neg u → 0 < u → u < 2 ^ 127 → 2 ^ 128 - x ≡ u
    opposite x u e l h = omega (arith, e)

-- For words `a` and `modulus`, the modulus not zero, `mod_inverse` ends without a panic. Either it
-- gives a number below the modulus whose product with `a` leaves the remainder of 1, or it gives
-- none and no number does.
pub mod_inverse_lem :
    (a modulus : ℕ)
    → a < 2 ^ 64
    → 0 < modulus
    → modulus < 2 ^ 64
    → ((i : ℕ) × (mod_inverse a modulus ≡ some (some i))
        × (i < modulus)
        × (a * i % modulus ≡ 1 % modulus))
      ⊎ ((mod_inverse a modulus ≡ some none) × ((i : ℕ) → a * i % modulus ≢ 1 % modulus))
unfolding mod_inverse extended_gcd
mod_inverse_lem a m ha pos hm =
    let (r, run, found) = gcd_calls_total (a + 1) a m (omega arith) ha hm in
    elim (Bool-cases (r.g == 1)) [
      | inl coprime ↦
          let (less, inverse) =
            signed_mod_inverse a m r found.u found.v pos hm found.signed found.u_small
              (==→eq r.g 1 coprime) in
          inl (
            signed_mod r.x m,
            rw
                (
                  mod_inverse,
                  run,
                  ◌>>=◌,
                  coprime,
                  if◌then◌else◌,
                  ne→==_false m 0 (omega (arith, pos)),
                )
                refl,
            less,
            inverse,
          )
      | inr common ↦ inr (
        rw (mod_inverse, run, ◌>>=◌, common, if◌then◌else◌) refl,
        λ i. rw (found.divides_a) (
            no_inverse r.g found.of_a found.of_b m i pos found.divides_b
              (==_false→ne r.g 1 common)),
      )
    ]
