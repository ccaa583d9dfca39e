-- ===== src/Zk/Fields/Gcd.antt =====
-- The greatest common divisor that `binary_gcd` computes.
use Prim.Native.Nat.{bit_or, bit_or-bitwise}
use native.Mathlib.Nat.{mul-le-mul_right, mod-eq_of_lt}
use mathlib.Core.Path.{subst}
use the_ai_cowboys_6_shooter.Prelude.Powers.{pow-add}
use the_ai_cowboys_6_shooter.Prelude.{
  ℕ, zero, suc, ◌+◌, ◌-◌, ◌*◌, ◌/◌, ◌%◌, ◌^◌, ◌<◌, ◌≤◌, ◌≡◌, refl, sym, ap, ◌∙◌, arith, min, ltb,
  ◌==◌, Bool-cases, inl, inr, ==→eq, ==_false→ne, if◌then◌else◌, some,
}
use the_ai_cowboys_6_shooter.Prelude.Bits.{pow-pos}
use the_ai_cowboys_6_shooter.Zk.Fields.Binary.{
  zeros, trailing_zeros, in_order, subtract, gcd_loop, binary_gcd,
}
use the_ai_cowboys_6_shooter.Zk.Fields.Divisors.{
  Divides, IsGcd, Divides-mul, Divides-add, Divides-sub, odd_divisor, halve_all, scale-IsGcd,
}
use the_ai_cowboys_6_shooter.Zk.Fields.Zeros.{Split, zeros-Split, odd_part, zeros-or}

-- What the loop returns: a greatest common divisor, shifted.
record Looped (fuel shift a b : ℕ) : Type 0 where
  g : ℕ
  runs : gcd_loop fuel shift a b ≡ some (g * 2 ^ shift % 2 ^ 64)
  is_gcd : IsGcd g a b

-- A power of two does not matter beside an odd number.
beside_odd : (g a n k : ℕ) → a % 2 ≡ 1 → IsGcd g a n → IsGcd g a (2 ^ k * n)
beside_odd g a n k odd is = record {
  of_a = is.of_a;
  of_b = Divides-mul g (2 ^ k) n is.of_b;
  greatest = λ d da db. is.greatest d da (halve_all d k n (odd_divisor d a odd da) db);
}

swap-IsGcd : (g a b : ℕ) → IsGcd g a b → IsGcd g b a
swap-IsGcd g a b is = record {
  of_a = is.of_b;
  of_b = is.of_a;
  greatest = λ d da db. is.greatest d db da;
}

same-IsGcd : (a b : ℕ) → a ≡ b → IsGcd a a b
same-IsGcd a b e = record {
  of_a = (1, omega arith);
  of_b = (1, omega (arith, e));
  greatest = λ d da db. da;
}

difference-IsGcd : (g a b : ℕ) → a ≤ b → IsGcd g a (b - a) → IsGcd g a b
difference-IsGcd g a b h is =
    let back : (b - a) + a ≡ b = omega (arith, h) in
    record {
      of_a = is.of_a;
      of_b = rw (sym back) (Divides-add g (b - a) a is.of_b is.of_a);
      greatest = λ d da db. is.greatest d da (Divides-sub d b a h db da);
    }

-- A round, once the smaller and the larger number are known.
decided :
    (fuel shift a b low high : ℕ)
    → in_order a (b / 2 ^ trailing_zeros b) ≡ (low, high)
    → low ≤ high
    → ((g : ℕ) → IsGcd g low high → IsGcd g a b)
    → (0 < high - low → Looped fuel shift low (high - low))
    → Looped (suc fuel) shift a b
unfolding gcd_loop
decided fuel shift a b low high order h back rest = elim (Bool-cases (high - low == 0)) [
  | inl same ↦
      let e = ==→eq (high - low) 0 same in
      record {
        g = low;
        runs = step order ∙ rw (subtract, same) refl;
        is_gcd = back low (same-IsGcd low high (omega (arith, e, h)));
      }
  | inr apart ↦
      let r = rest (omega (arith, ==_false→ne (high - low) 0 apart)) in
      record {
        g = r.g;
        runs = step order ∙ rw (subtract, apart) r.runs;
        is_gcd = back r.g (difference-IsGcd r.g low high h r.is_gcd);
      }
]
  where
    step :
        in_order a (b / 2 ^ trailing_zeros b) ≡ (low, high)
        → gcd_loop (suc fuel) shift a b
          ≡ subtract (λ l r. gcd_loop fuel shift l r) shift (low, high)
    step e = ap (subtract (λ l r. gcd_loop fuel shift l r) shift) e

gcd_loop_total :
    (fuel shift a b : ℕ)
    → a % 2 ≡ 1
    → 0 < b
    → b < 2 ^ 64
    → a < 2 ^ 64
    → a + b ≤ fuel
    → Looped fuel shift a b
unfolding in_order
gcd_loop_total zero shift a b odd pos hb ha h = absurd (omega (arith, odd, pos, h))
gcd_loop_total (suc fuel) shift a b odd pos hb ha h =
    let k = trailing_zeros b in
    let s = zeros-Split 64 b pos hb in
    let shifted : b / 2 ^ k ≡ s.odd = odd_part b k s in
    let below : s.odd ≤ b = omega (arith, s.whole, mul-le-mul_right s.odd (pow-pos k)) in
    let back : (g : ℕ) → IsGcd g a s.odd → IsGcd g a b =
      λ g is. rw (s.whole) (beside_odd g a s.odd k odd is) in
    elim (Bool-cases (ltb s.odd a)) [
      | inl less ↦
          decided fuel shift a b s.odd a (rw (shifted, in_order, less, if◌then◌else◌) refl)
            (ground (arith, less)) (λ g is. back g (swap-IsGcd g s.odd a is))
            (λ apart.
              gcd_loop_total fuel shift s.odd (a - s.odd) s.is_odd apart (omega (arith, ha))
                (omega (arith, below, hb)) (ground (arith, less, h, pos)))
      | inr more ↦
          decided fuel shift a b a s.odd (rw (shifted, in_order, more, if◌then◌else◌) refl)
            (ground (arith, more)) back
            (λ apart.
              gcd_loop_total fuel shift a (s.odd - a) odd apart (omega (arith, below, hb)) ha
                (ground (arith, more, below, h, odd)))
    ]

power-add : (k s : ℕ) → s ≤ k → 2 ^ k ≡ 2 ^ s * 2 ^ (k - s)
power-add k s h =
    let e : k ≡ s + (k - s) = omega (arith, h) in ap (λ t. 2 ^ t) e ∙ pow-add 2 s (k - s)

-- Where `s` is the smaller of the two powers of two, a divisor of the odd part and the whole of the
-- second number, shifted by `s`, is one of the two numbers.
shifted_back :
    (a b i j g : ℕ) (p : Split a i) (q : Split b j) → IsGcd g p.odd b → IsGcd (2 ^ min i j * g) a b
shifted_back a b i j g p q is =
    let s = min i j in
    let A = 2 ^ (i - s) * p.odd in
    let B = 2 ^ (j - s) * q.odd in
    let ea : a ≡ 2 ^ s * A =
      p.whole
      ∙ ap (λ t. t * p.odd) (power-add i s (omega arith))
      ∙ assoc (2 ^ s) (2 ^ (i - s)) p.odd in
    let eb : b ≡ 2 ^ s * B =
      q.whole
      ∙ ap (λ t. t * q.odd) (power-add j s (omega arith))
      ∙ assoc (2 ^ s) (2 ^ (j - s)) q.odd in
    let odd_g : g % 2 ≡ 1 = odd_divisor g p.odd p.is_odd is.of_a in
    let gB : Divides g q.odd =
      halve_all g j q.odd odd_g (subst (λ t. Divides g t) q.whole is.of_b) in
    let whole : IsGcd g A B = record {
      of_a = Divides-mul g (2 ^ (i - s)) p.odd is.of_a;
      of_b = Divides-mul g (2 ^ (j - s)) q.odd gB;
      greatest = λ d da db.
          is.greatest d (of_odd d da db)
            (subst (λ t. Divides d t) (sym eb) (Divides-mul d (2 ^ s) B db));
    } in
    let both = scale-IsGcd s g A B whole in
    subst (λ t. IsGcd (2 ^ s * g) t b) (sym ea)
      (subst (λ t. IsGcd (2 ^ s * g) (2 ^ s * A) t) (sym eb) both)
  where
    assoc : (x y z : ℕ) → x * y * z ≡ x * (y * z)
    assoc x y z = omega arith

    plain : (k n d : ℕ) → k ≡ 0 → Divides d (2 ^ k * n) → Divides d n
    plain k n d e (l, f) = (l, sym (rw (e) (omega arith)) ∙ f)

    -- One of the two numbers is odd once the shift is taken out.
    of_odd :
        (d : ℕ)
        → Divides d (2 ^ (i - min i j) * p.odd)
        → Divides d (2 ^ (j - min i j) * q.odd)
        → Divides d p.odd
    of_odd d da db = elim (Bool-cases (ltb j i)) [
      | inl less ↦
          let dq : Divides d q.odd = plain (j - min i j) q.odd d (ground (arith, less)) db in
          halve_all d (i - min i j) p.odd (odd_divisor d q.odd q.is_odd dq) da
      | inr more ↦ plain (i - min i j) p.odd d (ground (arith, more)) da
    ]

-- On words `binary_gcd` ends, and gives the greatest common divisor: it divides both, and every number
-- that divides both divides it.
pub binary_gcd_lem :
    (a b : ℕ) → a < 2 ^ 64 → b < 2 ^ 64 → (g : ℕ) × (binary_gcd a b ≡ some g) × IsGcd g a b
unfolding binary_gcd
binary_gcd_lem a b ha hb = elim (Bool-cases (a == 0)) [
  | inl no_a ↦
      let e = ==→eq a 0 no_a in
      (
        b,
        rw (no_a, if◌then◌else◌) refl,
        record { of_a = (0, omega (arith, e)); of_b = (1, omega arith); greatest = λ d da db. db },
      )
  | inr some_a ↦ elim (Bool-cases (b == 0)) [
    | inl no_b ↦
        let e = ==→eq b 0 no_b in
        (
          a,
          rw (some_a, no_b, if◌then◌else◌) refl,
          record {
            of_a = (1, omega arith);
            of_b = (0, omega (arith, e));
            greatest = λ d da db. da;
          },
        )
    | inr some_b ↦
        let pos_a : 0 < a = omega (arith, ==_false→ne a 0 some_a) in
        let pos_b : 0 < b = omega (arith, ==_false→ne b 0 some_b) in
        let i = trailing_zeros a in
        let j = trailing_zeros b in
        let p = zeros-Split 64 a pos_a ha in
        let q = zeros-Split 64 b pos_b hb in
        let below : p.odd ≤ a = omega (arith, p.whole, mul-le-mul_right p.odd (pow-pos i)) in
        let shift : trailing_zeros (bit_or a b) ≡ min i j =
          ap (zeros 64) (bit_or-bitwise a b) ∙ zeros-or 64 a a b (omega arith) in
        let l =
          gcd_loop_total (p.odd + b) (min i j) p.odd b p.is_odd pos_b hb (omega (arith, below, ha))
            (omega arith) in
        let is = shifted_back a b i j l.g p q l.is_gcd in
        let small : l.g * 2 ^ min i j < 2 ^ 64 = bounded a (2 ^ min i j) l.g is.of_a pos_a ha in
        let low : l.g * 2 ^ min i j % 2 ^ 64 ≡ l.g * 2 ^ min i j = mod-eq_of_lt small in
        (
          l.g * 2 ^ min i j,
          rw (some_a, some_b, if◌then◌else◌, shift, odd_part a i p) (l.runs ∙ ap some low),
          subst (λ t. IsGcd t a b) (flip (2 ^ min i j) l.g) is,
        )
  ]
]
  where
    flip : (x y : ℕ) → x * y ≡ y * x
    flip x y = omega arith

    bounded : (n x y : ℕ) → Divides (x * y) n → 0 < n → n < 2 ^ 64 → y * x < 2 ^ 64
    bounded n x y (zero, e) h l = absurd (omega (arith, e, h))
    bounded n x y (suc k, e) h l = omega (arith, e, l)
