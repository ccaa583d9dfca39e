-- ===== src/Zk/Fields/Divisors.antt =====
-- Divisors, odd numbers, and greatest common divisors by what they divide.
use the_ai_cowboys_6_shooter.Prelude.{
  ℕ, zero, suc, ◌+◌, ◌-◌, ◌*◌, ◌/◌, ◌%◌, ◌^◌, ◌≤◌, ◌≡◌, sym, ap, ◌∙◌, arith, ltb, ◌==◌, Bool-cases,
  inl, inr, ==→eq, ==_false→ne,
}
use native.Mathlib.Nat.{two-pow-succ}

abbrev pub Divides : ℕ → ℕ → Type 0
Divides d n = (k : ℕ) × (n ≡ d * k)

-- The common divisor that every common divisor divides.
pub record IsGcd (g a b : ℕ) : Type 0 where
  pub of_a : Divides g a
  pub of_b : Divides g b
  pub greatest : (d : ℕ) → Divides d a → Divides d b → Divides d g

pub Divides-mul : (d m n : ℕ) → Divides d n → Divides d (m * n)
Divides-mul d m n (k, e) = (m * k, ap (λ t. m * t) e ∙ swap m d k)
  where
    swap : (m d k : ℕ) → m * (d * k) ≡ d * (m * k)
    swap m d k = omega arith

pub Divides-add : (d m n : ℕ) → Divides d m → Divides d n → Divides d (m + n)
Divides-add d m n (k, e) (l, f) = (k + l, omega (arith, e, f))

pub Divides-sub : (d m n : ℕ) → n ≤ m → Divides d m → Divides d n → Divides d (m - n)
Divides-sub d m n h (k, e) (l, f) = (k - l, split k l (m - n) (omega (arith, e, f, h)))
  where
    share : (l r : ℕ) → d * (l + r) ≡ d * l + d * r
    share l r = omega arith

    split : (k l r : ℕ) → r + d * l ≡ d * k → r ≡ d * (k - l)
    split k l r e = elim (Bool-cases (ltb k l)) [
      | inl less ↦
          let gap : k - l ≡ 0 = ground (arith, less) in
          let whole : d * l ≡ d * k + d * (l - k) =
            ap (λ t. d * t) (ground (arith, less)) ∙ share k (l - k) in
          rw (gap) (omega (arith, e, whole))
      | inr more ↦
          let whole : d * k ≡ d * l + d * (k - l) =
            ap (λ t. d * t) (ground (arith, more)) ∙ share l (k - l) in
          omega (arith, e, whole)
    ]

-- A divisor of an odd number is odd.
pub odd_divisor : (d n : ℕ) → n % 2 ≡ 1 → Divides d n → d % 2 ≡ 1
odd_divisor d n h (k, e) = elim (Bool-cases (d % 2 == 0)) [
  | inl even ↦ absurd (
      let half : d ≡ 2 * (d / 2) = omega (arith, ==→eq (d % 2) 0 even) in
      let f : n ≡ 2 * (d / 2 * k) = e ∙ ap (λ t. t * k) half ∙ assoc (d / 2) k in
      omega (arith, f, h))
  | inr odd ↦ omega (arith, ==_false→ne (d % 2) 0 odd)
]
  where
    assoc : (c k : ℕ) → 2 * c * k ≡ 2 * (c * k)
    assoc c k = omega arith

-- An odd divisor of twice a number divides the number.
pub halve : (d n : ℕ) → d % 2 ≡ 1 → Divides d (2 * n) → Divides d n
halve d n h (k, e) =
    let form : d ≡ 2 * (d / 2) + 1 = omega (arith, h) in
    let spread : d * k ≡ 2 * (d / 2 * k) + k = ap (λ t. t * k) form ∙ assoc (d / 2) k in
    let even : k ≡ 2 * (k / 2) = omega (arith, e, spread) in
    (k / 2, twice n (d * (k / 2)) (e ∙ ap (λ t. d * t) even ∙ swap d (k / 2)))
  where
    assoc : (c k : ℕ) → (2 * c + 1) * k ≡ 2 * (c * k) + k
    assoc c k = omega arith

    swap : (d j : ℕ) → d * (2 * j) ≡ 2 * (d * j)
    swap d j = omega arith

    twice : (m n : ℕ) → 2 * m ≡ 2 * n → m ≡ n
    twice m n e = omega (arith, e)

pub halve_all : (d k n : ℕ) → d % 2 ≡ 1 → Divides d (2 ^ k * n) → Divides d n
halve_all d zero n h (l, e) = (l, omega (arith, e))
halve_all d (suc k) n h (l, e) =
    let p : 2 ^ suc k * n ≡ 2 * (2 ^ k * n) = ap (λ t. t * n) (two-pow-succ k) ∙ assoc (2 ^ k) n in
    halve_all d k n h (halve d (2 ^ k * n) h (l, sym p ∙ e))
  where
    assoc : (c n : ℕ) → (c + c) * n ≡ 2 * (c * n)
    assoc c n = omega arith

double-IsGcd : (g a b : ℕ) → IsGcd g a b → IsGcd (2 * g) (2 * a) (2 * b)
double-IsGcd g a b is = record {
  of_a = up g a is.of_a;
  of_b = up g b is.of_b;
  greatest = λ d da db. elim (Bool-cases (d % 2 == 0)) [
    | inl even ↦
        let form : d ≡ 2 * (d / 2) = omega (arith, ==→eq (d % 2) 0 even) in
        let (k, e) = is.greatest (d / 2) (down d a form da) (down d b form db) in
        (k, ap (λ t. 2 * t) e ∙ assoc (d / 2) k ∙ ap (λ t. t * k) (sym form))
    | inr odd ↦
        let h : d % 2 ≡ 1 = omega (arith, ==_false→ne (d % 2) 0 odd) in
        Divides-mul d 2 g (is.greatest d (halve d a h da) (halve d b h db))
  ];
}
  where
    assoc : (c k : ℕ) → 2 * (c * k) ≡ 2 * c * k
    assoc c k = omega arith

    up : (g n : ℕ) → Divides g n → Divides (2 * g) (2 * n)
    up g n (k, e) = (k, ap (λ t. 2 * t) e ∙ assoc g k)

    down : (d n : ℕ) → d ≡ 2 * (d / 2) → Divides d (2 * n) → Divides (d / 2) n
    down d n form (k, e) =
        let f : 2 * n ≡ 2 * (d / 2 * k) = e ∙ ap (λ t. t * k) form ∙ sym (assoc (d / 2) k) in
        (k, omega (arith, f))

pub scale-IsGcd : (s g a b : ℕ) → IsGcd g a b → IsGcd (2 ^ s * g) (2 ^ s * a) (2 ^ s * b)
scale-IsGcd zero g a b is =
    let one : (n : ℕ) → 2 ^ 0 * n ≡ n = λ n. omega arith in rw (one g, one a, one b) is
scale-IsGcd (suc s) g a b is =
    let step : (n : ℕ) → 2 ^ suc s * n ≡ 2 * (2 ^ s * n) =
      λ n. ap (λ t. t * n) (two-pow-succ s) ∙ assoc (2 ^ s) n in
    rw (step g, step a, step b)
      (double-IsGcd (2 ^ s * g) (2 ^ s * a) (2 ^ s * b) (scale-IsGcd s g a b is))
  where
    assoc : (c n : ℕ) → (c + c) * n ≡ 2 * (c * n)
    assoc c n = omega arith
