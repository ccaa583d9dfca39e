-- ===== src/Prelude/Or.antt =====
-- `|` of a multiple of a power of two with a number below that power, as a sum.
use Prim.Native.Nat.{
  ℕ, zero, suc, ◌+◌, ◌*◌, ◌/◌, ◌%◌, ◌^◌, ◌≤◌, ◌<◌, max, bit_or, digits, bit_or-bitwise,
}
use mathlib.Core.Path.{◌≡◌, refl, ap, ◌∙◌}
use native.Mathlib.Nat.{two-pow-succ}
use native.Mathlib.Omega.{arith}

or_rounds-zero : (n a : ℕ) → a ≤ n → digits (λ b. b) max n a 0 ≡ a
or_rounds-zero zero zero h = refl
or_rounds-zero zero (suc a) h = absurd (omega arith)
or_rounds-zero (suc n) zero h = refl
or_rounds-zero (suc n) (suc a) h =
    let rest = or_rounds-zero n (suc a / 2) (omega arith) in rw (rest) (omega arith)

or_rounds-disjoint :
    (n m a k d : ℕ) → m ≤ n → m ≡ a * 2 ^ k → d < 2 ^ k → digits (λ b. b) max n m d ≡ m + d
or_rounds-disjoint zero zero a k d h e l = omega arith
or_rounds-disjoint zero (suc m) a k d h e l = absurd (omega arith)
or_rounds-disjoint (suc n) zero a k d h e l = omega arith
or_rounds-disjoint (suc n) (suc m) a zero d h e l =
    let none_left : d ≡ 0 = omega arith in
    rw (none_left) (or_rounds-zero (suc n) (suc m) h ∙ omega arith)
or_rounds-disjoint (suc n) (suc m) a (suc k) d h e l =
    let p : 2 ^ suc k ≡ 2 ^ k * 2 = omega (arith, two-pow-succ k) in
    let e' : suc m ≡ a * 2 ^ k * 2 = e ∙ ap (λ t. a * t) p ∙ omega arith in
    let even : suc m % 2 ≡ 0 = omega (arith, e') in
    let half : suc m / 2 ≡ a * 2 ^ k = omega (arith, e') in
    let rest = or_rounds-disjoint n (suc m / 2) a k (d / 2) (omega arith) half (omega (arith, p)) in
    rw (rest) (omega (arith, even))

pub bit_or-disjoint : (a k d : ℕ) → d < 2 ^ k → bit_or (a * 2 ^ k) d ≡ a * 2 ^ k + d
bit_or-disjoint a k d h =
    bit_or-bitwise (a * 2 ^ k) d
    ∙ or_rounds-disjoint (a * 2 ^ k) (a * 2 ^ k) a k d (omega arith) refl h

-- The same with the two numbers in the other order.
rounds_disjoint-or :
    (n m a k d : ℕ) → d ≤ n → m ≡ a * 2 ^ k → d < 2 ^ k → digits (λ b. b) max n d m ≡ m + d
rounds_disjoint-or zero m a k zero h e l = omega arith
rounds_disjoint-or zero m a k (suc d) h e l = absurd (omega arith)
rounds_disjoint-or (suc n) m a k zero h e l = omega arith
rounds_disjoint-or (suc n) m a zero (suc d) h e l = absurd (omega arith)
rounds_disjoint-or (suc n) m a (suc k) (suc d) h e l =
    let p : 2 ^ suc k ≡ 2 ^ k * 2 = omega (arith, two-pow-succ k) in
    let e' : m ≡ a * 2 ^ k * 2 = e ∙ ap (λ t. a * t) p ∙ omega arith in
    let even : m % 2 ≡ 0 = omega (arith, e') in
    let half : m / 2 ≡ a * 2 ^ k = omega (arith, e') in
    let rest = rounds_disjoint-or n (m / 2) a k (suc d / 2) (omega arith) half (omega (arith, p)) in
    rw (rest) (omega (arith, even))

pub disjoint-bit_or : (a k d : ℕ) → d < 2 ^ k → bit_or d (a * 2 ^ k) ≡ a * 2 ^ k + d
disjoint-bit_or a k d h =
    bit_or-bitwise d (a * 2 ^ k) ∙ rounds_disjoint-or d (a * 2 ^ k) a k d (omega arith) refl h
