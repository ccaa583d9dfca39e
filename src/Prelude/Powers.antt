-- ===== src/Prelude/Powers.antt =====
-- Powers and remainders of products.
use Prim.Native.Nat.{ℕ, zero, suc, ◌+◌, ◌*◌, ◌/◌, ◌%◌, ◌^◌}
use native.Mathlib.Nat.{pow-succ', pow-zero, add-mul-mod_self_right, mod-mod, mod-add-div'}
use native.Mathlib.Omega.{arith}
use mathlib.Core.Path.{◌≡◌, sym, ap, ◌∙◌}

pub pow-square : (b n : ℕ) → (b * b) ^ n ≡ b ^ (2 * n)
pow-square b zero = pow-zero (b * b) ∙ sym (pow-zero b)
pow-square b (suc n) =
    let exponent : 2 * suc n ≡ suc (suc (2 * n)) = omega arith in
    rw
      (
        exponent,
        pow-succ' (b * b) n,
        pow-succ' b (suc (2 * n)),
        pow-succ' b (2 * n),
        pow-square b n,
      )
      (omega arith)

-- One binary digit of the exponent.
pub pow-digit : (r b n d : ℕ) → r * b ^ d * (b * b) ^ n ≡ r * b ^ (n * 2 + d)
pow-digit r b n zero =
    let exponent : n * 2 + 0 ≡ 2 * n = omega arith in
    rw (exponent, pow-zero b, pow-square b n) (omega arith)
pow-digit r b n (suc d) =
    let exponent : n * 2 + suc d ≡ suc (n * 2 + d) = omega arith in
    let rest = ap (λ k. b * k) (pow-digit r b n d) in
    rw (exponent, pow-succ' b d, pow-succ' b (n * 2 + d)) (omega (arith, rest))

pub pow-add : (b m n : ℕ) → b ^ (m + n) ≡ b ^ m * b ^ n
pow-add b zero n = let exponent : 0 + n ≡ n = omega arith in rw (exponent, pow-zero b) (omega arith)
pow-add b (suc m) n =
    let exponent : suc m + n ≡ suc (m + n) = omega arith in
    rw (exponent, pow-succ' b (m + n), pow-succ' b m, pow-add b m n) (omega arith)

pub pow-mul : (b k n : ℕ) → (b ^ k) ^ n ≡ b ^ (k * n)
pow-mul b k zero =
    let exponent : k * 0 ≡ 0 = omega arith in
    pow-zero (b ^ k) ∙ sym (pow-zero b) ∙ ap (λ e. b ^ e) (sym exponent)
pow-mul b k (suc n) =
    let exponent : k * suc n ≡ k + k * n = omega arith in
    rw (exponent, pow-succ' (b ^ k) n, pow-mul b k n) (sym (pow-add b k (k * n)))

-- The remainder of a product of remainders.
pub mod-mul : (m x y : ℕ) → (x % m) * (y % m) % m ≡ x * y % m
mod-mul m x y =
    by_parts (x % m) (y % m) (x / m) (y / m) (sym (mod-add-div' x m)) (sym (mod-add-div' y m))
  where
    expand : (r s i j : ℕ) → (r + i * m) * (s + j * m) ≡ r * s + (i * s + r * j + i * j * m) * m
    expand r s i j = omega arith

    by_parts : (r s i j : ℕ) → x ≡ r + i * m → y ≡ s + j * m → r * s % m ≡ x * y % m
    by_parts r s i j e f =
        rw (e, f)
          (sym (
            ap (λ n. n % m) (expand r s i j)
            ∙ add-mul-mod_self_right (r * s) (i * s + r * j + i * j * m) m))

pub mod-mul_left : (m x y : ℕ) → (x % m) * y % m ≡ x * y % m
mod-mul_left m x y =
    sym (mod-mul m (x % m) y) ∙ ap (λ k. k * (y % m) % m) (mod-mod x m) ∙ mod-mul m x y

pub mod-mul_right : (m x y : ℕ) → x * (y % m) % m ≡ x * y % m
mod-mul_right m x y =
    sym (mod-mul m x (y % m)) ∙ ap (λ k. (x % m) * k % m) (mod-mod y m) ∙ mod-mul m x y

-- The remainder of a power of a remainder, with a factor.
pub mod-pow : (m r x n : ℕ) → r * (x % m) ^ n % m ≡ r * x ^ n % m
mod-pow m r x zero = rw (pow-zero (x % m), pow-zero x)
mod-pow m r x (suc n) =
    rw (pow-succ' (x % m) n, pow-succ' x n)
      (ap (λ k. k % m) (swap r (x % m) ((x % m) ^ n))
        ∙ sym (mod-mul_right m (x % m) (r * (x % m) ^ n))
        ∙ ap (λ k. (x % m) * k % m) (mod-pow m r x n)
        ∙ mod-mul m x (r * x ^ n)
        ∙ ap (λ k. k % m) (sym (swap r x (x ^ n))))
  where
    swap : (r a b : ℕ) → r * (a * b) ≡ a * (r * b)
    swap r a b = omega arith
