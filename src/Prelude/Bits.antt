-- ===== src/Prelude/Bits.antt =====
-- `&` with a mask of low or of high bits, as arithmetic. The native operation has no law at
-- variables but its definition by binary digits, so each mask is followed through the digits.
use Prim.Native.Nat.{ℕ, zero, suc, ◌+◌, ◌-◌, ◌*◌, ◌/◌, ◌%◌, ◌^◌, ◌≤◌, ◌<◌, min, bit_and}
use Prim.Native.Nat.{digits, bit_and-bitwise}
use mathlib.Core.Path.{◌≡◌, ◌∙◌}
use native.Mathlib.Nat.{two-pow-succ, one-le-pow, mod-lt, mod-eq_of_lt, add-mul-mod_self_right}
use native.Mathlib.Nat.{mod-add-div'}
use native.Mathlib.Omega.{arith}

-- The digits of `a & b`, with as many rounds as `n`.
abbrev and_rounds : ℕ → ℕ → ℕ → ℕ
and_rounds n a b = digits (λ _. zero) min n a b

-- A remainder by twice `p` keeps the lowest digit and takes the rest modulo `p`.
pub mod-double : (a p : ℕ) → 0 < p → a % (2 * p) ≡ a / 2 % p * 2 + a % 2
mod-double a p h =
    let m = a / 2 % p in
    let split : a ≡ m * 2 + a % 2 + a / 2 / p * (2 * p) = omega (arith, mod-add-div' (a / 2) p) in
    let small : m < p = mod-lt (a / 2) h in
    ap_mod split
    ∙ add-mul-mod_self_right (m * 2 + a % 2) (a / 2 / p) (2 * p)
    ∙ mod-eq_of_lt (omega arith)
  where
    ap_mod : {b : ℕ} → a ≡ b → a % (2 * p) ≡ b % (2 * p)
    ap_mod e = rw (← e)

pub pow-pos : (k : ℕ) → 0 < 2 ^ k
pow-pos k = one-le-pow k 2 (omega arith)

pub mod-pow_suc : (a k : ℕ) → a % 2 ^ suc k ≡ a / 2 % 2 ^ k * 2 + a % 2
mod-pow_suc a k = rw (pow-suc', mod-double a (2 ^ k) (pow-pos k))
  where
    pow-suc' : 2 ^ suc k ≡ 2 * 2 ^ k
    pow-suc' = omega (arith, two-pow-succ k)

-- Rounds against the mask `2 ^ k - 1` leave the remainder by `2 ^ k`.
and_rounds-low : (n a k : ℕ) → a ≤ n → and_rounds n a (2 ^ k - 1) ≡ a % 2 ^ k
and_rounds-low zero zero k h = omega arith
and_rounds-low zero (suc a) k h = absurd (omega arith)
and_rounds-low (suc n) zero k h = omega arith
and_rounds-low (suc n) (suc a) zero h =
    omega (arith, and_rounds-low n (suc a / 2) zero (omega arith))
and_rounds-low (suc n) (suc a) (suc k) h =
    let half : (2 ^ suc k - 1) / 2 ≡ 2 ^ k - 1 = omega (arith, two-pow-succ k, pow-pos k) in
    let rest = and_rounds-low n (suc a / 2) k (omega arith) in
    rw (half, rest, mod-pow_suc) (omega (arith, two-pow-succ k, pow-pos k))

-- `a & (2 ^ k - 1)` is the remainder by `2 ^ k`.
pub bit_and-low : (a k : ℕ) → bit_and a (2 ^ k - 1) ≡ a % 2 ^ k
bit_and-low a k = bit_and-bitwise a (2 ^ k - 1) ∙ and_rounds-low a a k (omega arith)

-- Rounds against the mask of the digits from `k` up to `w` clear the lowest `k` digits.
and_rounds-high :
    (n a k w : ℕ) → a ≤ n → k ≤ w → a < 2 ^ w → and_rounds n a (2 ^ w - 2 ^ k) ≡ a - a % 2 ^ k
and_rounds-high zero zero k w h kw aw = omega arith
and_rounds-high zero (suc a) k w h kw aw = absurd (omega arith)
and_rounds-high (suc n) zero k w h kw aw = omega arith
and_rounds-high (suc n) (suc a) k zero h kw aw = absurd (omega arith)
and_rounds-high (suc n) (suc a) zero (suc w) h kw aw =
    let half : (2 ^ suc w - 1) / 2 ≡ 2 ^ w - 1 = omega (arith, two-pow-succ w, pow-pos w) in
    let rest =
      and_rounds-high n (suc a / 2) zero w (omega arith) (omega arith)
        (omega (arith, two-pow-succ w)) in
    rw (half, rest) (omega (arith, two-pow-succ w, pow-pos w))
and_rounds-high (suc n) (suc a) (suc k) (suc w) h kw aw =
    let half : (2 ^ suc w - 2 ^ suc k) / 2 ≡ 2 ^ w - 2 ^ k =
      omega (arith, two-pow-succ w, two-pow-succ k) in
    let rest =
      and_rounds-high n (suc a / 2) k w (omega arith) (omega arith)
        (omega (arith, two-pow-succ w)) in
    rw (half, rest, mod-pow_suc) (omega (arith, two-pow-succ w, two-pow-succ k))

-- `a & !(2 ^ k - 1)` in a word of `w` bits rounds `a` down to a multiple of `2 ^ k`.
pub bit_and-high : (a k w : ℕ) → k ≤ w → a < 2 ^ w → bit_and a (2 ^ w - 2 ^ k) ≡ a - a % 2 ^ k
bit_and-high a k w h l =
    bit_and-bitwise a (2 ^ w - 2 ^ k) ∙ and_rounds-high a a k w (omega arith) h l
