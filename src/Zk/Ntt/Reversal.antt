-- ===== src/Zk/Ntt/Reversal.antt =====
-- `bit_reverse` against the digits of its argument.
use Prim.Native.Nat.{bit_and, bit_or, digits, bit_or-bitwise}
use native.Mathlib.Nat.{
  two-pow-succ, mul-le-mul_left, mul-le-mul_right, pow-le-pow_right, div-div-eq-div-mul,
  div-eq_of_lt, add-mul-div_right,
}
use the_ai_cowboys_6_shooter.Prelude.{
  ℕ, zero, suc, ◌+◌, ◌*◌, ◌/◌, ◌%◌, ◌^◌, ◌≤◌, ◌<◌, ◌≡◌, refl, sym, ap, ap₂, ◌∙◌, arith, max,
}
use the_ai_cowboys_6_shooter.Prelude.Bits.{bit_and-low, pow-pos}
use the_ai_cowboys_6_shooter.Zk.Ntt.{reverse_loop, bit_reverse}

-- The lowest `k` digits of a number in the opposite order.
pub reversed : ℕ → ℕ → ℕ
reversed zero x = 0
reversed (suc k) x = x % 2 * 2 ^ k + reversed k (x / 2)

two-pow-double : (k : ℕ) → 2 ^ suc k ≡ 2 * 2 ^ k
two-pow-double k = omega (arith, two-pow-succ k)

or_rounds-zero : (n a : ℕ) → a ≤ n → digits (λ b. b) max n a 0 ≡ a
or_rounds-zero zero zero h = refl
or_rounds-zero zero (suc a) h = absurd (omega arith)
or_rounds-zero (suc n) zero h = refl
or_rounds-zero (suc n) (suc a) h =
    let rest = or_rounds-zero n (suc a / 2) (omega arith) in rw (rest) (omega arith)

or_rounds-digit : (n m d : ℕ) → m ≤ n → m % 2 ≡ 0 → d < 2 → digits (λ b. b) max n m d ≡ m + d
or_rounds-digit zero zero d h e l = omega arith
or_rounds-digit zero (suc m) d h e l = absurd (omega arith)
or_rounds-digit (suc n) zero d h e l = omega arith
or_rounds-digit (suc n) (suc m) d h e l =
    let half : d / 2 ≡ 0 = omega arith in
    rw (half, or_rounds-zero n (suc m / 2) (omega arith)) (omega arith)

bit_or-digit : (r d : ℕ) → d < 2 → bit_or (r * 2) d ≡ r * 2 + d
bit_or-digit r d h =
    bit_or-bitwise (r * 2) d ∙ or_rounds-digit (r * 2) (r * 2) d (omega arith) (omega arith) h

reverse_loop-reversed :
    (k x r : ℕ) → (r + 1) * 2 ^ k ≤ 2 ^ 32 → reverse_loop k x r ≡ r * 2 ^ k + reversed k x
unfolding reverse_loop reversed
reverse_loop-reversed zero x r h = omega arith
reverse_loop-reversed (suc k) x r h =
    let low : bit_and x 1 ≡ x % 2 = bit_and-low x 1 in
    let wide = ap (λ n. (r + 1) * n) (two-pow-double k) in
    let grown = mul-le-mul_right (2 ^ k) (digit_le r x) in
    let fits : (r * 2 + x % 2 + 1) * 2 ^ k ≤ 2 ^ 32 = omega (arith, grown, wide) in
    let one : (r + 1) * 1 ≤ (r + 1) * 2 ^ k = mul-le-mul_left (r + 1) (pow-pos k) in
    let whole : r * 2 % 2 ^ 32 ≡ r * 2 = omega (arith, one, wide) in
    rw (low, whole, bit_or-digit r (x % 2) (omega arith))
      (reverse_loop-reversed k (x / 2) (r * 2 + x % 2) fits
        ∙ shifted (2 ^ k) (2 ^ suc k) (two-pow-double k) (reversed k (x / 2)))
  where
    digit_le : (r x : ℕ) → r * 2 + x % 2 + 1 ≤ 2 * (r + 1)
    digit_le r x = omega arith

    shifted : (p q : ℕ) → q ≡ 2 * p → (v : ℕ) → (r * 2 + x % 2) * p + v ≡ r * q + (x % 2 * p + v)
    shifted p q e v = rw (e) (omega arith)

reversed-lt : (k x : ℕ) → reversed k x < 2 ^ k
unfolding reversed
reversed-lt zero x = omega arith
reversed-lt (suc k) x = grind (arith, reversed-lt k (x / 2), two-pow-succ k)

-- The digits above the lowest `k` do not matter.
reversed-above : (k a z : ℕ) → reversed k (a * 2 ^ k + z) ≡ reversed k z
unfolding reversed
reversed-above zero a z = refl
reversed-above (suc k) a z =
    let p = two-pow-succ k in
    let whole : a * 2 ^ suc k ≡ 2 * (a * 2 ^ k) = rw (p) (omega arith) in
    let digit : (a * 2 ^ suc k + z) % 2 ≡ z % 2 = omega (arith, whole) in
    let half : (a * 2 ^ suc k + z) / 2 ≡ a * 2 ^ k + z / 2 = omega (arith, whole) in
    rw (digit, half, reversed-above k a (z / 2))

-- Its last digit is the highest of the `k`.
reversed-last : (k x : ℕ) → reversed (suc k) x ≡ 2 * reversed k x + x / 2 ^ k % 2
unfolding reversed
reversed-last zero x = omega arith
reversed-last (suc k) x =
    let rest : x / 2 % 2 * 2 ^ k + reversed k (x / 2 / 2)
        ≡ 2 * reversed k (x / 2) + x / 2 / 2 ^ k % 2 =
      reversed-last k (x / 2) in
    let high : x / 2 ^ suc k ≡ x / 2 / 2 ^ k =
      ap (λ n. x / n) (two-pow-double k) ∙ sym (div-div-eq-div-mul x 2 (2 ^ k)) in
    let wide = ap (λ n. x % 2 * n) (two-pow-double k) in
    let whole : x % 2 * 2 ^ suc k + (x / 2 % 2 * 2 ^ k + reversed k (x / 2 / 2))
        ≡ 2 * (x % 2 * 2 ^ k + reversed k (x / 2)) + x / 2 / 2 ^ k % 2 =
      omega (arith, rest, wide) in
    whole ∙ ap (λ n. 2 * (x % 2 * 2 ^ k + reversed k (x / 2)) + n % 2) (sym high)

reversed-involutive : (k x : ℕ) → x < 2 ^ k → reversed k (reversed k x) ≡ x
unfolding reversed
reversed-involutive zero x h = omega arith
reversed-involutive (suc k) x h =
    let y = x % 2 * 2 ^ k + reversed k (x / 2) in
    let low = reversed-above k (x % 2) (reversed k (x / 2)) in
    let rest = reversed-involutive k (x / 2) (omega (arith, two-pow-succ k)) in
    let top : y / 2 ^ k ≡ x % 2 =
      split (x % 2) (reversed k (x / 2)) (2 ^ k) (reversed-lt k (x / 2)) in
    let last = reversed-last k y in last ∙ ap₂ (λ m n. 2 * m + n % 2) (low ∙ rest) top ∙ omega arith
  where
    split : (a v p : ℕ) → v < p → (a * p + v) / p ≡ a
    split a v p h =
        let swap : a * p + v ≡ v + a * p = omega arith in
        let none' : v / p ≡ 0 = div-eq_of_lt h in
        rw (swap, add-mul-div_right v a {z = p} (omega arith), none') (omega arith)

-- Within 32 bits `bit_reverse` gives the lowest digits in the opposite order, a number of as many
-- bits, and reversing twice gives the number back.
pub bit_reverse_lem :
    (x bits : ℕ)
    → bits ≤ 32
    → x < 2 ^ bits
    → (bit_reverse x bits ≡ reversed bits x)
      × (bit_reverse x bits < 2 ^ bits)
      × (bit_reverse (bit_reverse x bits) bits ≡ x)
unfolding bit_reverse
bit_reverse_lem x bits h l =
    let room : (0 + 1) * 2 ^ bits ≤ 2 ^ 32 =
      omega (arith, pow-le-pow_right {n = 2} (omega arith) h) in
    let once : reverse_loop bits x 0 ≡ reversed bits x =
      reverse_loop-reversed bits x 0 room ∙ omega arith in
    let twice : reverse_loop bits (reversed bits x) 0 ≡ reversed bits (reversed bits x) =
      reverse_loop-reversed bits (reversed bits x) 0 room ∙ omega arith in
    (
      once,
      omega (arith, once, reversed-lt bits x),
      ap (λ n. reverse_loop bits n 0) once ∙ twice ∙ reversed-involutive bits x l,
    )
