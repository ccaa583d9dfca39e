-- ===== src/Prelude/Xor.antt =====
-- `^` on words, and the selection of a word by a mask of ones or of zeros.
use Prim.Native.Nat.{
  ℕ, zero, suc, ◌+◌, ◌-◌, ◌*◌, ◌/◌, ◌%◌, ◌^◌, ◌≤◌, ◌<◌, min, differ, bit_and, bit_xor, digits,
  bit_and-bitwise, bit_xor-bitwise,
}
use mathlib.Core.Path.{◌≡◌, refl, ◌∙◌}
use native.Mathlib.Nat.{two-pow-succ, mod-eq_of_lt}
use native.Mathlib.Omega.{arith}
use the_ai_cowboys_6_shooter.Prelude.Bits.{pow-pos, mod-pow_suc}

abbrev xor_rounds : ℕ → ℕ → ℕ → ℕ
xor_rounds n a b = digits (λ b. b) differ n a b

differ-cancel : (x y : ℕ) → x < 2 → y < 2 → differ x (differ x y) ≡ y
differ-cancel zero zero h l = refl
differ-cancel zero (suc zero) h l = refl
differ-cancel zero (suc (suc y)) h l = absurd (omega arith)
differ-cancel (suc zero) zero h l = refl
differ-cancel (suc zero) (suc zero) h l = refl
differ-cancel (suc zero) (suc (suc y)) h l = absurd (omega arith)
differ-cancel (suc (suc x)) y h l = absurd (omega arith)

differ-lt : (x y : ℕ) → x < 2 → y < 2 → differ x y < 2
differ-lt zero y h l = l
differ-lt (suc x) zero h l = h
differ-lt (suc zero) (suc y) h l = omega arith
differ-lt (suc (suc x)) (suc y) h l = absurd (omega arith)

xor_rounds-cancel : (n a b : ℕ) → a ≤ n → xor_rounds n a (xor_rounds n a b) ≡ b
xor_rounds-cancel zero a b h = refl
xor_rounds-cancel (suc n) zero b h = refl
xor_rounds-cancel (suc n) (suc a) b h =
    let d = differ (suc a % 2) (b % 2) in
    let q = xor_rounds n (suc a / 2) (b / 2) in
    let small : d < 2 = differ-lt (suc a % 2) (b % 2) (omega arith) (omega arith) in
    let half : (q * 2 + d) / 2 ≡ q = omega (arith, small) in
    let digit : (q * 2 + d) % 2 ≡ d = omega (arith, small) in
    let rest = xor_rounds-cancel n (suc a / 2) (b / 2) (omega arith) in
    let last = differ-cancel (suc a % 2) (b % 2) (omega arith) (omega arith) in
    rw (half, digit, rest, last) (omega arith)

xor_rounds-lt : (n a b k : ℕ) → a ≤ n → a < 2 ^ k → b < 2 ^ k → xor_rounds n a b < 2 ^ k
xor_rounds-lt zero a b k h u v = v
xor_rounds-lt (suc n) zero b k h u v = v
xor_rounds-lt (suc n) (suc a) b zero h u v = absurd (omega arith)
xor_rounds-lt (suc n) (suc a) b (suc k) h u v =
    let rest =
      xor_rounds-lt n (suc a / 2) (b / 2) k (omega arith) (omega (arith, two-pow-succ k))
        (omega (arith, two-pow-succ k)) in
    let small = differ-lt (suc a % 2) (b % 2) (omega arith) (omega arith) in
    omega (arith, rest, small, two-pow-succ k)

-- Rounds of `&` that follow a mask of `k` ones leave the remainder by `2 ^ k`.
and_ones : (n m b k : ℕ) → m ≤ n → m ≡ 2 ^ k - 1 → digits (λ _. zero) min n m b ≡ b % 2 ^ k
and_ones zero zero b zero h e = omega arith
and_ones zero zero b (suc k) h e = absurd (omega (arith, two-pow-succ k, pow-pos k))
and_ones zero (suc m) b k h e = absurd (omega arith)
and_ones (suc n) zero b zero h e = omega arith
and_ones (suc n) zero b (suc k) h e = absurd (omega (arith, two-pow-succ k, pow-pos k))
and_ones (suc n) (suc m) b zero h e = absurd (omega arith)
and_ones (suc n) (suc m) b (suc k) h e =
    let half : suc m / 2 ≡ 2 ^ k - 1 = omega (arith, two-pow-succ k, pow-pos k) in
    let rest = and_ones n (suc m / 2) (b / 2) k (omega arith) half in
    rw (rest, mod-pow_suc) (omega (arith, two-pow-succ k, pow-pos k))

-- A word of ones as the mask selects `b`.
pub select-ones :
    (a b : ℕ) → a < 2 ^ 64 → b < 2 ^ 64 → bit_xor a (bit_and (2 ^ 64 - 1) (bit_xor a b)) ≡ b
select-ones a b u v =
    let x : bit_xor a b ≡ xor_rounds a a b = bit_xor-bitwise a b in
    let small = xor_rounds-lt a a b 64 (omega arith) u v in
    let masked : bit_and (2 ^ 64 - 1) (xor_rounds a a b) ≡ xor_rounds a a b =
      bit_and-bitwise (2 ^ 64 - 1) (xor_rounds a a b)
      ∙ and_ones (2 ^ 64 - 1) (2 ^ 64 - 1) (xor_rounds a a b) 64 (omega arith) (omega arith)
      ∙ mod-eq_of_lt small in
    rw (x, masked) (bit_xor-bitwise a (xor_rounds a a b) ∙ xor_rounds-cancel a a b (omega arith))

xor_rounds-zero : (n a : ℕ) → a ≤ n → xor_rounds n a 0 ≡ a
xor_rounds-zero zero zero h = refl
xor_rounds-zero zero (suc a) h = absurd (omega arith)
xor_rounds-zero (suc n) zero h = refl
xor_rounds-zero (suc n) (suc a) h =
    let rest = xor_rounds-zero n (suc a / 2) (omega arith) in
    rw (rest, differ-zero (suc a % 2)) (omega arith)
  where
    differ-zero : (x : ℕ) → differ x 0 ≡ x
    differ-zero zero = refl
    differ-zero (suc x) = refl

-- A word of zeros as the mask selects `a`.
pub select-zeros : (a b : ℕ) → bit_xor a (bit_and 0 (bit_xor a b)) ≡ a
select-zeros a b =
    rw (bit_and-bitwise 0 (bit_xor a b)) (bit_xor-bitwise a 0 ∙ xor_rounds-zero a a (omega arith))
