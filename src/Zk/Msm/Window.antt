-- ===== src/Zk/Msm/Window.antt =====
-- The digits of a scalar that `extract_window` reads.
use Prim.Native.Nat.{bit_and, bit_or}
use native.Mathlib.Nat.{
  div-div-eq-div-mul, add-mul-div_left, add-mul-mod_self_left, mod-eq_of_lt, mod-lt, mod-add-div,
  pow-le-pow_right, div-eq_of_lt, div-lt_iff_lt-mul, mod-mod, mul-le-mul_left,
}
use the_ai_cowboys_6_shooter.Prelude.{
  ℕ, zero, suc, ◌+◌, ◌-◌, ◌*◌, ◌/◌, ◌%◌, ◌^◌, ◌≤◌, ◌<◌, ◌≡◌, refl, sym, ap, ◌∙◌, arith, ltb, leb,
  ◌&&◌, if◌then◌else◌, false, Bool-cases, inl, inr,
}
use the_ai_cowboys_6_shooter.Prelude.Bits.{bit_and-low, pow-pos}
use the_ai_cowboys_6_shooter.Prelude.Or.{disjoint-bit_or}
use the_ai_cowboys_6_shooter.Prelude.Powers.{pow-add}
use the_ai_cowboys_6_shooter.Prelude.Words.{sub_u64}
use the_ai_cowboys_6_shooter.Zk.Montgomery.{MontgomeryU256}
use the_ai_cowboys_6_shooter.Zk.Montgomery.Limbs.{value, IsWords}
use the_ai_cowboys_6_shooter.Zk.Msm.{limb, shl_one, extract_window}

-- The product of two powers of two.
pow-split : (n a b : ℕ) → a + b ≡ n → 2 ^ n ≡ 2 ^ a * 2 ^ b
pow-split n a b e = ap (λ k. 2 ^ k) (sym e) ∙ pow-add 2 a b

-- A part `low` below `p * q`, with more above it, shifted by `p`.
shift_parts : (low rest p q : ℕ) → 0 < p → (low + p * q * rest) / p ≡ low / p + q * rest
shift_parts low rest p q h =
    ap (λ t. (low + t) / p) (assoc p q rest) ∙ add-mul-div_left low (q * rest) h
  where
    assoc : (p q r : ℕ) → p * q * r ≡ p * (q * r)
    assoc p q r = omega arith

-- The window lies inside the low part.
inside_low :
    (low rest b w : ℕ) → b + w ≤ 64 → (low + 2 ^ 64 * rest) / 2 ^ b % 2 ^ w ≡ low / 2 ^ b % 2 ^ w
inside_low low rest b w h =
    let q = 2 ^ (64 - b - w) in
    let split : 2 ^ 64 ≡ 2 ^ b * (2 ^ w * q) =
      pow-split 64 b (64 - b) (omega arith)
      ∙ ap (λ t. 2 ^ b * t) (pow-split (64 - b) w (64 - b - w) (omega arith)) in
    let shifted =
      ap (λ t. (low + t * rest) / 2 ^ b) split
      ∙ shift_parts low rest (2 ^ b) (2 ^ w * q) (pow-pos b) in
    ap (λ t. t % 2 ^ w) (shifted ∙ ap (λ t. low / 2 ^ b + t) (assoc (2 ^ w) q rest))
    ∙ add-mul-mod_self_left (low / 2 ^ b) (2 ^ w) (q * rest)
  where
    assoc : (p q r : ℕ) → p * q * r ≡ p * (q * r)
    assoc p q r = omega arith

-- A remainder by a product, of a small part and a multiple of the first factor.
mod-parts : (x q m rest : ℕ) → x < q → 0 < m → (x + q * rest) % (q * m) ≡ rest % m * q + x
mod-parts x q m rest h pos =
    let r = rest % m in
    let regroup : x + q * rest ≡ r * q + x + q * m * (rest / m) =
      ap (λ t. x + q * t) (sym (mod-add-div rest m)) ∙ spread x q r m (rest / m) in
    let less : r + 1 ≤ m = omega (arith, mod-lt rest pos) in
    let room : q * (r + 1) ≤ q * m = mul-le-mul_left q less in
    ap (λ t. t % (q * m)) regroup
    ∙ add-mul-mod_self_left (r * q + x) (q * m) (rest / m)
    ∙ mod-eq_of_lt (omega (arith, room, h))
  where
    spread : (x q r m d : ℕ) → x + q * (r + m * d) ≡ r * q + x + q * m * d
    spread x q r m d = omega arith

-- The window takes the rest of the low part and the first digits above it.
across :
    (low rest b w o : ℕ)
    → low < 2 ^ 64
    → b < 64
    → b + w ≡ 64 + o
    → (low + 2 ^ 64 * rest) / 2 ^ b % 2 ^ w ≡ rest % 2 ^ o * 2 ^ (64 - b) + low / 2 ^ b
across low rest b w o small hb e =
    let q = 2 ^ (64 - b) in
    let split : 2 ^ 64 ≡ 2 ^ b * q = pow-split 64 b (64 - b) (omega arith) in
    let width : 2 ^ w ≡ q * 2 ^ o = pow-split w (64 - b) o (omega arith) in
    let shifted =
      ap (λ t. (low + t * rest) / 2 ^ b) split ∙ shift_parts low rest (2 ^ b) q (pow-pos b) in
    let less : low / 2 ^ b < q =
      (div-lt_iff_lt-mul {k = 2 ^ b} {x = low} {y = q} (pow-pos b)).1
        (omega (arith, small, split)) in
    rw (shifted, width) (mod-parts (low / 2 ^ b) q (2 ^ o) rest less (pow-pos o))

-- What lies above the limbs below `j`.
above :
    (s : MontgomeryU256)
    → IsWords s
    → (j : ℕ) → j < 4
    → (rest : ℕ) × (value s / 2 ^ (j * 64) ≡ limb s j + 2 ^ 64 * rest)
      × (limb s j < 2 ^ 64)
      × (j + 1 < 4 → rest % 2 ^ 64 ≡ limb s (j + 1))
      × (3 ≤ j → rest ≡ 0)
unfolding value
above s h zero l = (
  s.l1 + 2 ^ 64 * s.l2 + 2 ^ 128 * s.l3,
  omega arith,
  h.w0,
  λ _. omega (arith, h.w1),
  λ p. absurd (omega arith),
)
above s h (suc zero) l = (
  s.l2 + 2 ^ 64 * s.l3,
  omega (arith, h.w0),
  h.w1,
  λ _. omega (arith, h.w2),
  λ p. absurd (omega arith),
)
above s h (suc (suc zero)) l =
    (s.l3, omega (arith, h.w0, h.w1), h.w2, λ _. omega (arith, h.w3), λ p. absurd (omega arith))
above s h (suc (suc (suc zero))) l =
    (0, omega (arith, h.w0, h.w1, h.w2), h.w3, λ p. absurd (omega arith), λ p. refl)
above s h (suc (suc (suc (suc j)))) l = absurd (omega arith)

mod-narrow : (r o : ℕ) → o ≤ 64 → r % 2 ^ 64 % 2 ^ o ≡ r % 2 ^ o
mod-narrow r o h =
    let q = 2 ^ (64 - o) in
    let split : 2 ^ 64 ≡ 2 ^ o * q = pow-split 64 o (64 - o) (omega arith) in
    let regroup : r % 2 ^ 64 + 2 ^ o * (q * (r / 2 ^ 64)) ≡ r =
      ap (λ t. r % 2 ^ 64 + t)
        (assoc (2 ^ o) q (r / 2 ^ 64) ∙ ap (λ t. t * (r / 2 ^ 64)) (sym split))
      ∙ mod-add-div r (2 ^ 64) in
    sym (add-mul-mod_self_left (r % 2 ^ 64) (2 ^ o) (q * (r / 2 ^ 64)))
    ∙ ap (λ t. t % 2 ^ o) regroup
  where
    assoc : (p q r : ℕ) → p * (q * r) ≡ p * q * r
    assoc p q r = omega arith

power_small : (w : ℕ) → w < 64 → 2 ^ w ≤ 2 ^ 63
power_small w h = pow-le-pow_right {n = 2} (omega arith) {i = w} {j = 63} (omega arith)

pub mask-ones : (w : ℕ) → w < 64 → sub_u64 (shl_one w) 1 ≡ 2 ^ w - 1
mask-ones w h =
    let count : w % 64 ≡ w = omega arith in rw (count) (omega (arith, power_small w h, pow-pos w))

-- The bits that `extract_window` puts together from two limbs.
joined :
    (val next b w o : ℕ)
    → 0 < b
    → b < 64
    → w < 64
    → b + w ≡ 64 + o
    → val < 2 ^ (64 - b)
    → bit_or val (bit_and next (sub_u64 (shl_one o) 1) * 2 ^ ((64 - b) % 64) % 2 ^ 64)
      ≡ next % 2 ^ o * 2 ^ (64 - b) + val
joined val next b w o pos hb hw e small =
    let count : (64 - b) % 64 ≡ 64 - b = omega arith in
    let high : bit_and next (sub_u64 (shl_one o) 1) ≡ next % 2 ^ o =
      rw (mask-ones o (omega arith)) (bit_and-low next o) in
    let width : 2 ^ w ≡ 2 ^ (64 - b) * 2 ^ o = pow-split w (64 - b) o (omega arith) in
    let room : 2 ^ (64 - b) * (next % 2 ^ o) ≤ 2 ^ (64 - b) * 2 ^ o =
      mul-le-mul_left (2 ^ (64 - b)) (omega (arith, mod-lt next (pow-pos o))) in
    let whole : next % 2 ^ o * 2 ^ (64 - b) % 2 ^ 64 ≡ next % 2 ^ o * 2 ^ (64 - b) =
      mod-eq_of_lt (omega (arith, room, width, power_small w hw)) in
    rw (count, high, whole) (disjoint-bit_or (next % 2 ^ o) (64 - b) val small)

pub value_small : (s : MontgomeryU256) → IsWords s → value s < 2 ^ 256
unfolding value
value_small s h = omega (arith, h.w0, h.w1, h.w2, h.w3)

-- For windows of 1 to 63 bits, `extract_window` gives the digit of the scalar's number at the window,
-- in the base that the window's width gives, whether it lies in one limb or in two or beyond the last.
pub extract_window_lem :
    (s : MontgomeryU256) (k w : ℕ)
    → IsWords s
    → 0 < w
    → w < 64
    → extract_window s k w ≡ value s / 2 ^ (k * w) % 2 ^ w
unfolding extract_window
extract_window_lem s k w h pos hw =
    let j = k * w / 64 in
    let b = k * w % 64 in
    let hb : b < 64 = omega arith in
    let parts : 2 ^ (k * w) ≡ 2 ^ (j * 64) * 2 ^ b = pow-split (k * w) (j * 64) b (omega arith) in
    let cut : value s / 2 ^ (k * w) ≡ value s / 2 ^ (j * 64) / 2 ^ b =
      ap (λ t. value s / t) parts ∙ sym (div-div-eq-div-mul (value s) (2 ^ (j * 64)) (2 ^ b)) in
    elim (Bool-cases (leb 4 j)) [
      | inl beyond ↦
          rw (beyond, if◌then◌else◌)
            (sym (
              ap (λ t. t % 2 ^ w) (beyond_zero j b (ground (arith, beyond)) cut)
              ∙ mod-eq_of_lt (pow-pos w)))
      | inr within ↦
          let (rest, eq, small, next, top) = above s h j (ground (arith, within)) in
          let number : value s / 2 ^ (k * w) ≡ (limb s j + 2 ^ 64 * rest) / 2 ^ b =
            cut ∙ ap (λ t. t / 2 ^ b) eq in
          elim (Bool-cases (ltb 64 (b + w) && ltb (j + 1) 4)) [
            | inl two ↦
                rw (within, two, if◌then◌else◌)
                  (in_two j b rest hb small (ground (arith, two)) (next (ground (arith, two)))
                    ∙ ap (λ t. t % 2 ^ w) (sym number))
            | inr one ↦
                rw (within, one, if◌then◌else◌, mask-ones w hw, bit_and-low (limb s j / 2 ^ b) w)
                  (sym (ap (λ t. t % 2 ^ w) number ∙ in_one j b rest one top))
          ]
    ]
  where
    beyond_zero :
        (j b : ℕ)
        → 4 ≤ j
        → value s / 2 ^ (k * w) ≡ value s / 2 ^ (j * 64) / 2 ^ b
        → value s / 2 ^ (k * w) ≡ 0
    beyond_zero j b l cut =
        let big : 2 ^ 256 ≤ 2 ^ (j * 64) =
          pow-le-pow_right {n = 2} (omega arith) {i = 256} {j = j * 64} (omega (arith, l)) in
        let none_left : value s / 2 ^ (j * 64) ≡ 0 =
          div-eq_of_lt (omega (arith, big, value_small s h)) in
        cut ∙ ap (λ t. t / 2 ^ b) none_left ∙ div-eq_of_lt (pow-pos b)

    in_two :
        (j b rest : ℕ)
        → b < 64
        → limb s j < 2 ^ 64
        → 64 < b + w
        → rest % 2 ^ 64 ≡ limb s (j + 1)
        → bit_and
            (bit_or (limb s j / 2 ^ b) (
              bit_and (limb s (j + 1)) (sub_u64 (shl_one (b + w - 64)) 1)
              * 2 ^ ((64 - b) % 64)
              % 2 ^ 64))
            (sub_u64 (shl_one w) 1)
          ≡ (limb s j + 2 ^ 64 * rest) / 2 ^ b % 2 ^ w
    in_two j b rest hb small long next =
        let o = b + w - 64 in
        let wide : b + w ≡ 64 + o = omega (arith, long) in
        let split : 2 ^ 64 ≡ 2 ^ (64 - b) * 2 ^ b = pow-split 64 (64 - b) b (omega arith) in
        let less : limb s j / 2 ^ b < 2 ^ (64 - b) =
          (div-lt_iff_lt-mul {k = 2 ^ b} {x = limb s j} {y = 2 ^ (64 - b)} (pow-pos b)).1
            (omega (arith, small, split)) in
        let both =
          joined (limb s j / 2 ^ b) (limb s (j + 1)) b w o (omega (arith, wide)) hb hw wide less in
        let same : rest % 2 ^ o ≡ limb s (j + 1) % 2 ^ o =
          sym (mod-narrow rest o (omega arith)) ∙ ap (λ t. t % 2 ^ o) next in
        let all : (limb s j + 2 ^ 64 * rest) / 2 ^ b % 2 ^ w
            ≡ limb s (j + 1) % 2 ^ o * 2 ^ (64 - b) + limb s j / 2 ^ b =
          across (limb s j) rest b w o small hb wide
          ∙ ap (λ t. t * 2 ^ (64 - b) + limb s j / 2 ^ b) same in
        rw (both, mask-ones w hw)
          (bit_and-low (limb s (j + 1) % 2 ^ o * 2 ^ (64 - b) + limb s j / 2 ^ b) w
            ∙ ap (λ t. t % 2 ^ w) (sym all)
            ∙ mod-mod ((limb s j + 2 ^ 64 * rest) / 2 ^ b) (2 ^ w))

    in_one :
        (j b rest : ℕ)
        → (ltb 64 (b + w) && ltb (j + 1) 4) ≡ false
        → (3 ≤ j → rest ≡ 0)
        → (limb s j + 2 ^ 64 * rest) / 2 ^ b % 2 ^ w ≡ limb s j / 2 ^ b % 2 ^ w
    in_one j b rest one top = elim (Bool-cases (ltb 64 (b + w))) [
      | inl wide ↦
          let last : rest ≡ 0 = top (ground (arith, one, wide)) in
          let alone : limb s j + 2 ^ 64 * rest ≡ limb s j = omega (arith, last) in
          ap (λ t. t / 2 ^ b % 2 ^ w) alone
      | inr narrow ↦ inside_low (limb s j) rest b w (ground (arith, narrow))
    ]
