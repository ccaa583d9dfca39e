-- ===== src/Mev/SimdSolver/Narrowing.antt =====
-- One round of the ternary search: the range that it leaves, and the arithmetic that picks it.

use the_ai_cowboys_6_shooter.Prelude.{
  ℕ, suc, ◌+◌, ◌-◌, ◌*◌, ◌/◌, ◌^◌, ◌≤◌, ◌<◌, ◌≡◌, inl, inr, refl, ap, ap₂, arith, ltb,
  if◌then◌else◌, Bool-cases,
}
use the_ai_cowboys_6_shooter.Mev.SimdSolver.{Range, narrow, track}

-- The profit of an input, 0 where it makes none.
abbrev pub profit : (ℕ → ℕ) → ℕ → ℕ
profit value x = value x - x

-- The range of the search within `top`.
pub record InBounds (top : ℕ) (r : Range) : Type 0 where
  pub low : 1 ≤ r.lo
  pub ordered : r.lo ≤ r.hi
  pub high : r.hi ≤ top

-- The best input so far makes the best profit so far.
pub record HasBest (top : ℕ) (value : ℕ → ℕ) (r : Range) : Type 0 where
  pub below : r.best_input ≤ top
  pub best : r.best_profit ≤ profit value r.best_input

-- What a round makes of a range: one within it, at most two thirds as wide and one more, with a best
-- profit that has not become less.
pub record Narrowed (top : ℕ) (value : ℕ → ℕ) (r s : Range) : Type 0 where
  pub bounds : InBounds top s
  pub has : HasBest top value s
  pub narrower : 3 * (s.hi - s.lo) ≤ 2 * (r.hi - r.lo) + 2
  pub better : r.best_profit ≤ s.best_profit

-- What `track` makes of a range.
pub record Tracked (top : ℕ) (value : ℕ → ℕ) (r s : Range) : Type 0 where
  pub same_lo : s.lo ≡ r.lo
  pub same_hi : s.hi ≡ r.hi
  pub has : HasBest top value s
  pub better : r.best_profit ≤ s.best_profit

pub track-Tracked :
    (top : ℕ) (value : ℕ → ℕ) (r : Range) (m : ℕ)
    → HasBest top value r
    → m ≤ top
    → Tracked top value r (track r (profit value m) m)
track-Tracked top value r m k h = elim (Bool-cases (ltb r.best_profit (profit value m))) [
  | inl e ↦
      rw (e, if◌then◌else◌)
        (record {
          same_lo = refl;
          same_hi = refl;
          has = record { below = h; best = omega arith };
          better = ground (arith, e);
        })
  | inr e ↦
      rw (e, if◌then◌else◌)
        (record { same_lo = refl; same_hi = refl; has = k; better = omega arith })
]

-- The arithmetic of `narrow` picks the one range or the other.
pub narrow_lem :
    (r : Range) (m1 m2 : ℕ)
    → m1 < 2 ^ 128
    → m2 < 2 ^ 128
    → r.lo < 2 ^ 128
    → r.hi < 2 ^ 128
    → (narrow r 1 m1 m2 ≡ record r { lo = m1 }) × (narrow r 0 m1 m2 ≡ record r { hi = m2 })
unfolding narrow
narrow_lem r m1 m2 h k l j = (
  ap₂ (λ (a b : ℕ). record r { lo = a; hi = b }) (omega arith) (omega arith),
  ap₂ (λ (a b : ℕ). record r { lo = a; hi = b }) (omega arith) (omega arith),
)

-- The range from its first third on.
pub upper-Narrowed :
    (top : ℕ) (value : ℕ → ℕ) (r s : Range)
    → InBounds top r
    → 3 ≤ r.hi - r.lo
    → Tracked top value r s
    → Narrowed top value r (record s { lo = r.lo + (r.hi - r.lo) / 3 })
upper-Narrowed top value r s b wide t = record {
  bounds = record {
    low = omega (arith, b.low);
    ordered = omega (arith, b.ordered, t.same_hi, wide);
    high = omega (arith, b.high, t.same_hi);
  };
  has = record { below = t.has.below; best = t.has.best };
  narrower = omega (arith, t.same_hi, wide);
  better = t.better;
}

-- The range up to its second third.
pub lower-Narrowed :
    (top : ℕ) (value : ℕ → ℕ) (r s : Range)
    → InBounds top r
    → 3 ≤ r.hi - r.lo
    → Tracked top value r s
    → Narrowed top value r (record s { hi = r.hi - (r.hi - r.lo) / 3 })
lower-Narrowed top value r s b wide t = record {
  bounds = record {
    low = omega (arith, b.low, t.same_lo);
    ordered = omega (arith, b.ordered, t.same_lo, wide);
    high = omega (arith, b.high);
  };
  has = record { below = t.has.below; best = t.has.best };
  narrower = omega (arith, t.same_lo, wide);
  better = t.better;
}

pub grown :
    (k u v w : ℕ)
    → 3 ^ k * u ≤ 2 ^ k * v
    → 2 ^ k * (3 * v) ≤ 2 ^ k * (2 * w)
    → 3 ^ suc k * u ≤ 2 ^ suc k * w
grown k u v w h l =
    let three : 3 ^ suc k ≡ 3 ^ k * 3 = omega arith in
    let two : 2 ^ suc k ≡ 2 ^ k * 2 = omega arith in
    let left : 3 ^ suc k * u ≡ 3 ^ k * 3 * u = ap (λ (t : ℕ). t * u) three in
    let right : 2 ^ suc k * w ≡ 2 ^ k * 2 * w = ap (λ (t : ℕ). t * w) two in
    omega (arith, left, right, h, l)
