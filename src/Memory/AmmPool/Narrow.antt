-- ===== src/Memory/AmmPool/Narrow.antt =====
-- The ternary search of `optimal_arb_input`: its end and its range.
use the_ai_cowboys_6_shooter.Prelude.{
  ℕ, zero, suc, ◌+◌, ◌-◌, ◌/◌, ◌^◌, ◌≤◌, ◌<◌, ◌≡◌, refl, arith, leb, ◌==◌, true, false,
  if◌then◌else◌, some, ◌>>=◌, inl, inr, Bool-cases, dec_lt, ◌∙◌,
}
use the_ai_cowboys_6_shooter.Prelude.Words.{add_u128, sub_u128, less_i128}
use the_ai_cowboys_6_shooter.Memory.AmmPool.{AmmPool, swap_x_to_y, swap_y_to_x, profit_at, narrow}
use the_ai_cowboys_6_shooter.Memory.AmmPool.Swap.{IsPool, swap-IsCeil}

module _ {pool1 pool2 : AmmPool} (v1 : IsPool pool1) (v2 : IsPool pool2) where
  -- The two swaps at an input, and the number that the closure returns.
  pub record Round (input : ℕ) : Type 0 where
    pub out_b : ℕ
    pub out_a : ℕ
    pub there : swap_x_to_y pool1 input ≡ some out_b
    pub back : swap_y_to_x pool2 out_b ≡ some out_a
    pub small : out_a < 2 ^ 64
    pub profit : profit_at pool1 pool2 input ≡ some (sub_u128 out_a input)

  pub round : (input : ℕ) → input < 2 ^ 64 → Round input
  unfolding profit_at
  round input h =
      let (out_b, there, le_b, _) = (swap-IsCeil {p = pool1} input v1 h).0 in
      let (out_a, back, le_a, _) =
        (swap-IsCeil {p = pool2} out_b v2 (omega (arith, v1.y_fits))).1 in
      record {
        out_b = out_b;
        out_a = out_a;
        there = there;
        back = back;
        small = omega (arith, v2.x_fits);
        profit = rw (there, back);
      }

  abbrev third_up : ℕ → ℕ → ℕ
  third_up lo hi = lo + (hi - lo) / 3

  abbrev third_down : ℕ → ℕ → ℕ
  third_down lo hi = hi - (hi - lo) / 3

  -- One round in the middle of the search, once both profits are known.
  narrow-suc :
      (rounds lo hi p1 p2 : ℕ)
      → lo < hi
      → hi < 2 ^ 64
      → profit_at pool1 pool2 (third_up lo hi) ≡ some p1
      → profit_at pool1 pool2 (third_down lo hi) ≡ some p2
      → narrow pool1 pool2 (suc rounds) lo hi ≡ (
          if less_i128 p1 p2
          then narrow pool1 pool2 rounds (third_up lo hi + 1) hi
          else narrow pool1 pool2 rounds lo (third_down lo hi - 1))
  unfolding narrow
  narrow-suc rounds lo hi p1 p2 below fits e1 e2 =
      let step : sub_u128 hi lo ≡ hi - lo = omega arith in
      let up : add_u128 lo ((hi - lo) / 3) ≡ third_up lo hi = omega arith in
      let down : sub_u128 hi ((hi - lo) / 3) ≡ third_down lo hi = omega arith in
      let up_one : add_u128 (third_up lo hi) 1 ≡ third_up lo hi + 1 = omega arith in
      let down_one : sub_u128 (third_down lo hi) 1 ≡ third_down lo hi - 1 = omega arith in
      let test : leb hi lo ≡ false = ground arith in
      let pos : (third_down lo hi == 0) ≡ false = ground arith in
      elim (Bool-cases (less_i128 p1 p2)) [
        | inl t ↦ rw (t, narrow, test, step, up, down, e1, e2, ◌>>=◌, t, step, up, up_one)
        | inr t ↦ rw (
          t, narrow, test, step, up, down, e1, e2, ◌>>=◌, t, step, down, pos, step, down, down_one,
        )
      ]

  pub record Narrowed (rounds lo hi : ℕ) : Type 0 where
    pub lo_end : ℕ
    pub hi_end : ℕ
    pub runs : narrow pool1 pool2 rounds lo hi ≡ some (lo_end, hi_end)
    pub lo_pos : 1 ≤ lo_end
    pub lo_fits : lo_end ≤ 2 ^ 64
    pub hi_below : hi_end ≤ hi

  pub narrow_total : (rounds lo hi : ℕ) → 1 ≤ lo → lo ≤ 2 ^ 64 → hi < 2 ^ 64 → Narrowed rounds lo hi
  unfolding narrow
  narrow_total zero lo hi a b c = record {
    lo_end = lo;
    hi_end = hi;
    runs = refl;
    lo_pos = a;
    lo_fits = b;
    hi_below = omega arith;
  }
  narrow_total (suc rounds) lo hi a b c = elim (dec_lt lo hi) [
    | no stop ↦ stopped (omega arith)
    | yes below ↦
        turn below (round (third_up lo hi) (omega arith)) (round (third_down lo hi) (omega arith))
          (narrow_total rounds (third_up lo hi + 1) hi (omega arith) (omega arith) c)
          (narrow_total rounds lo (third_down lo hi - 1) a b (omega arith))
  ]
    where
      stopped : hi ≤ lo → Narrowed (suc rounds) lo hi
      stopped le =
          let test : leb hi lo ≡ true = ground arith in
          record {
            lo_end = lo;
            hi_end = hi;
            runs = rw (narrow, test);
            lo_pos = a;
            lo_fits = b;
            hi_below = omega arith;
          }

      turn :
          lo < hi
          → Round (third_up lo hi)
          → Round (third_down lo hi)
          → Narrowed rounds (third_up lo hi + 1) hi
          → Narrowed rounds lo (third_down lo hi - 1)
          → Narrowed (suc rounds) lo hi
      turn below first second above under =
          let p1 = sub_u128 first.out_a (third_up lo hi) in
          let p2 = sub_u128 second.out_a (third_down lo hi) in
          let step = narrow-suc rounds lo hi p1 p2 below c first.profit second.profit in
          elim (Bool-cases (less_i128 p1 p2)) [
            | inl t ↦ record {
              lo_end = above.lo_end;
              hi_end = above.hi_end;
              runs = step ∙ rw t above.runs;
              lo_pos = above.lo_pos;
              lo_fits = above.lo_fits;
              hi_below = above.hi_below;
            }
            | inr t ↦ record {
              lo_end = under.lo_end;
              hi_end = under.hi_end;
              runs = step ∙ rw t under.runs;
              lo_pos = under.lo_pos;
              lo_fits = under.lo_fits;
              hi_below = omega (arith, under.hi_below);
            }
          ]
