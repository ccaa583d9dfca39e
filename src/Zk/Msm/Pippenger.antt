-- ===== src/Zk/Msm/Pippenger.antt =====
-- The loop over the windows, and what it computes from the digits of the scalars.
use the_ai_cowboys_6_shooter.Prelude.{
  ℕ, zero, suc, ◌-◌, ◌/◌, ◌+◌, ◌^◌, ltb, if◌then◌else◌, List, [], ◌∷◌,
}
use the_ai_cowboys_6_shooter.Zk.Montgomery.{MontgomeryU256}
use the_ai_cowboys_6_shooter.Zk.Msm.{
  AffinePoint, ProjectivePoint, identity, add, aggregate, double_times,
}
use the_ai_cowboys_6_shooter.Zk.Msm.Buckets.{gather}

-- The points grouped by their scalars' digits, for `n` digits from `d` on.
abbrev pub grouped : ℕ → ℕ → ℕ → ℕ → List MontgomeryU256 → List AffinePoint → List ProjectivePoint
grouped k w d zero scalars points = []
grouped k w d (suc n) scalars points =
    gather k w d identity scalars points ∷ grouped k w (suc d) n scalars points

-- From the highest window down: double for each bit of a window, and add the window's sum.
abbrev pub by_digits :
    ℕ → ℕ → List MontgomeryU256 → List AffinePoint → ℕ → ProjectivePoint → ProjectivePoint
by_digits num w scalars points zero result = result
by_digits num w scalars points (suc k) result =
    let shifted = if ltb k (num - 1) then double_times w result else result in
    by_digits num w scalars points k
      (add shifted (aggregate (grouped k w 1 (2 ^ w - 1) scalars points)).1)

-- The sum over no scalars is the identity.
abbrev pub digit_sum : List MontgomeryU256 → List AffinePoint → ℕ → ProjectivePoint
digit_sum [] points w = identity
digit_sum (s ∷ scalars) points w =
    let num = (256 + w - 1) / w in by_digits num w (s ∷ scalars) points num identity
