-- ===== src/Mev/SimdSolver/Branchless.antt =====
-- The comparisons by arithmetic on a flag: `branchless_gt`, `branchless_max`, `branchless_min`.
use the_ai_cowboys_6_shooter.Prelude.{
  ℕ, ◌^◌, ◌<◌, ◌≡◌, arith, min, max, ltb, if◌then◌else◌, Bool-cases, inl, inr,
}
use the_ai_cowboys_6_shooter.Prelude.Words.{add_u64, sub_u64, mul_u64}

unfoldable pub branchless_gt : ℕ → ℕ → ℕ
branchless_gt a b = if ltb b a then 1 else 0

unfoldable pub branchless_max : ℕ → ℕ → ℕ
branchless_max a b =
    let mask = branchless_gt a b in add_u64 (mul_u64 mask a) (mul_u64 (sub_u64 1 mask) b)

unfoldable pub branchless_min : ℕ → ℕ → ℕ
branchless_min a b =
    let mask = branchless_gt a b in add_u64 (mul_u64 mask b) (mul_u64 (sub_u64 1 mask) a)

-- On words of 64 bits the two are the greater and the lesser, no product or sum wrapping.
pub branchless_max-min :
    (a b : ℕ)
    → a < 2 ^ 64
    → b < 2 ^ 64
    → (branchless_max a b ≡ max a b) × (branchless_min a b ≡ min a b)
unfolding branchless_max branchless_min branchless_gt
branchless_max-min a b h k = elim (Bool-cases (ltb b a)) [
  | inl e ↦ (rw (e, if◌then◌else◌) (ground (arith, e)), rw (e, if◌then◌else◌) (ground (arith, e)))
  | inr e ↦ (rw (e, if◌then◌else◌) (ground (arith, e)), rw (e, if◌then◌else◌) (ground (arith, e)))
]
