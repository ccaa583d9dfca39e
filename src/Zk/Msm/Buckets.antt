-- ===== src/Zk/Msm/Buckets.antt =====
-- One window: what the loop over the scalars puts into the buckets.
use the_ai_cowboys_6_shooter.Prelude.{
  ℕ, zero, suc, ◌-◌, ◌*◌, ◌/◌, ◌%◌, ◌^◌, ◌<◌, ◌≡◌, refl, sym, ap, ◌∙◌, arith, ltb, ◌==◌, ==→eq,
  ==_false→ne, eq→==, ne→==_false, if◌then◌else◌, ◌>>=◌, Bool-cases, false, some, some_inj, List,
  [], ◌∷◌, In, inl, inr, length, get_elem?,
}
use the_ai_cowboys_6_shooter.Prelude.Bits.{pow-pos}
use native.Mathlib.Nat.{mod-lt}
use the_ai_cowboys_6_shooter.Zk.Montgomery.{MontgomeryU256}
use the_ai_cowboys_6_shooter.Zk.Montgomery.Limbs.{value, IsWords}
use the_ai_cowboys_6_shooter.Zk.Msm.{
  AffinePoint, ProjectivePoint, add_affine, extract_window, add_to_bucket, distribute,
}
use the_ai_cowboys_6_shooter.Zk.Msm.Window.{extract_window_lem}

-- The digit of a scalar's number at the window `k`, in the base of windows of `w` bits.
abbrev pub digit : ℕ → ℕ → MontgomeryU256 → ℕ
digit k w s = value s / 2 ^ (k * w) % 2 ^ w

-- A bucket and, one after the other, the points whose scalars have the digit `d`.
abbrev pub gather :
    ℕ → ℕ → ℕ → ProjectivePoint → List MontgomeryU256 → List AffinePoint → ProjectivePoint
gather k w d bucket [] points = bucket
gather k w d bucket (s ∷ scalars) [] = bucket
gather k w d bucket (s ∷ scalars) (p ∷ points) =
    gather k w d (if digit k w s == d then add_affine bucket p else bucket) scalars points

-- The place of a bucket is one below its digit.
digit_place : (e j : ℕ) → 0 < e → (e - 1 == j) ≡ (e == suc j)
digit_place e j h = elim (Bool-cases (e - 1 == j)) [
  | inl here ↦ here ∙ sym (eq→== e (suc j) (let f = ==→eq (e - 1) j here in omega (arith, h, f)))
  | inr elsewhere ↦
      let f = ==_false→ne (e - 1) j elsewhere in
      elsewhere ∙ sym (ne→==_false e (suc j) (omega (arith, h, f)))
]

add_to_bucket_lem :
    (buckets : List ProjectivePoint) (i : ℕ) (p : AffinePoint)
    → i < length buckets
    → (after : List ProjectivePoint) × (add_to_bucket buckets i p ≡ some after)
      × (length after ≡ length buckets)
      × ((j : ℕ) (b : ProjectivePoint)
          → get_elem? buckets j ≡ some b
          → get_elem? after j ≡ some (if i == j then add_affine b p else b))
unfolding add_to_bucket
add_to_bucket_lem [] i p h = absurd (omega arith)
add_to_bucket_lem (c ∷ buckets) zero p h = (add_affine c p ∷ buckets, refl, refl, first)
  where
    first :
        (j : ℕ) (b : ProjectivePoint)
        → get_elem? (c ∷ buckets) j ≡ some b
        → get_elem? (add_affine c p ∷ buckets) j ≡ some (if 0 == j then add_affine b p else b)
    first zero b e = ap (λ x. some (add_affine x p)) (some_inj e)
    first (suc j) b e = rw (ne→==_false 0 (suc j) (omega arith), if◌then◌else◌) e
add_to_bucket_lem (c ∷ buckets) (suc i) p h =
    let (after, run, size, at) = add_to_bucket_lem buckets i p (omega arith) in
    (c ∷ after, rw (run, ◌>>=◌) refl, ap suc size, later after at)
  where
    same_test : (j : ℕ) → (i == j) ≡ (suc i == suc j)
    same_test j =
        let one_less : suc i - 1 ≡ i = omega arith in
        ap (λ n. n == j) (sym one_less) ∙ digit_place (suc i) j (omega arith)

    later :
        (after : List ProjectivePoint)
        → ((j : ℕ) (b : ProjectivePoint)
            → get_elem? buckets j ≡ some b
            → get_elem? after j ≡ some (if i == j then add_affine b p else b))
        → (j : ℕ) (b : ProjectivePoint) → get_elem? (c ∷ buckets) j ≡ some b
        → get_elem? (c ∷ after) j ≡ some (if suc i == j then add_affine b p else b)
    later after at zero b e = rw (ne→==_false (suc i) 0 (omega arith), if◌then◌else◌) e
    later after at (suc j) b e =
        at j b e ∙ ap (λ t. some (if t then add_affine b p else b)) (same_test j)

-- The loop over the scalars and points of one window, from as many buckets as there are digits
-- above 0, does not panic: afterwards each bucket is what it was and, one after the other, the points
-- whose scalars have the bucket's digit at this window.
pub distribute_lem :
    (k w : ℕ) (scalars : List MontgomeryU256) (points : List AffinePoint)
    (buckets : List ProjectivePoint)
    → ((s : MontgomeryU256) → In s scalars → IsWords s)
    → length scalars ≡ length points
    → 0 < w
    → w < 64
    → length buckets ≡ 2 ^ w - 1
    → (after : List ProjectivePoint) × (distribute k w scalars points buckets ≡ some after)
      × (length after ≡ length buckets)
      × ((j : ℕ) (b : ProjectivePoint)
          → get_elem? buckets j ≡ some b
          → get_elem? after j ≡ some (gather k w (suc j) b scalars points))
unfolding distribute
distribute_lem k w [] points buckets words same pos hw size = (buckets, refl, refl, λ j b e. e)
distribute_lem k w (s ∷ scalars) [] buckets words same pos hw size = absurd (omega (arith, same))
distribute_lem k w (s ∷ scalars) (p ∷ points) buckets words same pos hw size =
    let e = extract_window s k w in
    let is_digit : e ≡ digit k w s = extract_window_lem s k w (words s (inl refl)) pos hw in
    let small : e < 2 ^ w = rw (is_digit) (mod-lt _ (pow-pos w)) in
    elim (Bool-cases (ltb 0 e)) [
      | inl some_bits ↦
          let (mid, put, kept, at) =
            add_to_bucket_lem buckets (e - 1) p (ground (arith, some_bits, small, size)) in
          let (after, run, size', at') =
            distribute_lem k w scalars points mid (λ t h. words t (inr h)) (omega (arith, same)) pos
              hw (kept ∙ size) in
          (
            after,
            rw (some_bits, if◌then◌else◌, put, ◌>>=◌) run,
            size' ∙ kept,
            λ j b here.
                at' j (if e - 1 == j then add_affine b p else b) (at j b here)
                ∙ ap
                    (λ t.
                      some (gather k w (suc j) (if t then add_affine b p else b) scalars points))
                    (digit_place e j (ground (arith, some_bits)) ∙ ap (λ n. n == suc j) is_digit),
          )
      | inr no_bits ↦
          let (after, run, size', at') =
            distribute_lem k w scalars points buckets (λ t h. words t (inr h)) (omega (arith, same))
              pos hw size in
          let none_set : 0 ≡ digit k w s = ground (arith, no_bits, is_digit) in
          (
            after,
            rw (no_bits, if◌then◌else◌, ◌>>=◌) run,
            size',
            λ j b here.
                let apart : (digit k w s == suc j) ≡ false =
                  ne→==_false (digit k w s) (suc j) (omega (arith, none_set)) in
                at' j b here
                ∙ ap
                    (λ t.
                      some (gather k w (suc j) (if t then add_affine b p else b) scalars points))
                    (sym apart),
          )
    ]
