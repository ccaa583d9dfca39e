-- ===== src/Zk/Msm/Tests.antt =====
-- Windows of one scalar, points of the curve, and the theorems of the sibling modules at them.
use the_ai_cowboys_6_shooter.Prelude.{
  ℕ, suc, ◌*◌, ◌/◌, ◌%◌, ◌^◌, ◌<◌, ◌≡◌, refl, arith, true, false, none, some, List, [], ◌∷◌, In,
  inl, inr, length, replicate, get_elem?,
}
use the_ai_cowboys_6_shooter.Zk.Montgomery.{
  MontgomeryU256, one_element, add_step, sub_step, mul_step, add_limbs, sub_limbs, mul_limbs,
  gte_modulus, sub_modulus, reduce, mont_add, mont_sub, mul_round, mont_mul, mont_sqr,
}
use the_ai_cowboys_6_shooter.Zk.Montgomery.Limbs.{value, IsWords}
use the_ai_cowboys_6_shooter.Zk.Msm.{
  AffinePoint, ProjectivePoint, identity, is_identity, double, add_affine, extract_window,
  distribute, pippenger_msm,
}
use the_ai_cowboys_6_shooter.Zk.Msm.Window.{extract_window_lem}
use the_ai_cowboys_6_shooter.Zk.Msm.Buckets.{gather, distribute_lem}

abbrev scalar_of : ℕ → MontgomeryU256
scalar_of n = record { l0 = n; l1 = 5; l2 = 0; l3 = 1 }

abbrev scalar_of-IsWords : (n : ℕ) → n < 2 ^ 64 → IsWords (scalar_of n)
scalar_of-IsWords n h = record { w0 = h; w1 = omega arith; w2 = omega arith; w3 = omega arith }

windows_of_214 :
    (extract_window (scalar_of 214) 0 4 ≡ 6)
    × (extract_window (scalar_of 214) 1 4 ≡ 13)
    × (extract_window (scalar_of 214) 12 5 ≡ 16)
unfolding extract_window
windows_of_214 = (refl, refl, refl)

extract_window_lem_example :
    extract_window (scalar_of 214) 12 5 ≡ value (scalar_of 214) / 2 ^ (12 * 5) % 2 ^ 5
extract_window_lem_example =
    extract_window_lem (scalar_of 214) 12 5 (scalar_of-IsWords 214 (omega arith)) (omega arith)
      (omega arith)

abbrev generator : AffinePoint
generator = record { x = one_element; y = mont_add one_element one_element; infinity = false }

-- The mixed addition of a point to itself gives the identity; the doubling does not.
same_point :
    (is_identity (add_affine identity generator) ≡ false)
    × (is_identity (add_affine (add_affine identity generator) generator) ≡ true)
    × (is_identity (double (add_affine identity generator)) ≡ false)
unfolding add_affine double mont_add mont_sub mont_mul mont_sqr mul_round mul_limbs mul_step
    add_limbs add_step sub_limbs sub_step reduce gte_modulus sub_modulus
same_point = (refl, refl, refl)

abbrev two_scalars : List MontgomeryU256
two_scalars = scalar_of 214 ∷ scalar_of 3 ∷ []

abbrev two_scalars-IsWords : (s : MontgomeryU256) → In s two_scalars → IsWords s
two_scalars-IsWords s (inl e) = rw (e) (scalar_of-IsWords 214 (omega arith))
two_scalars-IsWords s (inr (inl e)) = rw (e) (scalar_of-IsWords 3 (omega arith))
two_scalars-IsWords s (inr (inr h)) = absurd h

abbrev two_points : List AffinePoint
two_points = generator ∷ generator ∷ []

distribute_lem_example :
    (after : List ProjectivePoint) × (distribute 0 2 two_scalars two_points (replicate 3 identity)
      ≡ some after)
    × (length after ≡ 3)
    × ((j : ℕ) (b : ProjectivePoint)
        → get_elem? (replicate 3 identity) j ≡ some b
        → get_elem? after j ≡ some (gather 0 2 (suc j) b two_scalars two_points))
distribute_lem_example =
    distribute_lem 0 2 two_scalars two_points (replicate 3 identity) two_scalars-IsWords refl
      (omega arith) (omega arith) refl

no_points : (pippenger_msm [] [] 0 ≡ some identity) × (pippenger_msm two_scalars [] 4 ≡ none)
unfolding pippenger_msm
no_points = (refl, refl)
