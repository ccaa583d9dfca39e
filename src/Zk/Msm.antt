-- ===== src/Zk/Msm.antt =====
-- src/zk_prover/msm.rs: points of the curve over the elements of montgomery.rs, and the sum of
-- multiples of points by buckets. `none` is a panic.
pub mod Window
pub mod Buckets
pub mod Pippenger
mod Tests
use Prim.Native.Nat.{bit_and, bit_or}
use the_ai_cowboys_6_shooter.Prelude.{
  ℕ, zero, suc, ◌+◌, ◌-◌, ◌*◌, ◌/◌, ◌%◌, ◌^◌, ltb, leb, ◌==◌, ◌&&◌, if◌then◌else◌, Bool, true,
  false, Option, none, some, ◌>>=◌, List, [], ◌∷◌, length, replicate,
}
use the_ai_cowboys_6_shooter.Prelude.Words.{sub_u64}
use the_ai_cowboys_6_shooter.Zk.Montgomery.{
  MontgomeryU256, zero_element, one_element, mont_add, mont_sub, mont_mul, mont_sqr, mont_inv,
}

pub record AffinePoint : Type 0 where
  pub x : MontgomeryU256
  pub y : MontgomeryU256
  pub infinity : Bool

pub record ProjectivePoint : Type 0 where
  pub x : MontgomeryU256
  pub y : MontgomeryU256
  pub z : MontgomeryU256

abbrev pub identity : ProjectivePoint
identity = record { x = zero_element; y = one_element; z = zero_element }

-- `limbs == [0; 4]`
abbrev pub is_zero : MontgomeryU256 → Bool
is_zero a = (a.l0 == 0) && (a.l1 == 0) && (a.l2 == 0) && (a.l3 == 0)

abbrev pub is_identity : ProjectivePoint → Bool
is_identity p = is_zero p.z

unfoldable pub double : ProjectivePoint → ProjectivePoint
double p =
    let xx = mont_sqr p.x in
    let yy = mont_sqr p.y in
    let yyyy = mont_sqr yy in
    let zz = mont_sqr p.z in
    let half = mont_sub (mont_sub (mont_sqr (mont_add p.x yy)) xx) yyyy in
    let s = mont_add half half in
    let m = mont_add (mont_add xx xx) xx in
    let t = mont_sub (mont_sub (mont_sqr m) s) s in
    let yyyy_2 = mont_add yyyy yyyy in
    let yyyy_4 = mont_add yyyy_2 yyyy_2 in
    let yyyy_8 = mont_add yyyy_4 yyyy_4 in
    let doubled : ProjectivePoint = record {
      x = t;
      y = mont_sub (mont_mul m (mont_sub s t)) yyyy_8;
      z = mont_sub (mont_sub (mont_sqr (mont_add p.y p.z)) yy) zz;
    } in
    if is_identity p then p else doubled

unfoldable pub to_affine : ProjectivePoint → AffinePoint
to_affine p =
    let z_inv = mont_inv p.z in
    let z_inv2 = mont_sqr z_inv in
    let z_inv3 = mont_mul z_inv2 z_inv in
    let point : AffinePoint = record {
      x = mont_mul p.x z_inv2;
      y = mont_mul p.y z_inv3;
      infinity = false;
    } in
    if is_identity p then record { x = zero_element; y = zero_element; infinity = true } else point

-- The last lines of both additions: `u1` and `s1` are the coordinates of the first point over the
-- common denominator, `h` and `r` the differences, `z` the denominator without `h`.
abbrev pub sum_point :
    MontgomeryU256
    → MontgomeryU256
    → MontgomeryU256
    → MontgomeryU256
    → MontgomeryU256
    → ProjectivePoint
sum_point u1 s1 h r z =
    let hh = mont_sqr h in
    let hhh = mont_mul h hh in
    let v = mont_mul u1 hh in
    let x3 = mont_sub (mont_sub (mont_sub (mont_sqr r) hhh) v) v in
    record { x = x3; y = mont_sub (mont_mul r (mont_sub v x3)) (mont_mul s1 hhh); z = mont_mul z h }

unfoldable pub add : ProjectivePoint → ProjectivePoint → ProjectivePoint
add p rhs =
    let z1z1 = mont_sqr p.z in
    let z2z2 = mont_sqr rhs.z in
    let u1 = mont_mul p.x z2z2 in
    let u2 = mont_mul rhs.x z1z1 in
    let s1 = mont_mul (mont_mul p.y rhs.z) z2z2 in
    let s2 = mont_mul (mont_mul rhs.y p.z) z1z1 in
    let h = mont_sub u2 u1 in
    let r = mont_sub s2 s1 in
    if is_identity p
    then rhs
    else (if is_identity rhs
        then p
        else (if is_zero h && is_zero r
            then double p
            else sum_point u1 s1 h r (mont_mul p.z rhs.z)))

unfoldable pub add_affine : ProjectivePoint → AffinePoint → ProjectivePoint
add_affine p rhs =
    let z1z1 = mont_sqr p.z in
    let u2 = mont_mul rhs.x z1z1 in
    let s2 = mont_mul (mont_mul rhs.y p.z) z1z1 in
    if rhs.infinity
    then p
    else (if is_identity p
        then record { x = rhs.x; y = rhs.y; z = one_element }
        else sum_point p.x p.y (mont_sub u2 p.x) (mont_sub s2 p.y) p.z)

-- `scalar.limbs[i]`, for an index below 4.
abbrev pub limb : MontgomeryU256 → ℕ → ℕ
limb s zero = s.l0
limb s (suc zero) = s.l1
limb s (suc (suc zero)) = s.l2
limb s (suc (suc (suc i))) = s.l3

-- `1u64 << k`, which takes its count modulo 64.
abbrev pub shl_one : ℕ → ℕ
shl_one k = 2 ^ (k % 64)

unfoldable pub extract_window : MontgomeryU256 → ℕ → ℕ → ℕ
extract_window scalar window_idx window_bits =
    let bit_offset = window_idx * window_bits in
    let limb_idx = bit_offset / 64 in
    let bit_in_limb = bit_offset % 64 in
    let mask = sub_u64 (shl_one window_bits) 1 in
    let val = limb scalar limb_idx / 2 ^ bit_in_limb in
    let overflow_bits = bit_in_limb + window_bits - 64 in
    let high = bit_and (limb scalar (limb_idx + 1)) (sub_u64 (shl_one overflow_bits) 1) in
    if leb 4 limb_idx
    then 0
    else (if ltb 64 (bit_in_limb + window_bits) && ltb (limb_idx + 1) 4
        then bit_and (bit_or val (high * 2 ^ ((64 - bit_in_limb) % 64) % 2 ^ 64)) mask
        else bit_and val mask)

-- `for _ in 0..window_bits { result = result.double() }`
unfoldable pub double_times : ℕ → ProjectivePoint → ProjectivePoint
double_times zero p = p
double_times (suc n) p = double_times n (double p)

-- `buckets[i] = buckets[i].add_affine(point)`, which panics out of range.
unfoldable pub add_to_bucket :
    List ProjectivePoint → ℕ → AffinePoint → Option (List ProjectivePoint)
add_to_bucket [] i point = none
add_to_bucket (b ∷ buckets) zero point = some (add_affine b point ∷ buckets)
add_to_bucket (b ∷ buckets) (suc i) point =
    add_to_bucket buckets i point >>= λ rest. some (b ∷ rest)

-- The loop over the scalars and the points of one window; the lists have one length.
unfoldable pub distribute :
    ℕ
    → ℕ
    → List MontgomeryU256
    → List AffinePoint
    → List ProjectivePoint
    → Option (List ProjectivePoint)
distribute window_idx window_bits [] points buckets = some buckets
distribute window_idx window_bits (s ∷ scalars) [] buckets = none
distribute window_idx window_bits (s ∷ scalars) (p ∷ points) buckets =
    let bucket_idx = extract_window s window_idx window_bits in
    (if ltb 0 bucket_idx then add_to_bucket buckets (bucket_idx - 1) p else some buckets)
    >>= λ buckets'. distribute window_idx window_bits scalars points buckets'

-- The running sum and the sum of the window, over the buckets from the last one down.
unfoldable pub aggregate : List ProjectivePoint → ProjectivePoint × ProjectivePoint
aggregate [] = (identity, identity)
aggregate (b ∷ buckets) =
    let (running_sum, window_sum) = aggregate buckets in
    let running_sum' = add running_sum b in (running_sum', add window_sum running_sum')

-- The loop over the windows, from the most significant one, with the windows that are left.
unfoldable pub windows :
    ℕ → ℕ → List MontgomeryU256 → List AffinePoint → ℕ → ProjectivePoint → Option ProjectivePoint
windows num_windows window_bits scalars points zero result = some result
windows num_windows window_bits scalars points (suc window_idx) result =
    let shifted =
      if ltb window_idx (num_windows - 1) then double_times window_bits result else result in
    distribute window_idx window_bits scalars points
      (replicate (sub_u64 (shl_one window_bits) 1) identity)
    >>= λ buckets.
        windows num_windows window_bits scalars points window_idx
          (add shifted (aggregate buckets).1)

-- An assertion that fails and a division by zero are panics.
unfoldable pub pippenger_msm : List MontgomeryU256 → List AffinePoint → ℕ → Option ProjectivePoint
pippenger_msm scalars points window_bits =
    if length scalars == length points
    then (if length scalars == 0
        then some identity
        else (if window_bits == 0
            then none
            else (let num_windows = (256 + window_bits - 1) / window_bits in
                windows num_windows window_bits scalars points num_windows identity)))
    else none
