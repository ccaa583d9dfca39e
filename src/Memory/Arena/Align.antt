-- ===== src/Memory/Arena/Align.antt =====
-- Rounding an offset up to a power of two by the mask of `alloc`.
use native.Mathlib.Nat.{mod-lt, pow-le-pow_right, mod-add-div', mul-mod_left}
use the_ai_cowboys_6_shooter.Prelude.{ℕ, ◌+◌, ◌-◌, ◌*◌, ◌/◌, ◌%◌, ◌^◌, ◌≤◌, ◌<◌, ◌≡◌, arith}
use the_ai_cowboys_6_shooter.Prelude.Words.{add_u64, sub_u64}
use the_ai_cowboys_6_shooter.Prelude.Bits.{pow-pos, bit_and-high}
use the_ai_cowboys_6_shooter.Memory.Arena.{align_up, not_u64}

pub pow_le_word : (k w : ℕ) → k ≤ w → 2 ^ k ≤ 2 ^ w
pow_le_word k w h = pow-le-pow_right (omega arith) h

-- While `current + align` does not wrap, the mask rounds `current + align - 1` down.
align_up_pow :
    (current k : ℕ)
    → k ≤ 63
    → current + 2 ^ k ≤ 2 ^ 64
    → align_up current (2 ^ k) ≡ current + 2 ^ k - 1 - (current + 2 ^ k - 1) % 2 ^ k
unfolding align_up
align_up_pow current k h room =
    let one : 0 < 2 ^ k = pow-pos k in
    let top : sub_u64 (add_u64 current (2 ^ k)) 1 ≡ current + 2 ^ k - 1 = omega arith in
    let mask : not_u64 (sub_u64 (2 ^ k) 1) ≡ 2 ^ 64 - 2 ^ k = omega arith in
    rw (top, mask) (bit_and-high (current + 2 ^ k - 1) k 64 (omega arith) (omega arith))

-- The rounded offset is the least multiple of the alignment that is not below `current`.
pub record IsAlignedUp (current align aligned : ℕ) : Type 0 where
  pub above : current ≤ aligned
  pub near : aligned < current + align
  pub multiple : aligned % align ≡ 0

round_down-multiple : (x p : ℕ) → (x - x % p) % p ≡ 0
round_down-multiple x p =
    let e : x - x % p ≡ x / p * p = omega (arith, mod-add-div' x p) in rw (e, mul-mod_left)

pub align_up-IsAlignedUp :
    (current k : ℕ)
    → k ≤ 63
    → current + 2 ^ k ≤ 2 ^ 64
    → IsAlignedUp current (2 ^ k) (align_up current (2 ^ k))
align_up-IsAlignedUp current k h room =
    let one : 0 < 2 ^ k = pow-pos k in
    let small = mod-lt (current + 2 ^ k - 1) one in
    rw (align_up_pow current k h room) (record {
      above = omega arith;
      near = omega arith;
      multiple = round_down-multiple (current + 2 ^ k - 1) (2 ^ k);
    })
