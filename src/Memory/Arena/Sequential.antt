-- ===== src/Memory/Arena/Sequential.antt =====
-- One call of `alloc` at a time, on every branch.
use native.Mathlib.Nat.{add-mod-mod, add-zero}
use the_ai_cowboys_6_shooter.Prelude.{
  ℕ, ◌+◌, ◌-◌, ◌%◌, ◌^◌, ◌≤◌, ◌<◌, ◌≡◌, arith, ltb, if◌then◌else◌,
}
use the_ai_cowboys_6_shooter.Memory.Arena.{
  Arena, granted, exhausted, give_up, swap_to, attempt, align_up, pointer, alloc,
}
use the_ai_cowboys_6_shooter.Memory.Arena.Align.{align_up-IsAlignedUp, pow_le_word, IsAlignedUp}

-- A buffer of at most 2 ^ 62 bytes whose cursor lies inside.
pub record IsValid (a : Arena) : Type 0 where
  pub small : a.capacity ≤ 2 ^ 62
  pub inside : a.cursor ≤ a.capacity

-- A size and an alignment that a Rust type or slice can have (the compiler's largest alignment
-- is 2 ^ 29).
pub record IsRequest (size k : ℕ) : Type 0 where
  pub size_fits : size < 2 ^ 63
  pub align_fits : k ≤ 29

pub align_up_inside :
    (a : Arena) (size k current : ℕ)
    → a.capacity ≤ 2 ^ 62
    → current ≤ a.capacity
    → IsRequest size k
    → IsAlignedUp current (2 ^ k) (align_up current (2 ^ k)) × (2 ^ k ≤ 2 ^ 29)
align_up_inside a size k current small inside r =
    let low : 2 ^ k ≤ 2 ^ 29 = pow_le_word k 29 r.align_fits in
    (align_up-IsAlignedUp current k (omega arith) (omega arith), low)

-- No sum of a round wraps: the round gives up exactly when the aligned block would not fit.
pub attempt_lem :
    (a : Arena) (size k current : ℕ)
    → a.capacity ≤ 2 ^ 62
    → current ≤ a.capacity
    → IsRequest size k
    → attempt a size (2 ^ k) current ≡ (
        if ltb a.capacity (align_up current (2 ^ k) + size)
        then give_up
        else swap_to (align_up current (2 ^ k)) (align_up current (2 ^ k) + size))
unfolding attempt
attempt_lem a size k current small inside r =
    let (up, low) = align_up_inside a size k current small inside r in ground arith

-- `alloc` on a buffer of at most 2 ^ 62 bytes with its cursor inside, for less than 2 ^ 63 bytes at an
-- alignment of a power of two up to 2 ^ 29: when the block at the next aligned offset fits, the call gives its
-- address and moves the cursor to its end; when not, it gives `None` and changes nothing. It does
-- not panic, and the offset is the least multiple of the alignment that is free.
pub alloc_lem :
    {a : Arena} (size k : ℕ)
    → IsValid a
    → IsRequest size k
    → let aligned = align_up a.cursor (2 ^ k) in
      IsAlignedUp a.cursor (2 ^ k) aligned
      × (alloc a size (2 ^ k) ≡ (
          if ltb a.capacity (aligned + size)
          then (exhausted, a)
          else (granted (a.base + aligned), record a { cursor = aligned + size })))
unfolding alloc pointer
alloc_lem {a} size k v r = (
  (align_up_inside a size k a.cursor v.small v.inside r).0,
  ground (arith, attempt_lem a size k a.cursor v.small v.inside r),
)

-- The alignment is that of the offset: a granted address has the remainder of the buffer's own
-- address, so it is a multiple of the alignment exactly when the buffer's address is.
pub alloc-address :
    {a : Arena} (size k : ℕ) {p : ℕ}
    → IsValid a
    → IsRequest size k
    → (alloc a size (2 ^ k)).0 ≡ granted p
    → p % 2 ^ k ≡ a.base % 2 ^ k
alloc-address {a} size k {p} v r e =
    let (up, run) = alloc_lem size k v r in
    let at : p ≡ a.base + align_up a.cursor (2 ^ k) = ground (arith, run) in
    rw (at, ← add-mod-mod, up.multiple, add-zero)

-- An unbounded size makes the sum wrap: on any used arena the request of `2 ^ 64 - cursor` bytes
-- succeeds, and sets the cursor back to 0.
pub alloc_wraps :
    {a : Arena}
    → IsValid a
    → 0 < a.cursor
    → alloc a (2 ^ 64 - a.cursor) 1 ≡ (granted (a.base + a.cursor), record a { cursor = 0 })
unfolding alloc attempt pointer
alloc_wraps {a} v busy =
    let up = align_up-IsAlignedUp a.cursor 0 (omega arith) (omega (arith, v.small, v.inside)) in
    let same : align_up a.cursor 1 ≡ a.cursor = omega (arith, up.above, up.near) in
    ground (arith, same)
