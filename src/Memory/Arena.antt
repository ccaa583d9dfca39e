-- ===== src/Memory/Arena.antt =====
-- src/memory/arena.rs: the bump allocator. An address is a number; `buf` is `capacity` bytes
-- from the address `base`, which the global allocator chooses.
pub mod Align
pub mod Sequential
pub mod Threads
mod Tests
use Prim.Native.Nat.{bit_and}
use the_ai_cowboys_6_shooter.Prelude.{ℕ, ◌+◌, ◌-◌, ◌^◌, ltb, if◌then◌else◌}
use the_ai_cowboys_6_shooter.Prelude.Words.{add_u64, sub_u64, mul_u64}

pub record Arena : Type 0 where
  pub base : ℕ
  pub cursor : ℕ
  pub capacity : ℕ

-- What a call gives back: a pointer, `None`, or the panic of slicing `buf` past its end.
pub data Outcome : Type 0 where
  granted : ℕ → Outcome
  exhausted panic : Outcome

-- `!x` on a `usize`.
abbrev pub not_u64 : ℕ → ℕ
not_u64 x = 2 ^ 64 - 1 - x

pub new : ℕ → ℕ → Arena
new base capacity = record { base = base; cursor = 0; capacity = capacity }

-- `(current + align - 1) & !(align - 1)`
pub align_up : ℕ → ℕ → ℕ
align_up current align = bit_and (sub_u64 (add_u64 current align) 1) (not_u64 (sub_u64 align 1))

-- What one round of the loop of `alloc` is about to do, once it has loaded `current`.
pub data Attempt : Type 0 where
  give_up : Attempt
  swap_to : ℕ → ℕ → Attempt

pub attempt : Arena → ℕ → ℕ → ℕ → Attempt
attempt a size align current =
    let aligned = align_up current align in
    let new_cursor = add_u64 aligned size in
    if ltb a.capacity new_cursor then give_up else swap_to aligned new_cursor

-- `buf[aligned..].as_mut_ptr()`
pub pointer : Arena → ℕ → Outcome
pointer a aligned = if ltb a.capacity aligned then panic else granted (a.base + aligned)

-- A call that no other thread disturbs: the first `compare_exchange_weak` that does not fail
-- spuriously succeeds. `Threads` has the rounds of the loop one by one.
pub alloc : Arena → ℕ → ℕ → Outcome × Arena
alloc a size align = elim (attempt a size align a.cursor) [
  | give_up ↦ (exhausted, a)
  | swap_to aligned new_cursor ↦ (pointer a aligned, record a { cursor = new_cursor })
]

-- `T` is given by its size and alignment.
pub alloc_typed : Arena → ℕ → ℕ → Outcome × Arena
alloc_typed a size_of_t align_of_t = alloc a size_of_t align_of_t

pub alloc_slice : Arena → ℕ → ℕ → ℕ → Outcome × Arena
alloc_slice a size_of_t align_of_t count = alloc a (mul_u64 size_of_t count) align_of_t

pub reset : Arena → Arena
reset a = record a { cursor = 0 }

pub used : Arena → ℕ
used a = a.cursor
