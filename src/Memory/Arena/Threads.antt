-- ===== src/Memory/Arena/Threads.antt =====
-- `alloc` under concurrency: the loop of `Arena::alloc` in its atomic steps, taken by any number
-- of threads in any order. `grants` is a record of the blocks handed out since the last `reset`.
mod Invariant
pub mod Safety
mod Tests
use the_ai_cowboys_6_shooter.Prelude.{
  ℕ, ◌^◌, ◌≤◌, ◌<◌, ◌≡◌, if◌then◌else◌, ◌==◌, Option, none, some, List, [], ◌∷◌,
}
use the_ai_cowboys_6_shooter.Memory.Arena.{Arena, Attempt, give_up, swap_to, attempt, new, reset}
use the_ai_cowboys_6_shooter.Memory.Arena.Sequential.{IsRequest}

-- A block of `size` bytes at the offset `start`, asked for with the alignment `align`.
pub record Block : Type 0 where
  pub start : ℕ
  pub size : ℕ
  pub align : ℕ

-- Where a thread stands in the loop: outside, before the load, or holding the loaded cursor.
pub data Pc : Type 0 where
  idle : Pc
  asked : ℕ → ℕ → Pc
  loaded : ℕ → ℕ → ℕ → Pc

pub record System : Type 0 where
  pub arena : Arena
  pub pc : ℕ → Pc
  pub grants : List Block

abbrev pub goto : (ℕ → Pc) → ℕ → Pc → ℕ → Pc
goto pc i p j = if j == i then p else pc j

-- One atomic step of thread `i`. `retry` is a failed `compare_exchange_weak`, which may fail
-- without cause; `win` is one that found the cursor as loaded. `recycle` is a call of `reset`.
pub data Step (s : System) : System → Type 0 where
  call :
      (i size k : ℕ)
      → IsRequest size k
      → s.pc i ≡ idle
      → Step s (record s { pc = goto s.pc i (asked size (2 ^ k)) })
  load :
      (i size align : ℕ)
      → s.pc i ≡ asked size align
      → Step s (record s { pc = goto s.pc i (loaded size align s.arena.cursor) })
  exhaust :
      (i size align current : ℕ)
      → s.pc i ≡ loaded size align current
      → attempt s.arena size align current ≡ give_up
      → Step s (record s { pc = goto s.pc i idle })
  retry :
      (i size align current aligned new_cursor : ℕ)
      → s.pc i ≡ loaded size align current
      → attempt s.arena size align current ≡ swap_to aligned new_cursor
      → Step s (record s { pc = goto s.pc i (asked size align) })
  win :
      (i size align current aligned new_cursor : ℕ)
      → s.pc i ≡ loaded size align current
      → attempt s.arena size align current ≡ swap_to aligned new_cursor
      → s.arena.cursor ≡ current
      → Step s (record {
        arena = record s.arena { cursor = new_cursor };
        pc = goto s.pc i idle;
        grants = record { start = aligned; size = size; align = align } ∷ s.grants;
      })
  recycle : Step s (record s { arena = reset s.arena; grants = [] })

-- The thread that takes a step; a reset is no thread's.
abbrev pub actor : {s t : System} → Step s t → Option ℕ
actor (call i size k r e) = some i
actor (load i size align e) = some i
actor (exhaust i size align current e f) = some i
actor (retry i size align current aligned new_cursor e f) = some i
actor (win i size align current aligned new_cursor e f g) = some i
actor recycle = none

-- The states that thread `i` reaches from `s` when no other thread takes a step.
pub data Solo (i : ℕ) (s : System) : System → Type 0 where
  stay : Solo i s s
  move : {t u : System} → Solo i s t → (st : Step t u) → actor st ≡ some i → Solo i s u

pub init : ℕ → ℕ → System
init base capacity = record { arena = new base capacity; pc = λ _. idle; grants = [] }

pub data Reach (base capacity : ℕ) : System → Type 0 where
  start : Reach base capacity (init base capacity)
  next : {s t : System} → Reach base capacity s → Step s t → Reach base capacity t
