-- ===== src/Memory/Arena/Threads/Tests.antt =====
-- An interleaving of two threads, and the theorems of `Safety` at it.
use the_ai_cowboys_6_shooter.Prelude.{ℕ, ◌+◌, ◌%◌, ◌≤◌, ◌≡◌, refl, arith}
use the_ai_cowboys_6_shooter.Memory.Arena.{align_up, attempt, new}
use the_ai_cowboys_6_shooter.Memory.Arena.Sequential.{IsRequest}
use the_ai_cowboys_6_shooter.Memory.Arena.Threads.{
  System, Reach, start, next, call, load, retry, win, init, idle, asked, goto,
}
use the_ai_cowboys_6_shooter.Memory.Arena.Threads.Safety.{grants_apart}

byte : IsRequest 24 3
byte = record { size_fits = omega arith; align_fits = omega arith }

-- Threads 0 and 1 both load the cursor 0; thread 0 wins, thread 1 fails, loads again and wins.
-- Of the two blocks the older ends where the newer starts.
grants_apart_example : (0 + 24 ≤ 24) × (24 + 24 ≤ 64) × (24 % 8 ≡ 0) × (◌≡◌ {A = ℕ} (0 % 8) 0)
unfolding init new attempt align_up
grants_apart_example =
    let z : Reach 0 64 (init 0 64) = start in
    let a = next z (call 0 24 3 byte refl) in
    let b = next a (call 1 24 3 byte refl) in
    let c = next b (load 0 24 8 refl) in
    let d = next c (load 1 24 8 refl) in
    let e = next d (win 0 24 8 0 0 24 refl refl refl) in
    let f = next e (retry 1 24 8 0 0 24 refl refl) in
    let g = next f (load 1 24 8 refl) in
    let h = next g (win 1 24 8 24 24 48 refl refl refl) in
    grants_apart 0 1 (omega arith) h refl refl (omega arith)

-- The system in which thread 2 has asked for 24 bytes.
abbrev asking : System
asking = record (init 0 64) { pc = goto (λ _. idle) 2 (asked 24 8) }
