-- ===== src/Zk/Ntt.antt =====
-- src/zk_prover/ntt.rs: the order in which the transform takes its coefficients.
pub mod Reversal
mod Tests
use Prim.Native.Nat.{bit_and, bit_or}
use the_ai_cowboys_6_shooter.Prelude.{ℕ, zero, suc, ◌*◌, ◌/◌, ◌%◌, ◌^◌}

-- The loop of `bit_reverse`, with the rounds left, on words of 32 bits.
pub reverse_loop : ℕ → ℕ → ℕ → ℕ
reverse_loop zero x result = result
reverse_loop (suc rounds) x result =
    reverse_loop rounds (x / 2) (bit_or (result * 2 % 2 ^ 32) (bit_and x 1))

pub bit_reverse : ℕ → ℕ → ℕ
bit_reverse x bits = reverse_loop bits x 0
