-- ===== src/Zk/Ntt/Tests.antt =====
-- The numbers of the repository's tests, and the theorem of the sibling module at one of them.

use the_ai_cowboys_6_shooter.Prelude.{◌^◌, ◌<◌, ◌≡◌, refl, arith}
use the_ai_cowboys_6_shooter.Zk.Ntt.{reverse_loop, bit_reverse}
use the_ai_cowboys_6_shooter.Zk.Ntt.Reversal.{reversed, bit_reverse_lem}

reversals : (bit_reverse 1 3 ≡ 4) × (bit_reverse 6 3 ≡ 3) × (bit_reverse 1 32 ≡ 2 ^ 31)
unfolding bit_reverse reverse_loop
reversals = (refl, refl, refl)

bit_reverse_lem_example :
    (bit_reverse 11 4 ≡ reversed 4 11)
    × (bit_reverse 11 4 < 2 ^ 4)
    × (bit_reverse (bit_reverse 11 4) 4 ≡ 11)
bit_reverse_lem_example = bit_reverse_lem 11 4 (omega arith) (omega arith)
