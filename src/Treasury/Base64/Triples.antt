-- ===== src/Treasury/Base64/Triples.antt =====
-- The words of 24 bits that the two loops put together and take apart.
use Prim.Native.Nat.{bit_and}
use the_ai_cowboys_6_shooter.Prelude.{ℕ, ◌+◌, ◌*◌, ◌/◌, ◌%◌, ◌^◌, ◌<◌, ◌≡◌, arith}
use the_ai_cowboys_6_shooter.Prelude.Bits.{bit_and-low}
use the_ai_cowboys_6_shooter.Prelude.Or.{bit_or-disjoint}
use the_ai_cowboys_6_shooter.Treasury.Base64.{byte_triple, sextet_triple}

pub byte_triple_sum :
    (b0 b1 b2 : ℕ)
    → b0 < 256
    → b1 < 256
    → b2 < 256
    → byte_triple b0 b1 b2 ≡ b0 * 65536 + b1 * 256 + b2
byte_triple_sum b0 b1 b2 h0 h1 h2 =
    let s0 : b0 * 2 ^ 16 % 2 ^ 32 ≡ b0 * 2 ^ 16 = omega arith in
    let s1 : b1 * 2 ^ 8 % 2 ^ 32 ≡ b1 * 2 ^ 8 = omega arith in
    let regroup : b0 * 2 ^ 16 + b1 * 2 ^ 8 ≡ (b0 * 256 + b1) * 2 ^ 8 = omega arith in
    rw
      (
        s0,
        s1,
        bit_or-disjoint b0 16 (b1 * 2 ^ 8) (omega arith),
        regroup,
        bit_or-disjoint (b0 * 256 + b1) 8 b2 (omega arith),
      )
      (omega arith)

sextet_triple_sum :
    (b0 b1 b2 b3 : ℕ)
    → b0 < 64
    → b1 < 64
    → b2 < 64
    → b3 < 64
    → sextet_triple b0 b1 b2 b3 ≡ b0 * 262144 + b1 * 4096 + b2 * 64 + b3
sextet_triple_sum b0 b1 b2 b3 h0 h1 h2 h3 =
    let s0 : b0 * 2 ^ 18 % 2 ^ 32 ≡ b0 * 2 ^ 18 = omega arith in
    let s1 : b1 * 2 ^ 12 % 2 ^ 32 ≡ b1 * 2 ^ 12 = omega arith in
    let s2 : b2 * 2 ^ 6 % 2 ^ 32 ≡ b2 * 2 ^ 6 = omega arith in
    let regroup : b0 * 2 ^ 18 + b1 * 2 ^ 12 ≡ (b0 * 64 + b1) * 2 ^ 12 = omega arith in
    let again : (b0 * 64 + b1) * 2 ^ 12 + b2 * 2 ^ 6 ≡ (b0 * 4096 + b1 * 64 + b2) * 2 ^ 6 =
      omega arith in
    rw
      (
        s0,
        s1,
        s2,
        bit_or-disjoint b0 18 (b1 * 2 ^ 12) (omega arith),
        regroup,
        bit_or-disjoint (b0 * 64 + b1) 12 (b2 * 2 ^ 6) (omega arith),
        again,
        bit_or-disjoint (b0 * 4096 + b1 * 64 + b2) 6 b3 (omega arith),
      )
      (omega arith)

-- The six-bit digits of a word of 24 bits give it back.
pub digits_back :
    (t : ℕ)
    → t < 16777216
    → sextet_triple (t / 2 ^ 18 % 64) (t / 2 ^ 12 % 64) (t / 2 ^ 6 % 64) (t % 64) ≡ t
digits_back t h =
    rw
      (sextet_triple_sum (t / 2 ^ 18 % 64) (t / 2 ^ 12 % 64) (t / 2 ^ 6 % 64) (t % 64) (omega arith)
        (omega arith) (omega arith) (omega arith))
      (omega arith)

pub bytes_back :
    (b0 b1 b2 : ℕ)
    → b0 < 256
    → b1 < 256
    → b2 < 256
    → (t : ℕ) → t ≡ b0 * 65536 + b1 * 256 + b2
    → (bit_and (t / 2 ^ 16) 255 ≡ b0) × (bit_and (t / 2 ^ 8) 255 ≡ b1) × (bit_and t 255 ≡ b2)
bytes_back b0 b1 b2 h0 h1 h2 t e = (
  rw (bit_and-low (t / 2 ^ 16) 8) (omega (arith, e)),
  rw (bit_and-low (t / 2 ^ 8) 8) (omega (arith, e)),
  rw (bit_and-low t 8) (omega (arith, e)),
)
