-- ===== src/Mev/SimdSolver/Spread.antt =====
-- `scan_best_spread`: the lowest ask and the highest bid, by fours and then one by one. The updates
-- of the ask and of the bid touch different variables.
use the_ai_cowboys_6_shooter.Prelude.{
  ℕ, zero, suc, ◌+◌, ◌-◌, ◌*◌, ◌/◌, ◌^◌, ltb, ◌==◌, not, if◌then◌else◌, Bool, Option, none, some,
  ◌>>=◌, List, length, get_elem?,
}
use the_ai_cowboys_6_shooter.Prelude.Words.{sub_u64}

-- The four variables of the scan.
pub record Scan : Type 0 where
  pub min_ask : ℕ
  pub min_ask_idx : ℕ
  pub max_bid : ℕ
  pub max_bid_idx : ℕ

abbrev pub start : Scan
start = record { min_ask = 2 ^ 64 - 1; min_ask_idx = 0; max_bid = 0; max_bid_idx = 0 }

-- `if lt { min_ask = a; min_ask_idx = i; }`
abbrev pub set_ask : Bool → ℕ → ℕ → Scan → Scan
set_ask lt i a s = if lt then record s { min_ask = a; min_ask_idx = i } else s

-- `if b > max_bid { max_bid = b; max_bid_idx = i; }`
abbrev pub see_bid : ℕ → ℕ → Scan → Scan
see_bid i b s = if ltb s.max_bid b then record s { max_bid = b; max_bid_idx = i } else s

module _ (ask_prices bid_prices : List ℕ) where
  -- A round of the unrolled loop. The four flags compare with the ask before the round.
  unfoldable pub scan_four : ℕ → Scan → Option Scan
  scan_four base s = do
    a0 ← get_elem? ask_prices base
    a1 ← get_elem? ask_prices (base + 1)
    a2 ← get_elem? ask_prices (base + 2)
    a3 ← get_elem? ask_prices (base + 3)
    b0 ← get_elem? bid_prices base
    b1 ← get_elem? bid_prices (base + 1)
    b2 ← get_elem? bid_prices (base + 2)
    b3 ← get_elem? bid_prices (base + 3)
    let s0 = set_ask (ltb a0 s.min_ask) base a0 s
    let s1 = set_ask (ltb a1 s.min_ask) (base + 1) a1 s0
    let s2 = set_ask (ltb a2 s.min_ask) (base + 2) a2 s1
    let s3 = set_ask (ltb a3 s.min_ask) (base + 3) a3 s2
    some
        (see_bid (base + 3) b3 (see_bid (base + 2) b2 (see_bid (base + 1) b1 (see_bid base b0 s3))))

  -- The unrolled loop, with the rounds left.
  unfoldable pub scan_fours : ℕ → ℕ → Scan → Option Scan
  scan_fours zero c s = some s
  scan_fours (suc rounds) c s = scan_four (c * 4) s >>= scan_fours rounds (c + 1)

  -- The loop over the remainder, with the rounds left.
  unfoldable pub scan_rest : ℕ → ℕ → Scan → Option Scan
  scan_rest zero i s = some s
  scan_rest (suc rounds) i s = do
    a ← get_elem? ask_prices i
    b ← get_elem? bid_prices i
    scan_rest rounds (i + 1) (see_bid i b (set_ask (ltb a s.min_ask) i a s))

  unfoldable pub scan_best_spread : List ℕ → Option (Option (ℕ × ℕ × ℕ))
  scan_best_spread pool_ids =
      let n = length ask_prices in
      let chunks = n / 4 in
      if ltb n 2
      then some none
      else (scan_fours chunks 0 start >>= λ f. scan_rest (n - chunks * 4) (chunks * 4) f >>= λ s.
          if ltb s.min_ask s.max_bid
          then (get_elem? pool_ids s.min_ask_idx >>= λ ask_pool.
              get_elem? pool_ids s.max_bid_idx >>= λ bid_pool. some (
                if not (ask_pool == bid_pool)
                then some (s.min_ask_idx, s.max_bid_idx, sub_u64 s.max_bid s.min_ask)
                else none))
          else some none)
