-- ===== src/Mev/SimdSolver/Found.antt =====
-- `scan_best_spread` as a whole.
use the_ai_cowboys_6_shooter.Prelude.{
  ℕ, ◌+◌, ◌-◌, ◌*◌, ◌/◌, ◌^◌, ◌<◌, ◌≡◌, inl, inr, refl, arith, ltb, ◌==◌, not, if◌then◌else◌, true,
  Option, none, some, ◌>>=◌, List, length, get_elem?, get_elem?-inside, inside-get_elem?,
  Bool-cases, some_inj, ltb→lt, ==_false→ne,
}
use mathlib.Core.Path.{subst}
use the_ai_cowboys_6_shooter.Prelude.Words.{sub_u64}
use the_ai_cowboys_6_shooter.Mev.SimdSolver.Spread.{Scan, start, scan_best_spread}
use the_ai_cowboys_6_shooter.Mev.SimdSolver.Scan.{
  Stands, Bids, Low, scan_fours_total, scan_rest_total, IsSpread, Stands-IsSpread,
}

module _ (ask_prices bid_prices pool_ids : List ℕ) where
  -- The end of the function on what both loops found.
  chosen :
      (s : Scan)
      → length bid_prices ≡ length ask_prices
      → length pool_ids ≡ length ask_prices
      → ((j c : ℕ) → get_elem? bid_prices j ≡ some c → c < 2 ^ 64)
      → Stands ask_prices bid_prices s
      → Bids ask_prices bid_prices (length ask_prices) s
      → Low ask_prices bid_prices (length ask_prices / 4 * 4) (length ask_prices) s
      → ltb s.min_ask s.max_bid ≡ true
      → (found : Option (ℕ × ℕ × ℕ)) × ((get_elem? pool_ids s.min_ask_idx >>= λ ask_pool.
            get_elem? pool_ids s.max_bid_idx >>= λ bid_pool. some (
              if not (ask_pool == bid_pool)
              then some (s.min_ask_idx, s.max_bid_idx, sub_u64 s.max_bid s.min_ask)
              else none))
          ≡ some found)
        × ((f : ℕ × ℕ × ℕ) → found ≡ some f → IsSpread ask_prices bid_prices pool_ids f)
  chosen s same ids words ask bid low e =
      let h = ltb→lt s.min_ask s.max_bid e in
      let b : get_elem? bid_prices s.max_bid_idx ≡ some s.max_bid = (elim bid.bid [
        | inl z ↦ absurd (omega (arith, h, z))
        | inr f ↦ f
      ]) in
      let fits = words s.max_bid_idx s.max_bid b in
      let a : get_elem? ask_prices s.min_ask_idx ≡ some s.min_ask = (elim ask [
        | inl z ↦ absurd (omega (arith, h, z, fits))
        | inr f ↦ f
      ]) in
      let in_bids = inside-get_elem? bid_prices s.max_bid_idx {x = s.max_bid} b in
      let in_asks = inside-get_elem? ask_prices s.min_ask_idx {x = s.min_ask} a in
      let (ask_pool, p) = get_elem?-inside pool_ids s.min_ask_idx (omega (arith, in_asks, ids)) in
      let (bid_pool, q) =
        get_elem?-inside pool_ids s.max_bid_idx (omega (arith, in_bids, ids, same)) in
      elim (Bool-cases (ask_pool == bid_pool)) [
        | inl t ↦ (none, rw (p, q, ◌>>=◌, t) refl, λ f g. absurd (cc))
        | inr t ↦ (
          some (s.min_ask_idx, s.max_bid_idx, sub_u64 s.max_bid s.min_ask),
          rw (p, q, ◌>>=◌, t) refl,
          λ f g. subst (IsSpread ask_prices bid_prices pool_ids) (some_inj g) (
              Stands-IsSpread ask_prices bid_prices pool_ids s ask_pool bid_pool same h fits ask bid
                low p q (==_false→ne ask_pool bid_pool t)),
        )
      ]

  -- On three lists of one length, with bids of 64 bits, the scan does not panic, and a spread that
  -- it reports is there: the ask and the bid stand at the two places, in pools of different ids,
  -- the bid exceeds the ask by the reported number and is the highest of all, and no ask after the
  -- last whole four is below the ask.
  pub scan_best_spread_lem :
      length bid_prices ≡ length ask_prices
      → length pool_ids ≡ length ask_prices
      → ((j c : ℕ) → get_elem? bid_prices j ≡ some c → c < 2 ^ 64)
      → (found : Option (ℕ × ℕ × ℕ)) × (scan_best_spread ask_prices bid_prices pool_ids
          ≡ some found)
        × ((f : ℕ × ℕ × ℕ) → found ≡ some f → IsSpread ask_prices bid_prices pool_ids f)
  unfolding scan_best_spread
  scan_best_spread_lem same ids words =
      let n = length ask_prices in
      let chunks = n / 4 in
      elim (Bool-cases (ltb n 2)) [
        | inl e ↦ (none, rw (e, if◌then◌else◌) refl, λ f g. absurd (cc))
        | inr e ↦
            let (u, f, ask0, bid0) =
              scan_fours_total ask_prices bid_prices chunks 0 start (omega arith)
                (omega (arith, same)) (inl refl)
                (record { bid = inl refl; high = λ j c m g. absurd (omega (arith, m)) }) in
            let here : (chunks + 0) * 4 ≡ chunks * 4 = omega arith in
            let (s, g, ask, bid, low) =
              scan_rest_total ask_prices bid_prices (chunks * 4) (n - chunks * 4) (chunks * 4) u
                (omega arith) (omega (arith, same)) ask0
                (subst (λ i. Bids ask_prices bid_prices i u) here bid0)
                (λ j c l m k. absurd (omega (arith, l, m))) in
            let all : n - chunks * 4 + chunks * 4 ≡ n = omega arith in
            elim (Bool-cases (ltb s.min_ask s.max_bid)) [
              | inr k ↦ (none, rw (e, if◌then◌else◌, f, ◌>>=◌, g, k) refl, λ f g. absurd (cc))
              | inl k ↦
                  let (found, r, sound) =
                    chosen s same ids words ask
                      (subst (λ i. Bids ask_prices bid_prices i s) all bid)
                      (subst (λ i. Low ask_prices bid_prices (chunks * 4) i s) all low) k in
                  (found, rw (e, if◌then◌else◌, f, ◌>>=◌, g, k) r, sound)
            ]
      ]
