-- ===== src/Memory/OrderBook/Spreads.antt =====
-- One round of `detect_arbitrage` against a description of the pairs it should report.
use the_ai_cowboys_6_shooter.Prelude.{
  ℕ, ◌-◌, ◌≤◌, ◌<◌, ◌≡◌, ◌≢◌, refl, arith, ◌==◌, some, List, [], ◌∷◌, get_elem?, if◌then◌else◌, In,
  ◌⊎◌, inl, inr, get_elem?-inside,
}
use the_ai_cowboys_6_shooter.Memory.OrderBook.{
  SoaOrderBook, Opportunity, spread_at, priced_at, other_pool_at, opportunity_at,
}
use the_ai_cowboys_6_shooter.Memory.OrderBook.Rows.{IsRectangular}

-- Rows of two different pools, where the bid of one exceeds the ask of the other by the spread,
-- which is at least the least wanted.
pub record IsOpportunity (b : SoaOrderBook) (min_spread : ℕ) (o : Opportunity) : Type 0 where
  pub bid : ℕ
  pub ask : ℕ
  pub buy_pool : ℕ
  pub sell_pool : ℕ
  pub at_bid : get_elem? b.bid_prices o.sell ≡ some bid
  pub at_ask : get_elem? b.ask_prices o.buy ≡ some ask
  pub at_buy : get_elem? b.pool_ids o.buy ≡ some buy_pool
  pub at_sell : get_elem? b.pool_ids o.sell ≡ some sell_pool
  pub other_pool : buy_pool ≢ sell_pool
  pub gain : ask < bid
  pub exact : o.spread ≡ bid - ask
  pub enough : min_spread ≤ o.spread

module _ {b : SoaOrderBook} (min_spread : ℕ) (r : IsRectangular b) where
  -- The entries that the body reads at `i` and `j`, when both are inside.
  pub record Reads (i j : ℕ) : Type 0 where
    pub bid : ℕ
    pub ask : ℕ
    pub pool_i : ℕ
    pub pool_j : ℕ
    pub at_bid : get_elem? b.bid_prices j ≡ some bid
    pub at_ask : get_elem? b.ask_prices i ≡ some ask
    pub at_i : get_elem? b.pool_ids i ≡ some pool_i
    pub at_j : get_elem? b.pool_ids j ≡ some pool_j

  pub reads : (i j : ℕ) → i < b.len → j < b.len → Reads i j
  reads i j hi hj =
      let (bid, at_bid) = get_elem?-inside b.bid_prices j (omega arith) in
      let (ask, at_ask) = get_elem?-inside b.ask_prices i (omega arith) in
      let (pool_i, at_i) = get_elem?-inside b.pool_ids i (omega arith) in
      let (pool_j, at_j) = get_elem?-inside b.pool_ids j (omega arith) in
      record {
        bid = bid;
        ask = ask;
        pool_i = pool_i;
        pool_j = pool_j;
        at_bid = at_bid;
        at_ask = at_ask;
        at_i = at_i;
        at_j = at_j;
      }

  pub found : (i j : ℕ) → Reads i j → List Opportunity
  found i j s =
      if i == j
      then []
      else if s.pool_i == s.pool_j
      then []
      else spread_at min_spread i j s.bid s.ask

  pub found_lem : (i j : ℕ) (s : Reads i j) → opportunity_at b min_spread i j ≡ some (found i j s)
  unfolding opportunity_at other_pool_at priced_at found
  found_lem i j s = ground (arith, s.at_bid, s.at_ask, s.at_i, s.at_j)

  abbrev quote : (i j : ℕ) → Reads i j → Opportunity
  quote i j s = record { buy = i; sell = j; spread = s.bid - s.ask }

  -- The pair is reported exactly when it passes every test.
  record Passes (i j : ℕ) (s : Reads i j) : Type 0 where
    two : i ≢ j
    other_pool : s.pool_i ≢ s.pool_j
    gain : s.ask < s.bid
    enough : min_spread ≤ s.bid - s.ask

  found-cases :
      (i j : ℕ) (s : Reads i j)
      → ((found i j s ≡ []) × (Passes i j s → ⊥))
        ⊎ ((found i j s ≡ quote i j s ∷ []) × Passes i j s)
  unfolding found spread_at
  found-cases i j s = ground arith

  pub found_sound :
      (i j : ℕ) (s : Reads i j) (o : Opportunity)
      → In o (found i j s)
      → (o.buy ≡ i) × (o.sell ≡ j) × IsOpportunity b min_spread o
  found_sound i j s o h = elim (found-cases i j s) [
    | inl (none', _) ↦ absurd (rw none' at h)
    | inr (one, p) ↦ from_quote p (rw one at h)
  ]
    where
      from_quote :
          Passes i j s
          → In o (quote i j s ∷ [])
          → (o.buy ≡ i) × (o.sell ≡ j) × IsOpportunity b min_spread o
      from_quote p (inl e) = rw e (
        refl,
        refl,
        record {
          bid = s.bid;
          ask = s.ask;
          buy_pool = s.pool_i;
          sell_pool = s.pool_j;
          at_bid = s.at_bid;
          at_ask = s.at_ask;
          at_buy = s.at_i;
          at_sell = s.at_j;
          other_pool = p.other_pool;
          gain = p.gain;
          exact = refl;
          enough = p.enough;
        },
      )
      from_quote p (inr h) = absurd h

  pub found_complete :
      (i j : ℕ) (s : Reads i j) (o : Opportunity)
      → o.buy ≡ i
      → o.sell ≡ j
      → IsOpportunity b min_spread o
      → In o (found i j s)
  found_complete i j s o ei ej w = elim (found-cases i j s) [
    | inl (_, fails) ↦ absurd (fails passes)
    | inr (one, _) ↦ rw one (inl same)
  ]
    where
      bids : s.bid ≡ w.bid
      bids = ground (arith, s.at_bid, w.at_bid, ej)

      asks : s.ask ≡ w.ask
      asks = ground (arith, s.at_ask, w.at_ask, ei)

      pool_i : s.pool_i ≡ w.buy_pool
      pool_i = ground (arith, s.at_i, w.at_buy, ei)

      pool_j : s.pool_j ≡ w.sell_pool
      pool_j = ground (arith, s.at_j, w.at_sell, ej)

      same : o ≡ quote i j s
      same = ground (arith, bids, asks, w.exact)

      passes : Passes i j s
      passes = record {
        two = λ e. w.other_pool (ground (arith, e, w.at_buy, w.at_sell, ei, ej));
        other_pool = λ e. w.other_pool (ground (arith, e, pool_i, pool_j));
        gain = omega (arith, bids, asks, w.gain);
        enough = omega (arith, bids, asks, w.exact, w.enough);
      }
