-- ===== src/Memory/OrderBook/Tests.antt =====
-- The books of the repository's tests, and the theorems of the sibling modules at them.
use the_ai_cowboys_6_shooter.Prelude.{◌≡◌, ◌↔◌, refl, arith, some, none, List, [], ◌∷◌, In}
use the_ai_cowboys_6_shooter.Memory.OrderBook.{
  SoaOrderBook, Opportunity, with_capacity, push, clear, argmin, argmin_from, argmin_ask, argmax,
  argmax_from, argmax_bid, spread_at, priced_at, other_pool_at, opportunity_at, sells, buys,
  detect_arbitrage,
}
use the_ai_cowboys_6_shooter.Memory.OrderBook.Rows.{IsRectangular, Quote}
use the_ai_cowboys_6_shooter.Memory.OrderBook.Spreads.{IsOpportunity}
use the_ai_cowboys_6_shooter.Memory.OrderBook.Detect.{detect_arbitrage_lem}

abbrev two : SoaOrderBook
two = record {
  bid_prices = 100 ∷ 110 ∷ [];
  bid_volumes = 10 ∷ 20 ∷ [];
  ask_prices = 105 ∷ 103 ∷ [];
  ask_volumes = 10 ∷ 20 ∷ [];
  timestamps = 1000 ∷ 1001 ∷ [];
  pool_ids = 0 ∷ 1 ∷ [];
  len = 2;
}

book-two : push (push with_capacity 100 10 105 10 1000 0) 110 20 103 20 1001 1 ≡ two
unfolding push with_capacity
book-two = refl

extremes : (argmin_ask two ≡ some 1) × (argmax_bid two ≡ some 1)
unfolding argmin_ask argmin argmin_from argmax_bid argmax argmax_from
extremes = (refl, refl)

extremes_empty : (b : SoaOrderBook) → (argmin_ask (clear b) ≡ none) × (argmax_bid (clear b) ≡ none)
unfolding clear with_capacity argmin_ask argmin argmax_bid argmax
extremes_empty b = (refl, refl)

detect-two : detect_arbitrage two 1 ≡ some (record { buy = 0; sell = 1; spread = 5 } ∷ [])
unfolding detect_arbitrage buys sells opportunity_at other_pool_at priced_at spread_at
detect-two = refl

two-IsRectangular : IsRectangular two
two-IsRectangular = omega arith

abbrev quote : Quote
quote = record {
  bid = 99;
  bid_volume = 15;
  ask = 108;
  ask_volume = 15;
  timestamp = 1002;
  pool_id = 2;
}

detect_arbitrage_lem_example :
    (out : List Opportunity) × (detect_arbitrage two 1 ≡ some out)
    × ((o : Opportunity) → In o out ↔ IsOpportunity two 1 o)
detect_arbitrage_lem_example = detect_arbitrage_lem 1 two-IsRectangular
