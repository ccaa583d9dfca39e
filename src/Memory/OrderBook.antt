-- ===== src/Memory/OrderBook.antt =====
-- src/memory/cache.rs, `SoAOrderBook`: one list for each column. `none` is the panic of an index
-- out of range. `len` counts rows in memory, so it is not near `2 ^ 64`.
pub mod Extremes
pub mod Rows
pub mod Spreads
pub mod Detect
mod Tests
use the_ai_cowboys_6_shooter.Prelude.{
  ℕ, zero, suc, ◌+◌, ◌-◌, ◌*◌, ltb, leb, ◌==◌, if◌then◌else◌, Bool, true, false, Option, none, some,
  List, [], ◌∷◌, ◌++◌, get_elem?, ◌>>=◌,
}

pub record SoaOrderBook : Type 0 where
  pub bid_prices : List ℕ
  pub bid_volumes : List ℕ
  pub ask_prices : List ℕ
  pub ask_volumes : List ℕ
  pub timestamps : List ℕ
  pub pool_ids : List ℕ
  pub len : ℕ

pub with_capacity : SoaOrderBook
with_capacity = record {
  bid_prices = [];
  bid_volumes = [];
  ask_prices = [];
  ask_volumes = [];
  timestamps = [];
  pool_ids = [];
  len = 0;
}

pub push : SoaOrderBook → ℕ → ℕ → ℕ → ℕ → ℕ → ℕ → SoaOrderBook
push b bid bid_vol ask ask_vol ts pool = record {
  bid_prices = b.bid_prices ++ (bid ∷ []);
  bid_volumes = b.bid_volumes ++ (bid_vol ∷ []);
  ask_prices = b.ask_prices ++ (ask ∷ []);
  ask_volumes = b.ask_volumes ++ (ask_vol ∷ []);
  timestamps = b.timestamps ++ (ts ∷ []);
  pool_ids = b.pool_ids ++ (pool ∷ []);
  len = b.len + 1;
}

pub clear : SoaOrderBook → SoaOrderBook
clear b = with_capacity

-- `(c) as usize`
abbrev pub bit : Bool → ℕ
bit true = 1
bit false = 0

-- The loops of `argmin_ask` and `argmax_bid` from the index `i` on, over the prices not yet seen.
pub argmin_from : List ℕ → ℕ → ℕ → ℕ → ℕ
argmin_from [] i min_idx min_val = min_idx
argmin_from (val ∷ rest) i min_idx min_val =
    let is_less = bit (ltb val min_val) in
    argmin_from rest (i + 1) (is_less * i + (1 - is_less) * min_idx)
      (if ltb val min_val then val else min_val)

pub argmax_from : List ℕ → ℕ → ℕ → ℕ → ℕ
argmax_from [] i max_idx max_val = max_idx
argmax_from (val ∷ rest) i max_idx max_val =
    let is_greater = bit (ltb max_val val) in
    argmax_from rest (i + 1) (is_greater * i + (1 - is_greater) * max_idx)
      (if ltb max_val val then val else max_val)

pub argmin : List ℕ → Option ℕ
argmin [] = none
argmin (first ∷ rest) = some (argmin_from rest 1 0 first)

pub argmax : List ℕ → Option ℕ
argmax [] = none
argmax (first ∷ rest) = some (argmax_from rest 1 0 first)

pub argmin_ask : SoaOrderBook → Option ℕ
argmin_ask b = argmin b.ask_prices

pub argmax_bid : SoaOrderBook → Option ℕ
argmax_bid b = argmax b.bid_prices

-- Buy at `ask_prices[i]`, sell at `bid_prices[j]`, for the difference.
pub record Opportunity : Type 0 where
  pub buy : ℕ
  pub sell : ℕ
  pub spread : ℕ

-- The body of the two loops of `detect_arbitrage`: what it pushes at `i` and `j`. The prices are
-- read only for two different pools.
pub spread_at : ℕ → ℕ → ℕ → ℕ → ℕ → List Opportunity
spread_at min_spread i j bid ask =
    if ltb ask bid
    then (if leb min_spread (bid - ask)
        then record { buy = i; sell = j; spread = bid - ask } ∷ []
        else [])
    else []

pub priced_at : SoaOrderBook → ℕ → ℕ → ℕ → Option (List Opportunity)
priced_at b min_spread i j = do
  bid ← get_elem? b.bid_prices j
  ask ← get_elem? b.ask_prices i
  some (spread_at min_spread i j bid ask)

pub other_pool_at : SoaOrderBook → ℕ → ℕ → ℕ → Option (List Opportunity)
other_pool_at b min_spread i j = do
  pool_i ← get_elem? b.pool_ids i
  pool_j ← get_elem? b.pool_ids j
  (if pool_i == pool_j then some [] else priced_at b min_spread i j)

pub opportunity_at : SoaOrderBook → ℕ → ℕ → ℕ → Option (List Opportunity)
opportunity_at b min_spread i j = if i == j then some [] else other_pool_at b min_spread i j

-- `for j in j..` with `rounds` rounds left, then `for i in i..`.
pub sells : SoaOrderBook → ℕ → ℕ → ℕ → ℕ → Option (List Opportunity)
sells b min_spread i zero j = some []
sells b min_spread i (suc rounds) j = do
  here ← opportunity_at b min_spread i j
  rest ← sells b min_spread i rounds (j + 1)
  some (here ++ rest)

pub buys : SoaOrderBook → ℕ → ℕ → ℕ → Option (List Opportunity)
buys b min_spread zero i = some []
buys b min_spread (suc rounds) i = do
  here ← sells b min_spread i b.len 0
  rest ← buys b min_spread rounds (i + 1)
  some (here ++ rest)

pub detect_arbitrage : SoaOrderBook → ℕ → Option (List Opportunity)
detect_arbitrage b min_spread = buys b min_spread b.len 0
