-- ===== src/Memory/OrderBook/Rows.antt =====
-- The six columns as one table of rows.
use the_ai_cowboys_6_shooter.Prelude.{
  ℕ, ◌≡◌, arith, Option, some, [], ◌∷◌, get_elem?, length, ◌==◌, if◌then◌else◌, ◌>>=◌,
  length-append, get_elem?-append_one,
}
use the_ai_cowboys_6_shooter.Memory.OrderBook.{SoaOrderBook, with_capacity, push, clear}

-- Every column has `len` entries.
pub record IsRectangular (b : SoaOrderBook) : Type 0 where
  pub bids : length b.bid_prices ≡ b.len
  pub bid_sizes : length b.bid_volumes ≡ b.len
  pub asks : length b.ask_prices ≡ b.len
  pub ask_sizes : length b.ask_volumes ≡ b.len
  pub times : length b.timestamps ≡ b.len
  pub pools : length b.pool_ids ≡ b.len

pub record Quote : Type 0 where
  pub bid : ℕ
  pub bid_volume : ℕ
  pub ask : ℕ
  pub ask_volume : ℕ
  pub timestamp : ℕ
  pub pool_id : ℕ

pub row : SoaOrderBook → ℕ → Option Quote
row b i = do
  bid ← get_elem? b.bid_prices i
  bid_volume ← get_elem? b.bid_volumes i
  ask ← get_elem? b.ask_prices i
  ask_volume ← get_elem? b.ask_volumes i
  timestamp ← get_elem? b.timestamps i
  pool_id ← get_elem? b.pool_ids i
  some (record {
    bid = bid;
    bid_volume = bid_volume;
    ask = ask;
    ask_volume = ask_volume;
    timestamp = timestamp;
    pool_id = pool_id;
  })

pub clear-IsRectangular : (b : SoaOrderBook) → IsRectangular (clear b)
unfolding clear with_capacity
clear-IsRectangular b = omega arith

pub push-IsRectangular :
    {b : SoaOrderBook} (q : Quote)
    → IsRectangular b
    → IsRectangular (push b q.bid q.bid_volume q.ask q.ask_volume q.timestamp q.pool_id)
unfolding push
push-IsRectangular {b} q r = omega (
  arith,
  length-append b.bid_prices (q.bid ∷ []),
  length-append b.bid_volumes (q.bid_volume ∷ []),
  length-append b.ask_prices (q.ask ∷ []),
  length-append b.ask_volumes (q.ask_volume ∷ []),
  length-append b.timestamps (q.timestamp ∷ []),
  length-append b.pool_ids (q.pool_id ∷ []),
)

-- `push` on columns of equal length keeps them so, puts its arguments in one row at the old
-- length, and changes no other row.
pub push-row :
    {b : SoaOrderBook} (q : Quote) (i : ℕ)
    → IsRectangular b
    → let b' = push b q.bid q.bid_volume q.ask q.ask_volume q.timestamp q.pool_id in
      IsRectangular b' × (row b' i ≡ (if i == b.len then some q else row b i))
unfolding push row
push-row {b} q i r = (
  push-IsRectangular q r,
  ground (
    arith,
    get_elem?-append_one b.bid_prices q.bid i,
    get_elem?-append_one b.bid_volumes q.bid_volume i,
    get_elem?-append_one b.ask_prices q.ask i,
    get_elem?-append_one b.ask_volumes q.ask_volume i,
    get_elem?-append_one b.timestamps q.timestamp i,
    get_elem?-append_one b.pool_ids q.pool_id i,
  ),
)
