-- ===== src/Mev/StateShadow.antt =====
-- src/mev/state_shadow.rs. A column of `MAX_POOLS` entries is a function on the indices, read and
-- written below `max_pools` only; `none` is a panic, of an index out of range or of a division by
-- zero. `debug_assert!` is off in the release profile.
pub mod Simulation
pub mod Queries
pub mod Reserves
pub mod Speculation
pub mod Revert
pub mod Dirty
pub mod Lookup
pub mod Events
mod Tests
use the_ai_cowboys_6_shooter.Prelude.{
  ℕ, zero, suc, ◌+◌, ◌-◌, ◌*◌, ◌/◌, ◌%◌, ◌^◌, ltb, leb, ◌==◌, ◌&&◌, ◌||◌, if◌then◌else◌, Bool, true,
  false, Option, none, some, ◌>>=◌, List, [], ◌∷◌,
}
use the_ai_cowboys_6_shooter.Prelude.Words.{
  add_u64, add_u128, sub_u128, mul_u128, div_u128, sub_u64, mul_u64,
}

abbrev pub max_pools : ℕ
max_pools = 4096

abbrev pub price_scale : ℕ
price_scale = 2 ^ 32

abbrev pub Column : Type 0
Column = ℕ → ℕ

abbrev pub put : Column → ℕ → ℕ → Column
put c i v j = if j == i then v else c j

pub record StateShadow : Type 0 where
  pub reserve_x : Column
  pub reserve_y : Column
  pub fee_num : Column
  pub fee_den : Column
  pub token_x_id : Column
  pub token_y_id : Column
  pub pool_keys : Column
  pub price_x_per_y : Column
  pub price_y_per_x : Column
  pub last_updated_slot : Column
  pub active : Column
  pub pool_count : ℕ
  pub confirmed_slot : ℕ
  pub spec_reserve_x : Column
  pub spec_reserve_y : Column
  pub spec_dirty_count : ℕ
  pub spec_dirty : Column

abbrev pub zeros : Column
zeros i = 0

unfoldable pub new : StateShadow
new = record {
  reserve_x = zeros;
  reserve_y = zeros;
  fee_num = zeros;
  fee_den = zeros;
  token_x_id = zeros;
  token_y_id = zeros;
  pool_keys = zeros;
  price_x_per_y = zeros;
  price_y_per_x = zeros;
  last_updated_slot = zeros;
  active = zeros;
  pool_count = 0;
  confirmed_slot = 0;
  spec_reserve_x = zeros;
  spec_reserve_y = zeros;
  spec_dirty_count = 0;
  spec_dirty = zeros;
}

-- `((a * PRICE_SCALE) / b) as u64`
abbrev pub price_of : ℕ → ℕ → ℕ
price_of a b = mul_u128 a price_scale / b % 2 ^ 64

-- A price over an empty reserve keeps its old value.
unfoldable pub recompute_price : StateShadow → ℕ → StateShadow
recompute_price s idx =
    let rx = s.reserve_x idx in
    let ry = s.reserve_y idx in
    record s {
      price_x_per_y =
          if ltb 0 ry then put s.price_x_per_y idx (price_of rx ry) else s.price_x_per_y;
      price_y_per_x =
          if ltb 0 rx then put s.price_y_per_x idx (price_of ry rx) else s.price_y_per_x;
    }

-- The arguments of `register_pool`.
pub record Registration : Type 0 where
  pub pool_key : ℕ
  pub token_x : ℕ
  pub token_y : ℕ
  pub reserve_x : ℕ
  pub reserve_y : ℕ
  pub fee_num : ℕ
  pub fee_den : ℕ
  pub slot : ℕ

unfoldable pub write_pool : StateShadow → Registration → ℕ → StateShadow
write_pool s r idx = record s {
  pool_keys = put s.pool_keys idx r.pool_key;
  token_x_id = put s.token_x_id idx r.token_x;
  token_y_id = put s.token_y_id idx r.token_y;
  reserve_x = put s.reserve_x idx r.reserve_x;
  reserve_y = put s.reserve_y idx r.reserve_y;
  spec_reserve_x = put s.spec_reserve_x idx r.reserve_x;
  spec_reserve_y = put s.spec_reserve_y idx r.reserve_y;
  fee_num = put s.fee_num idx r.fee_num;
  fee_den = put s.fee_den idx r.fee_den;
  last_updated_slot = put s.last_updated_slot idx r.slot;
  active = put s.active idx 1;
}

unfoldable pub count_pool : StateShadow → StateShadow
count_pool s = record s { pool_count = add_u64 s.pool_count 1 }

unfoldable pub register_pool : StateShadow → Registration → Option ℕ × StateShadow
register_pool s r = if leb max_pools s.pool_count then (none, s) else (
  some s.pool_count,
  count_pool (recompute_price (write_pool s r s.pool_count) s.pool_count),
)

unfoldable pub write_reserves : StateShadow → ℕ → ℕ → ℕ → ℕ → StateShadow
write_reserves s idx reserve_x reserve_y slot = record s {
  reserve_x = put s.reserve_x idx reserve_x;
  reserve_y = put s.reserve_y idx reserve_y;
  spec_reserve_x = put s.spec_reserve_x idx reserve_x;
  spec_reserve_y = put s.spec_reserve_y idx reserve_y;
  last_updated_slot = put s.last_updated_slot idx slot;
  spec_dirty = put s.spec_dirty idx 0;
}

unfoldable pub update_reserves : StateShadow → ℕ → ℕ → ℕ → ℕ → Option StateShadow
update_reserves s idx reserve_x reserve_y slot =
    if ltb idx max_pools
    then some (recompute_price (write_reserves s idx reserve_x reserve_y slot) idx)
    else none
