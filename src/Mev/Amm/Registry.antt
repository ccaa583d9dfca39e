-- ===== src/Mev/Amm/Registry.antt =====
-- `PoolRegistry` of src/mev/amm.rs. A `HashMap` is an association list; the key of a pool is the
-- number that `AmmPool` holds, that of a token the list of its bytes.
use the_ai_cowboys_6_shooter.Prelude.{
  ℕ, ◌==◌, ◌&&◌, if◌then◌else◌, Option, none, some, List, [], ◌∷◌, ◌++◌, length, eq_list,
}
use the_ai_cowboys_6_shooter.Net.Solana.{Key}
use the_ai_cowboys_6_shooter.Memory.AmmPool.{AmmPool}

-- The pools of one pair of tokens.
pub record PairEntry : Type 0 where
  pub token_a : Key
  pub token_b : Key
  pub ids : List ℕ

pub record PoolRegistry : Type 0 where
  pub pools : List AmmPool
  pub pair_index : List PairEntry

unfoldable pub new : PoolRegistry
new = record { pools = []; pair_index = [] }

-- `pools.insert(id, pool)`
unfoldable pub insert_pool : List AmmPool → AmmPool → List AmmPool
insert_pool [] pool = pool ∷ []
insert_pool (p ∷ pools) pool =
    if p.pool_id == pool.pool_id then pool ∷ pools else (p ∷ insert_pool pools pool)

-- `pair_index.entry((a, b)).or_default().push(id)`
unfoldable pub push_id : List PairEntry → Key → Key → ℕ → List PairEntry
push_id [] a b id = record { token_a = a; token_b = b; ids = id ∷ [] } ∷ []
push_id (e ∷ index) a b id =
    if eq_list e.token_a a && eq_list e.token_b b
    then record e { ids = e.ids ++ id ∷ [] } ∷ index
    else (e ∷ push_id index a b id)

unfoldable pub register_pool : PoolRegistry → AmmPool → Key → Key → PoolRegistry
register_pool r pool token_a token_b = record {
  pools = insert_pool r.pools pool;
  pair_index =
      push_id (push_id r.pair_index token_a token_b pool.pool_id) token_b token_a pool.pool_id;
}

unfoldable pub lookup : List AmmPool → ℕ → Option AmmPool
lookup [] id = none
lookup (p ∷ pools) id = if p.pool_id == id then some p else lookup pools id

unfoldable pub get_pool : PoolRegistry → ℕ → Option AmmPool
get_pool r id = lookup r.pools id

-- `pair_index.get(&(a, b))`
unfoldable pub ids_of : List PairEntry → Key → Key → Option (List ℕ)
ids_of [] a b = none
ids_of (e ∷ index) a b =
    if eq_list e.token_a a && eq_list e.token_b b then some e.ids else ids_of index a b

-- `ids.iter().filter_map(|id| self.pools.get(id))`
unfoldable pub known : List AmmPool → List ℕ → List AmmPool
known pools [] = []
known pools (id ∷ ids) = elim (lookup pools id) [
  | none ↦ known pools ids
  | some p ↦ p ∷ known pools ids
]

unfoldable pub get_pools_for_pair : PoolRegistry → Key → Key → List AmmPool
get_pools_for_pair r a b = elim (ids_of r.pair_index a b) [
  | none ↦ []
  | some ids ↦ known r.pools ids
]

unfoldable pub pool_count : PoolRegistry → ℕ
pool_count r = length r.pools
