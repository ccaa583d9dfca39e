-- ===== src/Mev/Amm/Pairs.antt =====
-- The pairs under which `register_pool` lists a pool.
use the_ai_cowboys_6_shooter.Prelude.{
  ℕ, ◌≡◌, refl, sym, ◌==◌, ◌&&◌, eq→==, if◌then◌else◌, Bool-cases, Option-cases, some, some_inj,
  List, [], ◌∷◌, ◌++◌, In, inl, inr, In-append-left, In-append-right, eq_list, eq_list_same,
}
use the_ai_cowboys_6_shooter.Net.Solana.{Key}
use the_ai_cowboys_6_shooter.Memory.AmmPool.{AmmPool}
use the_ai_cowboys_6_shooter.Mev.Amm.Registry.{
  PoolRegistry, PairEntry, insert_pool, push_id, register_pool, lookup, ids_of, known, get_pool,
  get_pools_for_pair,
}

lookup-insert_pool :
    (pools : List AmmPool) (pool : AmmPool)
    → lookup (insert_pool pools pool) pool.pool_id ≡ some pool
unfolding lookup insert_pool
lookup-insert_pool [] pool = rw (eq→== pool.pool_id pool.pool_id refl) refl
lookup-insert_pool (p ∷ pools) pool = elim (Bool-cases (p.pool_id == pool.pool_id)) [
  | inl same ↦ rw (same, if◌then◌else◌, eq→== pool.pool_id pool.pool_id refl) refl
  | inr other ↦ rw (other, if◌then◌else◌, other) (lookup-insert_pool pools pool)
]

-- The list under a pair holds an id.
record Lists (index : List PairEntry) (a b : Key) (id : ℕ) : Type 0 where
  ids : List ℕ
  at : ids_of index a b ≡ some ids
  there : In id ids

push_id-Lists : (index : List PairEntry) (a b : Key) (id : ℕ) → Lists (push_id index a b id) a b id
unfolding push_id ids_of
push_id-Lists [] a b id = record {
  ids = id ∷ [];
  at = rw (eq_list_same a, eq_list_same b) refl;
  there = inl refl;
}
push_id-Lists (e ∷ index) a b id = elim (Bool-cases (eq_list e.token_a a && eq_list e.token_b b)) [
  | inl same ↦ record {
    ids = e.ids ++ id ∷ [];
    at = rw (push_id, same, if◌then◌else◌, same) refl;
    there = In-append-right id e.ids (id ∷ []) (inl refl);
  }
  | inr other ↦
      let rest = push_id-Lists index a b id in
      record {
        ids = rest.ids;
        at = rw (push_id, other, if◌then◌else◌, other) rest.at;
        there = rest.there;
      }
]

-- A push under any pair keeps what is listed.
push_id-keeps :
    (index : List PairEntry) (c d : Key) (new_id : ℕ) (a b : Key) (id : ℕ)
    → Lists index a b id
    → Lists (push_id index c d new_id) a b id
unfolding push_id ids_of
push_id-keeps [] c d new_id a b id l = absurd (let e = l.at in cc)
push_id-keeps (e ∷ index) c d new_id a b id l =
    elim (Bool-cases (eq_list e.token_a c && eq_list e.token_b d)) [
      | inl pushed ↦ elim (Bool-cases (eq_list e.token_a a && eq_list e.token_b b)) [
        | inl mine ↦
            let here : e.ids ≡ l.ids = some_inj (rw (mine, if◌then◌else◌) at l.at) in
            record {
              ids = e.ids ++ new_id ∷ [];
              at = rw (push_id, pushed, if◌then◌else◌, mine) refl;
              there = In-append-left id e.ids (new_id ∷ []) (rw (here) l.there);
            }
        | inr else_where ↦ record {
          ids = l.ids;
          at =
              rw (push_id, pushed, if◌then◌else◌, else_where)
                (rw (else_where, if◌then◌else◌) at l.at);
          there = l.there;
        }
      ]
      | inr kept ↦ elim (Bool-cases (eq_list e.token_a a && eq_list e.token_b b)) [
        | inl mine ↦ record {
          ids = l.ids;
          at = rw (push_id, kept, if◌then◌else◌, mine) (rw (mine, if◌then◌else◌) at l.at);
          there = l.there;
        }
        | inr else_where ↦
            let below : Lists index a b id = record {
              ids = l.ids;
              at = rw (else_where, if◌then◌else◌) at l.at;
              there = l.there;
            } in
            let rest = push_id-keeps index c d new_id a b id below in
            record {
              ids = rest.ids;
              at = rw (push_id, kept, if◌then◌else◌, else_where) rest.at;
              there = rest.there;
            }
      ]
    ]

known-In :
    (pools : List AmmPool) (ids : List ℕ) (id : ℕ) (p : AmmPool)
    → lookup pools id ≡ some p
    → In id ids
    → In p (known pools ids)
unfolding known
known-In pools [] id p e h = absurd h
known-In pools (i ∷ ids) id p e (inl same) =
    let found : lookup pools i ≡ some p = rw (sym same) e in rw (known, found) (inl refl)
known-In pools (i ∷ ids) id p e (inr h) = elim (Option-cases (lookup pools i)) [
  | inl missing ↦ rw (known, missing) (known-In pools ids id p e h)
  | inr (q, found) ↦ rw (known, found) (inr (known-In pools ids id p e h))
]

found_among :
    (r : PoolRegistry) (a b : Key) (p : AmmPool)
    → lookup r.pools p.pool_id ≡ some p
    → Lists r.pair_index a b p.pool_id
    → In p (get_pools_for_pair r a b)
unfolding get_pools_for_pair
found_among r a b p found l =
    let all : get_pools_for_pair r a b ≡ known r.pools l.ids = rw (get_pools_for_pair, l.at) refl in
    rw (all) (known-In r.pools l.ids p.pool_id p found l.there)

-- After `register_pool` the pool is found under its key, and it is among the pools of its two tokens
-- in either order, whatever was registered before.
pub register_pool-get_pools_for_pair :
    (r : PoolRegistry) (pool : AmmPool) (token_a token_b : Key)
    → (get_pool (register_pool r pool token_a token_b) pool.pool_id ≡ some pool)
      × In pool (get_pools_for_pair (register_pool r pool token_a token_b) token_a token_b)
      × In pool (get_pools_for_pair (register_pool r pool token_a token_b) token_b token_a)
unfolding register_pool get_pool get_pools_for_pair
register_pool-get_pools_for_pair r pool a b =
    let id = pool.pool_id in
    let pools = insert_pool r.pools pool in
    let found = lookup-insert_pool r.pools pool in
    let once = push_id r.pair_index a b id in
    let forth = push_id-keeps once b a id a b id (push_id-Lists r.pair_index a b id) in
    let back = push_id-Lists once b a id in
    (
      found,
      found_among (register_pool r pool a b) a b pool found forth,
      found_among (register_pool r pool a b) b a pool found back,
    )
