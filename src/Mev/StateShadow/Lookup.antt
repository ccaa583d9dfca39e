-- ===== src/Mev/StateShadow/Lookup.antt =====
-- What the two linear searches find.
use the_ai_cowboys_6_shooter.Prelude.{
  ℕ, zero, suc, ◌+◌, ◌≤◌, ◌<◌, ◌≡◌, ◌≢◌, refl, sym, arith, ltb, ◌==◌, ◌&&◌, true, false, Option,
  some, none, ◌>>=◌, List, [], ◌∷◌, Bool-cases, inl, inr, lt→ltb, In, ◌↔◌, ==→eq, ==_false→ne,
}
use mathlib.Core.Bool.{or_comm}
use mathlib.Core.Path.{subst}
use the_ai_cowboys_6_shooter.Mev.StateShadow.{StateShadow, max_pools}
use the_ai_cowboys_6_shooter.Mev.StateShadow.Queries.{
  find_from, find_pool, trades, pools_from, find_pools_for_pair,
}

-- The answer of a search for `key` among the pools from `i` on, `rounds` of them.
abbrev pub IsFirst : StateShadow → ℕ → ℕ → ℕ → Option ℕ → Type 0
IsFirst s key i rounds none = (j : ℕ) → i ≤ j → j < i + rounds → s.pool_keys j ≢ key
IsFirst s key i rounds (some p) =
    (i ≤ p)
    × (p < i + rounds)
    × (s.pool_keys p ≡ key)
    × ((j : ℕ) → i ≤ j → j < p → s.pool_keys j ≢ key)

find_from-IsFirst :
    (s : StateShadow) (key rounds i : ℕ)
    → i + rounds ≤ max_pools
    → (o : Option ℕ) × (find_from s key rounds i ≡ some o) × IsFirst s key i rounds o
unfolding find_from
find_from-IsFirst s key zero i h = (none, refl, λ j l u. absurd (omega arith))
find_from-IsFirst s key (suc rounds) i h = elim (Bool-cases (s.pool_keys i == key)) [
  | inl e ↦ (
    some i,
    rw (find_from, lt→ltb i max_pools (omega arith), e),
    (omega arith, omega arith, ==→eq (s.pool_keys i) key e, λ j l u. absurd (omega arith)),
  )
  | inr e ↦ turn e (find_from-IsFirst s key rounds (i + 1) (omega arith))
]
  where
    turn :
        (s.pool_keys i == key) ≡ false
        → ((o : Option ℕ) × (find_from s key rounds (i + 1) ≡ some o)
            × IsFirst s key (i + 1) rounds o)
        → (o : Option ℕ) × (find_from s key (suc rounds) i ≡ some o)
          × IsFirst s key i (suc rounds) o
    turn e (none, run, r) = (
      none,
      rw (find_from, lt→ltb i max_pools (omega arith), e) run,
      λ j l u. ground (arith, e, r j),
    )
    turn e (some p, run, r) = (
      some p,
      rw (find_from, lt→ltb i max_pools (omega arith), e) run,
      (omega (arith, r.0), omega (arith, r.1), r.2, λ j l u. ground (arith, e, r.3 j)),
    )

-- While at most `MAX_POOLS` pools are registered, `find_pool` never panics and finds the registered
-- pool with the key whose index is the smallest, or nothing when no registered pool has the key.
pub find_pool_lem :
    (s : StateShadow) (key : ℕ)
    → s.pool_count ≤ max_pools
    → (o : Option ℕ) × (find_pool s key ≡ some o) × IsFirst s key 0 s.pool_count o
unfolding find_pool
find_pool_lem s key few = find_from-IsFirst s key s.pool_count 0 (omega arith)

-- Pool `j` is among the `rounds` from `i` on, is active and trades the pair.
abbrev pub Found : StateShadow → ℕ → ℕ → ℕ → ℕ → ℕ → Type 0
Found s a b i rounds j = (i ≤ j) × (j < i + rounds) × (s.active j ≢ 0) × (trades s a b j ≡ true)

abbrev pub Finds : StateShadow → ℕ → ℕ → ℕ → ℕ → List ℕ → Type 0
Finds s a b i rounds l = (j : ℕ) → In j l ↔ Found s a b i rounds j

Finds-skip :
    (s : StateShadow) (a b i rounds : ℕ) (l : List ℕ)
    → (s.active i ≢ 0 → trades s a b i ≡ true → ⊥)
    → Finds s a b (i + 1) rounds l
    → Finds s a b i (suc rounds) l
Finds-skip s a b i rounds l off r j = (to, from)
  where
    to : In j l → Found s a b i (suc rounds) j
    to m = let (low, high, l_on, l_pair) = (r j).0 m in (omega arith, omega arith, l_on, l_pair)

    from : Found s a b i (suc rounds) j → In j l
    from (low, high, on, pair) = elim (Bool-cases (i == j)) [
      | inl e ↦ absurd (
          off (λ z. on (ground (arith, z, e)))
            (subst (λ x. trades s a b x ≡ true) (sym (==→eq i j e)) pair))
      | inr e ↦ let ne = ==_false→ne i j e in (r j).1 (omega (arith, ne), omega arith, on, pair)
    ]

Finds-take :
    (s : StateShadow) (a b i rounds : ℕ) (l : List ℕ)
    → s.active i ≢ 0
    → trades s a b i ≡ true
    → Finds s a b (i + 1) rounds l
    → Finds s a b i (suc rounds) (i ∷ l)
Finds-take s a b i rounds l on pair r j = (to, from)
  where
    to : In j (i ∷ l) → Found s a b i (suc rounds) j
    to (inl e) =
        subst (λ x. Found s a b i (suc rounds) x) (sym e) (omega arith, omega arith, on, pair)
    to (inr m) =
        let (low, high, l_on, l_pair) = (r j).0 m in (omega arith, omega arith, l_on, l_pair)

    from : Found s a b i (suc rounds) j → In j (i ∷ l)
    from (low, high, f_on, f_pair) = elim (Bool-cases (i == j)) [
      | inl e ↦ inl (sym (==→eq i j e))
      | inr e ↦
          let ne = ==_false→ne i j e in inr ((r j).1 (omega (arith, ne), omega arith, f_on, f_pair))
    ]

pools_from-Finds :
    (s : StateShadow) (a b rounds i : ℕ)
    → i + rounds ≤ max_pools
    → (l : List ℕ) × (pools_from s a b rounds i ≡ some l) × Finds s a b i rounds l
unfolding pools_from
pools_from-Finds s a b zero i h =
    ([], refl, λ j. (λ bad. absurd bad, λ (l, u, _, _). absurd (omega arith)))
pools_from-Finds s a b (suc rounds) i h =
    let (l, run, r) = pools_from-Finds s a b rounds (i + 1) (omega arith) in
    let go = lt→ltb i max_pools (omega arith) in
    elim (Bool-cases (s.active i == 0)) [
      | inl off ↦ (
        l,
        rw (pools_from, go, run, ◌>>=◌, off),
        Finds-skip s a b i rounds l (λ on pair. on (==→eq (s.active i) 0 off)) r,
      )
      | inr on ↦ elim (Bool-cases (trades s a b i)) [
        | inl both ↦ (
          i ∷ l,
          rw (pools_from, go, run, ◌>>=◌, on, both),
          Finds-take s a b i rounds l (==_false→ne (s.active i) 0 on) both r,
        )
        | inr other ↦ (
          l,
          rw (pools_from, go, run, ◌>>=◌, on, other),
          Finds-skip s a b i rounds l (λ _ pair. absurd (cc)) r,
        )
      ]
    ]

pools_from_comm :
    (s : StateShadow) (a b rounds i : ℕ) → pools_from s b a rounds i ≡ pools_from s a b rounds i
unfolding pools_from
pools_from_comm s a b zero i = refl
pools_from_comm s a b (suc rounds) i =
    let rest = pools_from_comm s a b rounds (i + 1) in
    let swap =
      or_comm (s.token_x_id i == b && s.token_y_id i == a)
        (s.token_x_id i == a && s.token_y_id i == b) in
    elim (Bool-cases (ltb i max_pools)) [
      | inl e ↦ rw (pools_from, e, rest, swap)
      | inr e ↦ rw (pools_from, e)
    ]

-- While at most `MAX_POOLS` pools are registered, `find_pools_for_pair` never panics; the indices
-- that it lists are those of the registered pools that are active and trade the two tokens in one
-- order or the other; and the order in which the tokens are named changes nothing.
pub find_pools_for_pair_lem :
    (s : StateShadow) (a b : ℕ)
    → s.pool_count ≤ max_pools
    → (l : List ℕ) × (find_pools_for_pair s a b ≡ some l)
      × Finds s a b 0 s.pool_count l
      × (find_pools_for_pair s b a ≡ find_pools_for_pair s a b)
unfolding find_pools_for_pair
find_pools_for_pair_lem s a b few =
    let (l, run, r) = pools_from-Finds s a b s.pool_count 0 (omega arith) in
    (l, run, r, pools_from_comm s a b s.pool_count 0)
