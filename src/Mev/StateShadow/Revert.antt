-- ===== src/Mev/StateShadow/Revert.antt =====
-- The loop of `revert_speculative` and its two callers.
use the_ai_cowboys_6_shooter.Prelude.{
  ℕ, zero, suc, ◌+◌, ◌≤◌, ◌<◌, ◌≡◌, refl, arith, ltb, leb, ◌&&◌, if◌then◌else◌, some, ◌>>=◌, lt→ltb,
  ap,
}
use the_ai_cowboys_6_shooter.Mev.StateShadow.{StateShadow, max_pools}
use the_ai_cowboys_6_shooter.Mev.StateShadow.Simulation.{
  revert_one, revert_from, revert_speculative, on_new_block,
}
use the_ai_cowboys_6_shooter.Mev.StateShadow.Reserves.{Confirmed, confirmed}

-- `t` is `s` with the overlay of the pools from `i` on, `rounds` of them, set back.
pub record Reverted (i rounds : ℕ) (s t : StateShadow) : Type 0 where
  pub same : confirmed t ≡ confirmed s
  pub count : t.spec_dirty_count ≡ s.spec_dirty_count
  pub overlay_x :
      (j : ℕ)
      → t.spec_reserve_x j
        ≡ (if leb i j && ltb j (i + rounds) then s.reserve_x j else s.spec_reserve_x j)
  pub overlay_y :
      (j : ℕ)
      → t.spec_reserve_y j
        ≡ (if leb i j && ltb j (i + rounds) then s.reserve_y j else s.spec_reserve_y j)
  pub clean :
      (j : ℕ) → t.spec_dirty j ≡ (if leb i j && ltb j (i + rounds) then 0 else s.spec_dirty j)

pub revert_from-Reverted :
    (rounds i : ℕ) (s : StateShadow)
    → i + rounds ≤ max_pools
    → (t : StateShadow) × (revert_from rounds i s ≡ some t) × Reverted i rounds s t
unfolding revert_from
revert_from-Reverted zero i s h = (
  s,
  refl,
  record {
    same = refl;
    count = refl;
    overlay_x = λ j. ground arith;
    overlay_y = λ j. ground arith;
    clean = λ j. ground arith;
  },
)
revert_from-Reverted (suc rounds) i s h =
    turn (revert_from-Reverted rounds (i + 1) (revert_one s i) (omega arith))
  where
    turn :
        ((t : StateShadow) × (revert_from rounds (i + 1) (revert_one s i) ≡ some t)
          × Reverted (i + 1) rounds (revert_one s i) t)
        → (t : StateShadow) × (revert_from (suc rounds) i s ≡ some t) × Reverted i (suc rounds) s t
    turn (t, run, r) = (
      t,
      rw (revert_from, lt→ltb i max_pools (omega arith)) run,
      unfold revert_one in
          record {
            same = r.same;
            count = r.count;
            overlay_x = λ j. ground (arith, r.overlay_x j);
            overlay_y = λ j. ground (arith, r.overlay_y j);
            clean = λ j. ground (arith, r.clean j);
          },
    )

-- The overlay of every pool shows its confirmed reserves, and none is marked.
pub record IsClean (s : StateShadow) : Type 0 where
  pub count : s.spec_dirty_count ≡ 0
  pub overlay_x : (j : ℕ) → j < s.pool_count → s.spec_reserve_x j ≡ s.reserve_x j
  pub overlay_y : (j : ℕ) → j < s.pool_count → s.spec_reserve_y j ≡ s.reserve_y j
  pub flags : (j : ℕ) → j < s.pool_count → s.spec_dirty j ≡ 0

pub revert_lem :
    (s : StateShadow)
    → s.pool_count ≤ max_pools
    → (t : StateShadow) × (revert_speculative s ≡ some t)
      × (confirmed t ≡ confirmed s)
      × IsClean t
      × ((j : ℕ) → s.pool_count ≤ j → t.spec_dirty j ≡ s.spec_dirty j)
unfolding revert_speculative
revert_lem s few =
    let (t, run, r) = revert_from-Reverted s.pool_count 0 s (omega arith) in
    let same = r.same in
    let pools : t.pool_count ≡ s.pool_count = ap (λ (c : Confirmed). c.pool_count) same in
    let xs : t.reserve_x ≡ s.reserve_x = ap (λ (c : Confirmed). c.reserve_x) same in
    let ys : t.reserve_y ≡ s.reserve_y = ap (λ (c : Confirmed). c.reserve_y) same in
    (
      record t { spec_dirty_count = 0 },
      rw (run, ◌>>=◌),
      same,
      record {
        count = refl;
        overlay_x = λ j h. rw xs (ground (arith, r.overlay_x j, pools));
        overlay_y = λ j h. rw ys (ground (arith, r.overlay_y j, pools));
        flags = λ j h. ground (arith, r.clean j, pools);
      },
      λ j h. ground (arith, r.clean j),
    )

-- While at most `MAX_POOLS` pools are registered, a new block never panics: it stores the slot,
-- leaves everything else that is confirmed as it was, sets the speculative reserves of every pool
-- back to the confirmed ones, and clears every mark and the count of marks.
pub on_new_block_lem :
    (s : StateShadow) (slot : ℕ)
    → s.pool_count ≤ max_pools
    → (t : StateShadow) × (on_new_block s slot ≡ some t)
      × (confirmed t ≡ confirmed (record s { confirmed_slot = slot }))
      × IsClean t
unfolding on_new_block
on_new_block_lem s slot few =
    let (t, run, same, clean, _) = revert_lem (record s { confirmed_slot = slot }) few in
    (t, run, same, clean)
