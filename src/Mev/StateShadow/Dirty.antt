-- ===== src/Mev/StateShadow/Dirty.antt =====
-- The marks of the overlay, their count, and the invariant that ties them to the reserves.
use the_ai_cowboys_6_shooter.Prelude.{
  ℕ, zero, suc, ◌+◌, ◌≤◌, ◌<◌, ◌≡◌, ◌≢◌, refl, ap, ◌∙◌, arith, ltb, leb, ◌==◌, if◌then◌else◌, Bool,
  true, false, some, Bool-cases, inl, inr, ltb→lt, ltb_false→le,
}
use the_ai_cowboys_6_shooter.Mev.StateShadow.{
  StateShadow, Registration, Column, put, max_pools, new, register_pool, recompute_price,
  write_pool, count_pool, update_reserves, write_reserves,
}
use the_ai_cowboys_6_shooter.Mev.StateShadow.Simulation.{
  Filled, fill, write_spec, apply_speculative_swap, on_new_block,
}
use the_ai_cowboys_6_shooter.Mev.StateShadow.Reserves.{Confirmed, confirmed, Applied, apply-Applied}
use the_ai_cowboys_6_shooter.Mev.StateShadow.Revert.{IsClean, revert_lem}

-- The pools that were never registered carry no mark and no fee denominator.
pub record Inv (s : StateShadow) : Type 0 where
  pub few : s.pool_count ≤ max_pools
  pub clean_x : (j : ℕ) → j < s.pool_count → s.spec_dirty j ≡ 0 → s.spec_reserve_x j ≡ s.reserve_x j
  pub clean_y : (j : ℕ) → j < s.pool_count → s.spec_dirty j ≡ 0 → s.spec_reserve_y j ≡ s.reserve_y j
  pub blank_fee : (j : ℕ) → s.pool_count ≤ j → s.fee_den j ≡ 0
  pub blank_mark : (j : ℕ) → s.pool_count ≤ j → s.spec_dirty j ≡ 0

pub new-Inv : Inv new
unfolding new
new-Inv = record {
  few = omega arith;
  clean_x = λ j h e. refl;
  clean_y = λ j h e. refl;
  blank_fee = λ j h. refl;
  blank_mark = λ j h. refl;
}

pub register_pool-Inv : (s : StateShadow) (r : Registration) → Inv s → Inv (register_pool s r).1
unfolding register_pool recompute_price write_pool count_pool
register_pool-Inv s r inv = elim (Bool-cases (leb max_pools s.pool_count)) [
  | inl e ↦ rw (e, if◌then◌else◌) inv
  | inr e ↦
      rw (e, if◌then◌else◌)
        record {
          few = ground (arith, e);
          clean_x = λ j h d. ground (arith, e, inv.clean_x j);
          clean_y = λ j h d. ground (arith, e, inv.clean_y j);
          blank_fee = λ j h. ground (arith, e, inv.blank_fee j);
          blank_mark = λ j h. ground (arith, e, inv.blank_mark j);
        }
]

pub updated-Inv :
    (s : StateShadow) (idx rx ry slot : ℕ)
    → Inv s
    → Inv (recompute_price (write_reserves s idx rx ry slot) idx)
unfolding recompute_price write_reserves
updated-Inv s idx rx ry slot inv = record {
  few = inv.few;
  clean_x = λ j h d. ground (arith, inv.clean_x j);
  clean_y = λ j h d. ground (arith, inv.clean_y j);
  blank_fee = inv.blank_fee;
  blank_mark = λ j h. ground (arith, inv.blank_mark j);
}

pub write_spec-Inv :
    (s : StateShadow) (idx rx ry : ℕ) → idx < s.pool_count → Inv s → Inv (write_spec s idx rx ry)
unfolding write_spec
write_spec-Inv s idx rx ry h inv = elim (Bool-cases (s.spec_dirty idx == 0)) [
  | inl e ↦
      rw (e, if◌then◌else◌)
        record {
          few = inv.few;
          clean_x = λ j l d. ground (arith, inv.clean_x j);
          clean_y = λ j l d. ground (arith, inv.clean_y j);
          blank_fee = inv.blank_fee;
          blank_mark = λ j l. ground (arith, inv.blank_mark j);
        }
  | inr e ↦
      rw (e, if◌then◌else◌)
        record {
          few = inv.few;
          clean_x = λ j l d. ground (arith, e, inv.clean_x j);
          clean_y = λ j l d. ground (arith, e, inv.clean_y j);
          blank_fee = inv.blank_fee;
          blank_mark = inv.blank_mark;
        }
]

-- A swap on an index that holds no pool divides by its fee denominator, zero.
fill-blank :
    (r_in r_out num a : ℕ) {den : ℕ} {f : Filled} → fill r_in r_out num den a ≡ some f → den ≢ 0
unfolding fill
fill-blank r_in r_out num a e z = ground (arith, e, z)

pub Applied-inside :
    {s t : StateShadow} {idx a out : ℕ} (x_to_y : Bool)
    → Inv s
    → Applied s idx a x_to_y out t
    → idx < s.pool_count
Applied-inside {s} {t} {idx} {a} true inv run =
    let ne = fill-blank (s.spec_reserve_x idx) (s.spec_reserve_y idx) (s.fee_num idx) a run.fills in
    elim (Bool-cases (ltb idx s.pool_count)) [
      | inl e ↦ ltb→lt idx s.pool_count e
      | inr e ↦ absurd (ne (inv.blank_fee idx (ltb_false→le idx s.pool_count e)))
    ]
Applied-inside {s} {t} {idx} {a} false inv run =
    let ne = fill-blank (s.spec_reserve_y idx) (s.spec_reserve_x idx) (s.fee_num idx) a run.fills in
    elim (Bool-cases (ltb idx s.pool_count)) [
      | inl e ↦ ltb→lt idx s.pool_count e
      | inr e ↦ absurd (ne (inv.blank_fee idx (ltb_false→le idx s.pool_count e)))
    ]

pub apply-Inv :
    (s : StateShadow) (idx a : ℕ) (x_to_y : Bool) {out : ℕ} {t : StateShadow}
    → Inv s
    → apply_speculative_swap s idx a x_to_y ≡ some (out, t)
    → Inv t
apply-Inv s idx a true inv e =
    let run = apply-Applied s idx a true e in
    let inside = Applied-inside true inv run in
    rw (run.leaves) (write_spec-Inv s idx run.filled.new_in run.filled.new_out inside inv)
apply-Inv s idx a false inv e =
    let run = apply-Applied s idx a false e in
    let inside = Applied-inside false inv run in
    rw (run.leaves) (write_spec-Inv s idx run.filled.new_out run.filled.new_in inside inv)

-- A new block leaves a state in which the overlay shows the confirmed reserves.
pub block-Inv :
    (s : StateShadow) (slot : ℕ)
    → Inv s
    → (t : StateShadow) × (on_new_block s slot ≡ some t)
      × (confirmed t ≡ confirmed (record s { confirmed_slot = slot }))
      × IsClean t
      × Inv t
unfolding on_new_block
block-Inv s slot inv =
    let (t, run, same, clean, above) = revert_lem (record s { confirmed_slot = slot }) inv.few in
    let pools : t.pool_count ≡ s.pool_count = ap (λ (c : Confirmed). c.pool_count) same in
    let dens : t.fee_den ≡ s.fee_den = ap (λ (c : Confirmed). c.fee_den) same in
    (
      t,
      run,
      same,
      clean,
      record {
        few = omega (arith, pools, inv.few);
        clean_x = λ j h d. clean.overlay_x j h;
        clean_y = λ j h d. clean.overlay_y j h;
        blank_fee = λ j h. rw (dens) (inv.blank_fee j (omega (arith, pools)));
        blank_mark =
            λ j h. above j (omega (arith, pools)) ∙ inv.blank_mark j (omega (arith, pools));
      },
    )

-- The marks set among the first `n` indices.
pub marks : ℕ → Column → ℕ
marks zero c = 0
marks (suc n) c = marks n c + (if c n == 0 then 0 else 1)

marks-above : (n : ℕ) (c : Column) (i v : ℕ) → n ≤ i → marks n (put c i v) ≡ marks n c
unfolding marks
marks-above zero c i v h = refl
marks-above (suc n) c i v h = ground (arith, marks-above n c i v (omega arith))

pub marks-put :
    (n : ℕ) (c : Column) (i v : ℕ)
    → i < n
    → marks n (put c i v) + (if c i == 0 then 0 else 1) ≡ marks n c + (if v == 0 then 0 else 1)
unfolding marks
marks-put zero c i v h = absurd (omega arith)
marks-put (suc n) c i v h = elim (Bool-cases (i == n)) [
  | inl e ↦ ground (arith, e, marks-above n c i v (ground (arith, e)))
  | inr e ↦ ground (arith, e, marks-put n c i v (ground (arith, e)))
]

-- A confirmed update of a pool that carries a mark takes the mark and leaves the count of marks,
-- which is then one more than the marks it counts if it was right before.
pub update_drift :
    (s : StateShadow) (idx rx ry slot : ℕ)
    → idx < max_pools
    → s.spec_dirty idx ≢ 0
    → (t : StateShadow) × (update_reserves s idx rx ry slot ≡ some t)
      × (t.spec_dirty_count ≡ s.spec_dirty_count)
      × (marks max_pools t.spec_dirty + 1 ≡ marks max_pools s.spec_dirty)
unfolding update_reserves recompute_price write_reserves
update_drift s idx rx ry slot h dirty = (
  recompute_price (write_reserves s idx rx ry slot) idx,
  ground arith,
  refl,
  ground (arith, dirty, marks-put max_pools s.spec_dirty idx 0 h),
)
