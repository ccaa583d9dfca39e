-- ===== src/Mev/StateShadow/Events.antt =====
-- Sequences of the operations of `StateShadow`, from `new` on.
use the_ai_cowboys_6_shooter.Prelude.{
  ℕ, ◌≡◌, refl, sym, ap, ◌∙◌, arith, ltb, leb, if◌then◌else◌, Bool, Option, some, ◌>>=◌, List, [],
  ◌∷◌, Option-cases, Bool-cases, inl, inr, some_inj,
}
use mathlib.Core.Path.{subst}
use the_ai_cowboys_6_shooter.Mev.StateShadow.{
  StateShadow, Registration, max_pools, new, register_pool, recompute_price, write_pool, count_pool,
  update_reserves, write_reserves, zeros,
}
use the_ai_cowboys_6_shooter.Mev.StateShadow.Simulation.{apply_speculative_swap, on_new_block}
use the_ai_cowboys_6_shooter.Mev.StateShadow.Reserves.{Confirmed, confirmed, confirmed-apply}
use the_ai_cowboys_6_shooter.Mev.StateShadow.Revert.{IsClean}
use the_ai_cowboys_6_shooter.Mev.StateShadow.Dirty.{
  Inv, new-Inv, register_pool-Inv, updated-Inv, apply-Inv, block-Inv,
}

-- One call of an operation that changes the state, with its arguments.
pub data Event : Type 0 where
  pool : Registration → Event
  update : ℕ → ℕ → ℕ → ℕ → Event
  swap : ℕ → ℕ → Bool → Event
  block : ℕ → Event

unfoldable pub step : StateShadow → Event → Option StateShadow
step s (pool r) = some (register_pool s r).1
step s (update idx rx ry slot) = update_reserves s idx rx ry slot
step s (swap idx amount_in x_to_y) = apply_speculative_swap s idx amount_in x_to_y >>= λ r. some r.1
step s (block slot) = on_new_block s slot

unfoldable pub run : StateShadow → List Event → Option StateShadow
run s [] = some s
run s (e ∷ es) = step s e >>= λ t. run t es

-- The same calls without the speculative swaps.
unfoldable pub settled : List Event → List Event
settled [] = []
settled (pool r ∷ es) = pool r ∷ settled es
settled (update idx rx ry slot ∷ es) = update idx rx ry slot ∷ settled es
settled (swap idx amount_in x_to_y ∷ es) = settled es
settled (block slot ∷ es) = block slot ∷ settled es

-- Two states that agree on everything confirmed, both well formed.
pub record Agree (s s' : StateShadow) : Type 0 where
  pub same : confirmed s' ≡ confirmed s
  pub inv : Inv s
  pub inv' : Inv s'

-- A state with the given confirmed part.
forget : Confirmed → StateShadow
forget c = record {
  reserve_x = c.reserve_x;
  reserve_y = c.reserve_y;
  fee_num = c.fee_num;
  fee_den = c.fee_den;
  token_x_id = c.token_x_id;
  token_y_id = c.token_y_id;
  pool_keys = c.pool_keys;
  price_x_per_y = c.price_x_per_y;
  price_y_per_x = c.price_y_per_x;
  last_updated_slot = c.last_updated_slot;
  active = c.active;
  pool_count = c.pool_count;
  confirmed_slot = c.confirmed_slot;
  spec_reserve_x = zeros;
  spec_reserve_y = zeros;
  spec_dirty_count = 0;
  spec_dirty = zeros;
}

register-confirmed :
    (s : StateShadow) (r : Registration)
    → confirmed (register_pool s r).1 ≡ confirmed (register_pool (forget (confirmed s)) r).1
unfolding register_pool recompute_price write_pool count_pool forget
register-confirmed s r = elim (Bool-cases (leb max_pools s.pool_count)) [
  | inl e ↦ rw (e, if◌then◌else◌)
  | inr e ↦ rw (e, if◌then◌else◌)
]

updated-confirmed :
    (s : StateShadow) (idx rx ry slot : ℕ)
    → confirmed (recompute_price (write_reserves s idx rx ry slot) idx)
      ≡ confirmed (recompute_price (write_reserves (forget (confirmed s)) idx rx ry slot) idx)
unfolding recompute_price write_reserves forget
updated-confirmed s idx rx ry slot = refl

register-Agree :
    (s s' : StateShadow) (r : Registration)
    → Agree s s'
    → Agree (register_pool s r).1 (register_pool s' r).1
register-Agree s s' r a = record {
  same =
      register-confirmed s' r
      ∙ ap (λ c. confirmed (register_pool (forget c) r).1) a.same
      ∙ sym (register-confirmed s r);
  inv = register_pool-Inv s r a.inv;
  inv' = register_pool-Inv s' r a.inv';
}

updated-Agree :
    (s s' : StateShadow) (idx rx ry slot : ℕ)
    → Agree s s'
    → Agree
        (recompute_price (write_reserves s idx rx ry slot) idx)
        (recompute_price (write_reserves s' idx rx ry slot) idx)
updated-Agree s s' idx rx ry slot a = record {
  same =
      updated-confirmed s' idx rx ry slot
      ∙ ap (λ c. confirmed (recompute_price (write_reserves (forget c) idx rx ry slot) idx)) a.same
      ∙ sym (updated-confirmed s idx rx ry slot);
  inv = updated-Inv s idx rx ry slot a.inv;
  inv' = updated-Inv s' idx rx ry slot a.inv';
}

-- What a step of one of two agreeing states says of the other, which skips the swaps.
abbrev Follows : StateShadow → StateShadow → Event → Type 0
Follows s' t (swap idx amount_in x_to_y) = Agree t s'
Follows s' t e = (t' : StateShadow) × (step s' e ≡ some t') × Agree t t'

step-Follows : (e : Event) (s s' t : StateShadow) → Agree s s' → step s e ≡ some t → Follows s' t e
unfolding step update_reserves
step-Follows (pool r) s s' t a h = (
  (register_pool s' r).1,
  refl,
  subst (λ x. Agree x (register_pool s' r).1) (some_inj h) (register-Agree s s' r a),
)
step-Follows (update idx rx ry slot) s s' t a h = elim (Bool-cases (ltb idx max_pools)) [
  | inl e ↦ (
    recompute_price (write_reserves s' idx rx ry slot) idx,
    rw (e),
    subst (λ x. Agree x (recompute_price (write_reserves s' idx rx ry slot) idx))
        (ground (arith, e, h)) (updated-Agree s s' idx rx ry slot a),
  )
  | inr e ↦ absurd (ground (arith, e, h))
]
step-Follows (swap idx amount x_to_y) s s' t a h =
    elim (Option-cases (apply_speculative_swap s idx amount x_to_y)) [
      | inl e ↦ absurd (ground (arith, e, h))
      | inr ((out, u), e) ↦
          subst (λ x. Agree x s') (ground (arith, e, h))
            record {
              same = a.same ∙ sym (confirmed-apply s idx amount x_to_y e);
              inv = apply-Inv s idx amount x_to_y a.inv e;
              inv' = a.inv';
            }
    ]
step-Follows (block slot) s s' t a h =
    let (u, go, same, _, inv) = block-Inv s slot a.inv in
    let (u', go', same', _, inv') = block-Inv s' slot a.inv' in
    let slots = ap (λ (c : Confirmed). record c { confirmed_slot = slot }) a.same in
    (
      u',
      go',
      subst (λ x. Agree x u') (some_inj (sym go ∙ h))
          (record { same = same' ∙ slots ∙ sym same; inv = inv; inv' = inv' }),
    )

-- A run that settles nothing differently.
abbrev Settles : StateShadow → StateShadow → List Event → Type 0
Settles s' t es = (t' : StateShadow) × (run s' (settled es) ≡ some t') × Agree t t'

run-Settles :
    (es : List Event) (s s' t : StateShadow) → Agree s s' → run s es ≡ some t → Settles s' t es
unfolding run settled
run-Settles [] s s' t a h = (s', refl, subst (λ x. Agree x s') (some_inj h) a)
run-Settles (e ∷ es) s s' t a h = elim (Option-cases (step s e)) [
  | inl stop ↦ absurd (ground (arith, stop, h))
  | inr (u, go) ↦
      turn u (λ u u' b. run-Settles es u u' t b) e (step-Follows e s s' u a go)
        (ground (arith, go, h))
]
  where
    turn :
        (u : StateShadow)
        → ((u u' : StateShadow) → Agree u u' → run u es ≡ some t → Settles u' t es)
        → (e : Event) → Follows s' u e
        → run u es ≡ some t
        → Settles s' t (e ∷ es)
    turn u again (pool r) (u', go, a) h =
        let (t', rest, b) = again u u' a h in (t', rw (go, ◌>>=◌) rest, b)
    turn u again (update idx rx ry slot) (u', go, a) h =
        let (t', rest, b) = again u u' a h in (t', rw (go, ◌>>=◌) rest, b)
    turn u again (swap idx amount x_to_y) a h = again u s' a h
    turn u again (block slot) (u', go, a) h =
        let (t', rest, b) = again u u' a h in (t', rw (go, ◌>>=◌) rest, b)

-- Whatever calls run from a new state without a panic: the calls without the speculative swaps run
-- too, and leave the same confirmed state; in both final states every registered pool without a
-- mark shows its confirmed reserves, and one more block sets every pool back to them.
pub speculation_is_private :
    (es : List Event) (t : StateShadow) (slot : ℕ)
    → run new es ≡ some t
    → ((t' : StateShadow) × (run new (settled es) ≡ some t')
        × (confirmed t' ≡ confirmed t)
        × Inv t')
      × Inv t
      × ((u : StateShadow) × (on_new_block t slot ≡ some u) × IsClean u)
speculation_is_private es t slot h =
    let start : Agree new new = record { same = refl; inv = new-Inv; inv' = new-Inv } in
    let (t', go, a) = run-Settles es new new t start h in
    let (u, next, _, clean, _) = block-Inv t slot a.inv in
    ((t', go, a.same, a.inv'), a.inv, (u, next, clean))
