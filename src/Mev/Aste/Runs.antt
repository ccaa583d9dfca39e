-- ===== src/Mev/Aste/Runs.antt =====
-- The engine as `run_aste` runs it.
use the_ai_cowboys_6_shooter.Prelude.{
  ℕ, zero, suc, ◌+◌, ◌%◌, ◌^◌, ◌≡◌, refl, sym, ap, ◌∙◌, arith, ltb, if◌then◌else◌, Bool, Bool-cases,
  inl, inr, none, some, ◌>>=◌, some_inj, Option-cases, bind_inv, List, [], ◌∷◌, length,
}
use mathlib.Core.Path.{subst}
use the_ai_cowboys_6_shooter.Mev.StateShadow.{
  StateShadow, max_pools, update_reserves, recompute_price, write_reserves,
}
use the_ai_cowboys_6_shooter.Mev.StateShadow
use the_ai_cowboys_6_shooter.Mev.StateShadow.Simulation.{
  fill, apply_speculative_swap, revert_one, revert_from, revert_speculative, on_new_block,
}
use the_ai_cowboys_6_shooter.Mev.StateShadow.Events.{Event, step, run}
use the_ai_cowboys_6_shooter.Mev.Graph.{Float64}
use the_ai_cowboys_6_shooter.Mev.Aste.{
  Aste, AsteConfig, MempoolEvent, Metrics, record_profit, pending_swap, new_block, pool_update,
  pending, process_event, receive, run_aste,
}
use the_ai_cowboys_6_shooter.Mev.Aste
use the_ai_cowboys_6_shooter.Mev.Aste.Steps.{event_of, process_event-IsStep}

-- A pending swap is among the events.
unfoldable pub HasSwap : List (MempoolEvent × ℕ) → Type 0
HasSwap [] = ⊥
HasSwap ((pending_swap _ _ _ _, _) ∷ events) = Unit
HasSwap ((new_block _, _) ∷ events) = HasSwap events
HasSwap ((pool_update _ _ _ _, _) ∷ events) = HasSwap events

-- The calls on the shadow that the events stand for.
unfoldable pub calls_of : List (MempoolEvent × ℕ) → List Event
calls_of [] = []
calls_of ((event, ns) ∷ events) = event_of event ∷ calls_of events

-- No pool has a fee.
NoFees : StateShadow → Type 0
NoFees s = (i : ℕ) → s.fee_den i ≡ 0

apply-NoFees :
    (s : StateShadow) (idx amount_in : ℕ) (forward : Bool)
    → NoFees s
    → apply_speculative_swap s idx amount_in forward ≡ none
unfolding apply_speculative_swap fill NoFees
apply-NoFees s idx amount_in forward h =
    let e : s.fee_den idx ≡ 0 = h idx in
    elim (Bool-cases (ltb idx max_pools)) [
      | inr f ↦ rw (f, if◌then◌else◌) refl
      | inl t ↦ elim (Bool-cases forward) [
        | inl u ↦ rw (t, if◌then◌else◌, u, e) refl
        | inr u ↦ rw (t, if◌then◌else◌, u, e) refl
      ]
    ]

revert_from-fee_den :
    (rounds i : ℕ) (s : StateShadow) {t : StateShadow}
    → revert_from rounds i s ≡ some t
    → t.fee_den ≡ s.fee_den
unfolding revert_from revert_one
revert_from-fee_den zero i s e = ap (λ (t : StateShadow). t.fee_den) (sym (some_inj e))
revert_from-fee_den (suc rounds) i s e = elim (Bool-cases (ltb i max_pools)) [
  | inl t ↦ revert_from-fee_den rounds (i + 1) (revert_one s i) (rw (revert_from, t) at e)
  | inr f ↦ absurd (let g = rw (revert_from, f) at e in cc)
]

step-NoFees :
    (s t : StateShadow) (event : MempoolEvent)
    → NoFees s
    → step s (event_of event) ≡ some t
    → NoFees t
unfolding step event_of on_new_block revert_speculative update_reserves recompute_price
    write_reserves NoFees
step-NoFees s t (pending_swap idx amount_in forward _) h e i =
    let stop = apply-NoFees s idx amount_in forward (unfold NoFees in h) in
    absurd (let g = rw (stop, ◌>>=◌) at e in cc)
step-NoFees s t (new_block slot) h e i =
    let (u, f, g) =
      bind_inv (revert_from s.pool_count 0 (record s { confirmed_slot = slot })) _ e in
    let same = revert_from-fee_den s.pool_count 0 (record s { confirmed_slot = slot }) f in
    ap (λ (x : StateShadow). x.fee_den i) (sym (some_inj g)) ∙ ap (λ (c : ℕ → ℕ). c i) same ∙ h i
step-NoFees s t (pool_update idx reserve_x reserve_y slot) h e i =
    elim (Bool-cases (ltb idx max_pools)) [
      | inl u ↦
          ap (λ (x : StateShadow). x.fee_den i) (sym (some_inj (rw (u, if◌then◌else◌) at e))) ∙ h i
      | inr f ↦ absurd (let g = rw (f, if◌then◌else◌) at e in cc)
    ]

module _ (float : Float64) where
  pending-NoFees :
      (a : Aste) (idx amount_in : ℕ) (forward : Bool) (tx_signature : List ℕ) (ns : ℕ)
      → NoFees a.shadow
      → process_event float a (pending_swap idx amount_in forward tx_signature) ns ≡ none
  unfolding process_event pending
  pending-NoFees a idx amount_in forward tx_signature ns h =
      let stop = apply-NoFees a.shadow idx amount_in forward h in rw (stop, ◌>>=◌) refl

  -- One event before the rest of the loop.
  receive-after :
      (m : Metrics) (a : Aste) (event : MempoolEvent) (ns : ℕ) (events : List (MempoolEvent × ℕ))
      → NoFees a.shadow
      → ((m : Metrics) (b : Aste) → NoFees b.shadow → receive float m b events ≡ none)
      → receive float m a ((event, ns) ∷ events) ≡ none
  unfolding receive
  receive-after m a event ns events h again = elim (Option-cases (process_event float a event ns)) [
    | inl e ↦ rw (e, ◌>>=◌) refl
    | inr ((profit, b), e) ↦
        let s = process_event-IsStep float a event ns e in
        rw (e, ◌>>=◌)
          (again (record_profit m profit) b (step-NoFees a.shadow b.shadow event h s.stepped))
  ]

  receive-NoFees :
      (m : Metrics) (a : Aste) (events : List (MempoolEvent × ℕ))
      → NoFees a.shadow
      → HasSwap events
      → receive float m a events ≡ none
  unfolding HasSwap receive
  receive-NoFees m a [] h k = absurd k
  receive-NoFees m a ((pending_swap idx amount_in forward tx_signature, ns) ∷ events) h k =
      let stop = pending-NoFees a idx amount_in forward tx_signature ns h in
      rw (receive, stop, ◌>>=◌) refl
  receive-NoFees m a ((new_block slot, ns) ∷ events) h k =
      receive-after m a (new_block slot) ns events h (λ m b l. receive-NoFees m b events l k)
  receive-NoFees m a ((pool_update idx reserve_x reserve_y slot, ns) ∷ events) h k =
      receive-after m a (pool_update idx reserve_x reserve_y slot) ns events h
        (λ m b l. receive-NoFees m b events l k)

  new-NoFees : (base : ℕ) (config : AsteConfig) → NoFees (Aste.new base config).shadow
  unfolding Aste.new StateShadow.new NoFees
  new-NoFees base config i = refl

  -- The engine that `run_aste` starts has no pools and gets none, so the division by the fee's
  -- denominator panics: no run over events with a pending swap among them returns.
  pub run_aste_panics :
      (base : ℕ) (config : AsteConfig) (m : Metrics) (events : List (MempoolEvent × ℕ))
      → HasSwap events
      → run_aste float base config m events ≡ none
  unfolding run_aste
  run_aste_panics base config m events k =
      receive-NoFees m (Aste.new base config) events (new-NoFees base config) k

  -- The shadow of `b` is the end of the calls of `events` from that of `a`, and the counts and the
  -- two totals agree.
  pub record IsRun (m : Metrics) (a : Aste) (events : List (MempoolEvent × ℕ)) (n : Metrics)
      (b : Aste) : Type 0 where
    pub steps : run a.shadow (calls_of events) ≡ some b.shadow
    pub counted : b.cycle_count % 2 ^ 64 ≡ (a.cycle_count + length events) % 2 ^ 64
    pub revenue :
        (b.stats.total_profit + m.mev_revenue_sat) % 2 ^ 64
        ≡ (a.stats.total_profit + n.mev_revenue_sat) % 2 ^ 64

  record_profit-revenue :
      (m : Metrics) (profit : ℕ)
      → (record_profit m profit).mev_revenue_sat % 2 ^ 64 ≡ (m.mev_revenue_sat + profit) % 2 ^ 64
  record_profit-revenue m profit = elim (Bool-cases (ltb 0 profit)) [
    | inl e ↦ rw (e, if◌then◌else◌) (omega arith)
    | inr e ↦ rw (e, if◌then◌else◌) (let z : profit ≡ 0 = ground (arith, e) in omega (arith, z))
  ]

  -- When the loop over a list of events returns, the shadow has run through the calls that the
  -- events stand for, the events are counted, and the engine's total profit grows by what the
  -- revenue of the daemon grows by, all modulo 2^64.
  pub receive-IsRun :
      (m : Metrics) (a : Aste) (events : List (MempoolEvent × ℕ)) {n : Metrics} {b : Aste}
      → receive float m a events ≡ some (n, b)
      → IsRun m a events n b
  unfolding receive run calls_of
  receive-IsRun m a [] {n} {b} e =
      subst (λ (r : Metrics × Aste). IsRun m a [] r.0 r.1) (some_inj e)
        (record { steps = refl; counted = omega arith; revenue = refl })
  receive-IsRun m a ((event, ns) ∷ events) {n} {b} e =
      let ((profit, c), f, g) = bind_inv (process_event float a event ns) _ e in
      let s = process_event-IsStep float a event ns f in
      let r = receive-IsRun (record_profit m profit) c events g in
      let stepped = s.stepped in
      let gained = record_profit-revenue m profit in
      record {
        steps = rw (stepped, ◌>>=◌) r.steps;
        counted = omega (arith, r.counted, s.counted);
        revenue = omega (arith, r.revenue, s.profits, gained);
      }
