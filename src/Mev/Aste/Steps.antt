-- ===== src/Mev/Aste/Steps.antt =====
-- What an event does to the state of the engine.
use the_ai_cowboys_6_shooter.Prelude.{
  ℕ, ◌+◌, ◌%◌, ◌^◌, ◌≡◌, inl, inr, refl, sym, ap, ◌∙◌, arith, ◌==◌, if◌then◌else◌, Bool, Bool-cases,
  some, ◌>>=◌, some_inj, bind_inv, List, [], ◌∷◌, length,
}
use mathlib.Core.Path.{subst}
use the_ai_cowboys_6_shooter.Prelude.Words.{add_u64}
use the_ai_cowboys_6_shooter.Mev.StateShadow.{StateShadow, update_reserves}
use the_ai_cowboys_6_shooter.Mev.StateShadow.Simulation.{apply_speculative_swap, on_new_block}
use the_ai_cowboys_6_shooter.Mev.StateShadow.Events.{Event, swap, block, update, step}
use the_ai_cowboys_6_shooter.Mev.Graph.{Float64, build_from_shadow}
use the_ai_cowboys_6_shooter.Mev.Graph.Cycles.{find_arbitrage_cycles}
use the_ai_cowboys_6_shooter.Mev.SimdSolver.{ArbResult, evaluate_batch}
use the_ai_cowboys_6_shooter.Mev.Aste.{
  Aste, MempoolEvent, pending_swap, new_block, pool_update, update_latency, finish_swap, bundle_of,
  execute_arb, rebuild_graph, rebuild_sometimes, take_best, solve, pending, process_event,
}

-- The call on the shadow that an event stands for.
unfoldable pub event_of : MempoolEvent → Event
event_of (pending_swap pool_idx amount_in forward _) = swap pool_idx amount_in forward
event_of (new_block slot) = block slot
event_of (pool_update pool_idx reserve_x reserve_y slot) = update pool_idx reserve_x reserve_y slot

-- The engine `b` has the shadow `shadow`, the events counted as in `a`, and `profit` more than `a`.
pub record Books (a : Aste) (shadow : StateShadow) (profit : ℕ) (b : Aste) : Type 0 where
  pub same_shadow : b.shadow ≡ shadow
  pub cycles : b.stats.cycles_total ≡ a.stats.cycles_total
  pub counted : b.cycle_count ≡ a.cycle_count
  pub profits : b.stats.total_profit % 2 ^ 64 ≡ (a.stats.total_profit + profit) % 2 ^ 64

Books-Books :
    (a b c : Aste) (s t : StateShadow) (profit : ℕ)
    → Books a s 0 b
    → Books b t profit c
    → Books a t profit c
Books-Books a b c s t profit h k = record {
  same_shadow = k.same_shadow;
  cycles = k.cycles ∙ h.cycles;
  counted = k.counted ∙ h.counted;
  profits = omega (arith, h.profits, k.profits);
}

module _ (float : Float64) where
  rebuild_graph-Books :
      (a : Aste) {b : Aste} → rebuild_graph float a ≡ some b → Books a a.shadow 0 b
  unfolding rebuild_graph
  rebuild_graph-Books a e =
      let (graph, _, f) = bind_inv (build_from_shadow float a.graph a.shadow) _ e in
      subst (Books a a.shadow 0) (some_inj f)
        (record { same_shadow = refl; cycles = refl; counted = refl; profits = omega arith })

  rebuild_sometimes-Books :
      (a : Aste) {b : Aste} → rebuild_sometimes float a ≡ some b → Books a a.shadow 0 b
  unfolding rebuild_sometimes
  rebuild_sometimes-Books a {b} e = elim (Bool-cases (a.config.graph_rebuild_interval == 0)) [
    | inl t ↦ absurd (let f = rw (t, if◌then◌else◌) at e in cc)
    | inr t ↦ elim (Bool-cases (a.cycle_count % a.config.graph_rebuild_interval == 0)) [
      | inl u ↦ rebuild_graph-Books a (rw (t, if◌then◌else◌, u) at e)
      | inr u ↦
          subst (Books a a.shadow 0) (some_inj (rw (t, if◌then◌else◌, u) at e))
            (record { same_shadow = refl; cycles = refl; counted = refl; profits = omega arith })
    ]
  ]

  finish_swap-Books : (a : Aste) (ns : ℕ) → Books a a.shadow 0 (finish_swap a ns)
  unfolding finish_swap update_latency
  finish_swap-Books a ns = record {
    same_shadow = refl;
    cycles = refl;
    counted = refl;
    profits = omega arith;
  }

  execute_arb-Books :
      (a : Aste) (result : ArbResult) {r : ℕ × Aste}
      → execute_arb a result ≡ some r
      → Books a a.shadow r.0 r.1
  unfolding execute_arb
  execute_arb-Books a result e =
      let (bundle, _, f) = bind_inv (bundle_of a result) _ e in
      subst (λ (r : ℕ × Aste). Books a a.shadow r.0 r.1) (some_inj f)
        (elim (Bool-cases a.config.dry_run) [
          | inl t ↦
              rw (t, if◌then◌else◌)
                (record {
                  same_shadow = refl;
                  cycles = refl;
                  counted = refl;
                  profits = omega arith;
                })
          | inr t ↦
              rw (t, if◌then◌else◌)
                (record {
                  same_shadow = refl;
                  cycles = refl;
                  counted = refl;
                  profits = omega arith;
                })
        ])

  take_best-Books :
      (a : Aste) (results : List ArbResult) (ns : ℕ) {r : ℕ × Aste}
      → take_best float a results ns ≡ some r
      → Books a a.shadow r.0 r.1
  take_best-Books a [] ns e =
      subst (λ (r : ℕ × Aste). Books a a.shadow r.0 r.1) (some_inj e) (finish_swap-Books a ns)
  take_best-Books a (best ∷ results) ns e =
      let b = record a {
        stats = record a.stats { arb_profitable = add_u64 a.stats.arb_profitable 1 };
      } in
      let (r, f, g) = bind_inv (execute_arb b best) _ e in
      let k = execute_arb-Books b best f in
      subst (λ (r : ℕ × Aste). Books a a.shadow r.0 r.1) (some_inj g)
        (finished a r.0 r.1 ns (record {
          same_shadow = k.same_shadow;
          cycles = k.cycles;
          counted = k.counted;
          profits = k.profits;
        }))
    where
      finished :
          (a : Aste) (profit : ℕ) (b : Aste) (ns : ℕ)
          → Books a a.shadow profit b
          → Books a a.shadow profit (finish_swap b ns)
      finished a profit b ns k =
          let f = finish_swap-Books b ns in
          record {
            same_shadow = f.same_shadow ∙ k.same_shadow;
            cycles = f.cycles ∙ k.cycles;
            counted = f.counted ∙ k.counted;
            profits = omega (arith, f.profits, k.profits);
          }

  solve-Books :
      (a : Aste) (ns : ℕ) {r : ℕ × Aste} → solve float a ns ≡ some r → Books a a.shadow r.0 r.1
  unfolding solve
  solve-Books a ns {r} e =
      let (cycles, _, f) = bind_inv (find_arbitrage_cycles float a.graph a.config.max_hops) _ e in
      let b = record a {
        stats = record a.stats {
          arb_cycles_detected = add_u64 a.stats.arb_cycles_detected (length cycles % 2 ^ 64);
        };
      } in
      let start : Books a a.shadow 0 b = record {
        same_shadow = refl;
        cycles = refl;
        counted = refl;
        profits = omega arith;
      } in
      elim (Bool-cases (length cycles == 0)) [
        | inl t ↦
            subst (λ (r : ℕ × Aste). Books a a.shadow r.0 r.1)
              (some_inj (rw (t, if◌then◌else◌) at f))
              (Books-Books a b (finish_swap b ns) a.shadow a.shadow 0 start
                (finish_swap-Books b ns))
        | inr t ↦
            let (results, _, g) =
              bind_inv (evaluate_batch b.solver b.shadow cycles) _ (rw (t, if◌then◌else◌) at f) in
            Books-Books a b r.1 a.shadow a.shadow r.0 start (take_best-Books b results ns g)
      ]

  pending-Books :
      (a : Aste) (pool_idx amount_in : ℕ) (forward : Bool) (ns : ℕ) {r : ℕ × Aste}
      → pending float a pool_idx amount_in forward ns ≡ some r
      → (out : ℕ) × (s : StateShadow) × (apply_speculative_swap a.shadow pool_idx amount_in forward
          ≡ some (out, s))
        × Books a s r.0 r.1
  unfolding pending
  pending-Books a pool_idx amount_in forward ns {r} e =
      let ((out, s), applied, f) =
        bind_inv (apply_speculative_swap a.shadow pool_idx amount_in forward) _ e in
      let b = record a {
        shadow = s;
        stats = record a.stats {
          swaps_observed = add_u64 a.stats.swaps_observed 1;
          speculative_swaps = add_u64 a.stats.speculative_swaps 1;
        };
      } in
      let (c, rebuilt, g) = bind_inv (rebuild_sometimes float b) _ f in
      let k = rebuild_sometimes-Books b rebuilt in
      let l = solve-Books c ns g in
      (
        out,
        s,
        applied,
        record {
          same_shadow = l.same_shadow ∙ k.same_shadow;
          cycles = l.cycles ∙ k.cycles;
          counted = l.counted ∙ k.counted;
          profits = omega (arith, l.profits, k.profits);
        },
      )

  -- What an event that is processed does: the shadow makes the step that the event stands for,
  -- whatever graph and solver do; one more event is counted; the total of the profits grows by the
  -- profit that is returned, modulo 2^64.
  pub record IsStep (a : Aste) (event : MempoolEvent) (profit : ℕ) (b : Aste) : Type 0 where
    pub stepped : step a.shadow (event_of event) ≡ some b.shadow
    pub cycles : b.stats.cycles_total ≡ add_u64 a.stats.cycles_total 1
    pub counted : b.cycle_count ≡ add_u64 a.cycle_count 1
    pub profits : b.stats.total_profit % 2 ^ 64 ≡ (a.stats.total_profit + profit) % 2 ^ 64

  pub process_event-IsStep :
      (a : Aste) (event : MempoolEvent) (ns : ℕ) {profit : ℕ} {b : Aste}
      → process_event float a event ns ≡ some (profit, b)
      → IsStep a event profit b
  unfolding process_event event_of step update_latency
  process_event-IsStep a (pending_swap pool_idx amount_in forward _) ns {profit} {b} e =
      let (out, s, applied, k) =
        pending-Books _ pool_idx amount_in forward ns {r = (profit, b)} e in
      record {
        stepped = rw (applied, ◌>>=◌) (ap some (sym k.same_shadow));
        cycles = k.cycles;
        counted = k.counted;
        profits = k.profits;
      }
  process_event-IsStep a (new_block slot) ns {profit} {b} e =
      let (s, stepped, f) = bind_inv (on_new_block a.shadow slot) _ e in
      let (c, rebuilt, g) = bind_inv (rebuild_graph float _) _ f in
      let k = rebuild_graph-Books _ rebuilt in
      let last = some_inj g in
      subst (λ (r : ℕ × Aste). IsStep a (new_block slot) r.0 r.1) last
        (record {
          stepped = stepped ∙ ap some (sym k.same_shadow);
          cycles = k.cycles;
          counted = k.counted;
          profits = k.profits;
        })
  process_event-IsStep a (pool_update pool_idx reserve_x reserve_y slot) ns {profit} {b} e =
      let (s, stepped, g) =
        bind_inv (update_reserves a.shadow pool_idx reserve_x reserve_y slot) _ e in
      subst (λ (r : ℕ × Aste). IsStep a (pool_update pool_idx reserve_x reserve_y slot) r.0 r.1)
        (some_inj g)
        (record { stepped = stepped; cycles = refl; counted = refl; profits = omega arith })
