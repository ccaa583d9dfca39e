-- ===== src/Treasury/Pipeline/Runs.antt =====
-- What the rounds of the loop do to the balance and the counters.
use the_ai_cowboys_6_shooter.Prelude.{
  ℕ, suc, ◌+◌, ◌*◌, ◌%◌, ◌^◌, ◌<◌, ◌≡◌, refl, ap, ◌∙◌, arith, ltb, leb, if◌then◌else◌, Bool, true,
  false, Bool-cases, inl, inr, Option, none, some, List, [], ◌∷◌, length, In,
}
use mathlib.Core.Path.{subst}
use the_ai_cowboys_6_shooter.Prelude.Words.{add_u64}
use the_ai_cowboys_6_shooter.Treasury.Offramp.{
  TreasuryConfig, OfframpClient, World, Outcome, ok, err, execute_offramp, client_new,
}
use the_ai_cowboys_6_shooter.Treasury.Pipeline.{
  Amounts, TreasuryState, TreasuryKeeper, keeper_new, consolidate_to_stablecoin, count_swap,
  collect, withdraw_step, stable_usd, round, rounds, run, new,
}

-- The second state has the balance and the off-ramp's counters of the first.
pub record Untouched (s t : TreasuryState) : Type 0 where
  pub same_balance : t.stablecoin_balance_micro ≡ s.stablecoin_balance_micro
  pub same_fiat : t.total_fiat_withdrawn_cents ≡ s.total_fiat_withdrawn_cents
  pub same_cycles : t.offramp_cycles ≡ s.offramp_cycles
  pub same_time : t.last_offramp_ts ≡ s.last_offramp_ts
  pub same_failures : t.offramp_failures ≡ s.offramp_failures

abbrev refl_untouched : (s : TreasuryState) → Untouched s s
refl_untouched s = record {
  same_balance = refl;
  same_fiat = refl;
  same_cycles = refl;
  same_time = refl;
  same_failures = refl;
}

trans_untouched : (s t u : TreasuryState) → Untouched s t → Untouched t u → Untouched s u
trans_untouched s t u a b = record {
  same_balance = b.same_balance ∙ a.same_balance;
  same_fiat = b.same_fiat ∙ a.same_fiat;
  same_cycles = b.same_cycles ∙ a.same_cycles;
  same_time = b.same_time ∙ a.same_time;
  same_failures = b.same_failures ∙ a.same_failures;
}

count_swap-Untouched : (s : TreasuryState) (o : Option ℕ) → Untouched s (count_swap s o)
count_swap-Untouched s none = refl_untouched s
count_swap-Untouched s (some amount) = elim (Bool-cases (ltb 0 amount)) [
  | inl t ↦
      rw (t, if◌then◌else◌)
        (record {
          same_balance = refl;
          same_fiat = refl;
          same_cycles = refl;
          same_time = refl;
          same_failures = refl;
        })
  | inr f ↦ rw (f, if◌then◌else◌) (refl_untouched s)
]

abbrev pub revenue : World → ℕ
revenue world = add_u64 (add_u64 world.zk_revenue_sat world.mev_revenue_sat) world.ml_revenue_sat

module _ (amounts : Amounts) where
  open amounts use {F, of_u64, to_u64, mul, div, min_float, ge}

  consolidate-Untouched :
      (world : World) (solana : Bool) (config : TreasuryConfig F) (keeper : TreasuryKeeper F)
      (s : TreasuryState)
      → config.dry_run ≡ false
      → Untouched s (consolidate_to_stablecoin amounts world solana config keeper s).0
  unfolding consolidate_to_stablecoin
  consolidate-Untouched world solana config keeper s live =
      let effective =
        to_u64 (mul (of_u64 config.consolidation_threshold) keeper.threshold_multiplier) in
      elim (Bool-cases (ltb s.total_profit_accumulated effective)) [
        | inl low ↦ rw (consolidate_to_stablecoin, low, if◌then◌else◌) (refl_untouched s)
        | inr high ↦ rw (consolidate_to_stablecoin, high, live, if◌then◌else◌) (refl_untouched s)
      ]

  collect-Untouched :
      (world : World) (solana : Bool) (config : TreasuryConfig F) (keeper : TreasuryKeeper F)
      (s : TreasuryState)
      → config.dry_run ≡ false
      → Untouched s (collect amounts world solana config keeper s)
  unfolding collect
  collect-Untouched world solana config keeper s live =
      let s' : TreasuryState = record s { total_profit_accumulated = revenue world } in
      let done = consolidate_to_stablecoin amounts world solana config keeper s' in
      elim (Bool-cases (leb config.consolidation_threshold (revenue world))) [
        | inl high ↦
            rw (collect, high, if◌then◌else◌)
              (let later =
                  trans_untouched s' done.0 (count_swap done.0 done.1)
                    (consolidate-Untouched world solana config keeper s' live)
                    (count_swap-Untouched done.0 done.1) in
                record {
                  same_balance = later.same_balance;
                  same_fiat = later.same_fiat;
                  same_cycles = later.same_cycles;
                  same_time = later.same_time;
                  same_failures = later.same_failures;
                })
        | inr low ↦
            rw (collect, low, if◌then◌else◌)
              (record {
                same_balance = refl;
                same_fiat = refl;
                same_cycles = refl;
                same_time = refl;
                same_failures = refl;
              })
      ]

  rounds-Untouched :
      (solana : Bool) (config : TreasuryConfig F) (client : OfframpClient)
      (keeper : TreasuryKeeper F) (s : TreasuryState) (worlds : List World)
      → config.dry_run ≡ false
      → ge (stable_usd amounts s) config.offramp_threshold_usd ≡ false
      → Untouched s (rounds amounts solana config client keeper s worlds)
  unfolding rounds round withdraw_step
  rounds-Untouched solana config client keeper s [] live low = refl_untouched s
  rounds-Untouched solana config client keeper s (world ∷ worlds) live low =
      let t = collect amounts world solana config keeper s in
      let same = collect-Untouched world solana config keeper s live in
      let low' : ge (stable_usd amounts t) config.offramp_threshold_usd ≡ false =
        rw (same.same_balance) low in
      let rest = rounds-Untouched solana config client keeper t worlds live low' in
      rw (low', if◌then◌else◌)
        (trans_untouched s t (rounds amounts solana config client keeper t worlds) same rest)

  -- Outside a dry run, with an off-ramp threshold above zero, no run of the loop withdraws: the
  -- balance that the off-ramp reads stays 0 whatever the chain and the exchange answer, since no
  -- swap is credited to it, and the off-ramp is not tried once.
  pub run_live_idle :
      (solana : Bool) (config : TreasuryConfig F) (worlds : List World) (s : TreasuryState)
      → config.dry_run ≡ false
      → ge (stable_usd amounts new) config.offramp_threshold_usd ≡ false
      → run amounts solana config worlds ≡ ok (some s)
      → Untouched new s
  unfolding run client_new
  run_live_idle solana config worlds s live low e = elim (Bool-cases config.enabled) [
    | inl on ↦ ran (client_new config) (rw (run, on, if◌then◌else◌) at e)
    | inr off ↦ absurd (let e' = rw (run, off, if◌then◌else◌) at e in cc)
  ]
    where
      ran :
          (o : Outcome OfframpClient)
          → (elim o [
            | err x ↦ err x
            | ok client ↦
                ok (
                  some (rounds amounts solana config client (keeper_new amounts config) new worlds))
          ])
            ≡ ok (some s)
          → Untouched new s
      ran (err x) f = absurd (cc)
      ran (ok client) f =
          let same : rounds amounts solana config client (keeper_new amounts config) new worlds
              ≡ s =
            cc in
          subst (λ t. Untouched new t) same
            (rounds-Untouched solana config client (keeper_new amounts config) new worlds live low)

  -- The cents that an off-ramp of a state adds.
  abbrev pub cents : TreasuryConfig F → TreasuryState → ℕ
  cents config s =
      to_u64 (mul (min_float (stable_usd amounts s) config.max_offramp_usd) (of_u64 100))

  -- What a run of dry off-ramps leaves of a state.
  pub record Repeated (config : TreasuryConfig F) (times : ℕ) (s t : TreasuryState) : Type 0 where
    pub kept_balance : t.stablecoin_balance_micro ≡ s.stablecoin_balance_micro
    pub more_cycles : t.offramp_cycles ≡ (s.offramp_cycles + times) % 2 ^ 64
    pub more_fiat :
        t.total_fiat_withdrawn_cents
        ≡ (s.total_fiat_withdrawn_cents + times * cents config s) % 2 ^ 64

  one_round :
      (solana : Bool) (config : TreasuryConfig F) (client : OfframpClient)
      (keeper : TreasuryKeeper F) (s : TreasuryState) (world : World)
      → client.dry_run ≡ true
      → ge (stable_usd amounts s) config.offramp_threshold_usd ≡ true
      → revenue world < config.consolidation_threshold
      → Repeated config 1 s (round amounts solana config client keeper s world)
  unfolding round collect withdraw_step execute_offramp
  one_round solana config client keeper s world dry high low =
      let below : leb config.consolidation_threshold (revenue world) ≡ false =
        ground (arith, low) in
      rw (withdraw_step, below, if◌then◌else◌, high, dry)
        (record { kept_balance = refl; more_cycles = refl; more_fiat = omega arith })

  -- In a dry run, once the balance is above the off-ramp threshold, every later round withdraws
  -- from it again: while the revenue stays below the consolidation threshold, each round counts one
  -- more off-ramp and the same cents, and the balance is never lowered.
  pub rounds_repeat :
      (solana : Bool) (config : TreasuryConfig F) (client : OfframpClient)
      (keeper : TreasuryKeeper F) (s : TreasuryState) (worlds : List World)
      → client.dry_run ≡ true
      → ge (stable_usd amounts s) config.offramp_threshold_usd ≡ true
      → ((world : World) → In world worlds → revenue world < config.consolidation_threshold)
      → s.offramp_cycles < 2 ^ 64
      → s.total_fiat_withdrawn_cents < 2 ^ 64
      → Repeated config (length worlds) s (rounds amounts solana config client keeper s worlds)
  unfolding rounds
  rounds_repeat solana config client keeper s [] dry high low a b = record {
    kept_balance = refl;
    more_cycles = omega arith;
    more_fiat = omega arith;
  }
  rounds_repeat solana config client keeper s (world ∷ worlds) dry high low a b =
      let t = round amounts solana config client keeper s world in
      let first = one_round solana config client keeper s world dry high (low world (inl refl)) in
      let high' : ge (stable_usd amounts t) config.offramp_threshold_usd ≡ true =
        rw (first.kept_balance) high in
      let small : t.offramp_cycles < 2 ^ 64 = omega (arith, first.more_cycles) in
      let small' : t.total_fiat_withdrawn_cents < 2 ^ 64 = omega (arith, first.more_fiat) in
      let rest =
        rounds_repeat solana config client keeper t worlds dry high' (λ w m. low w (inr m)) small
          small' in
      let same : cents config t ≡ cents config s = rw (first.kept_balance) refl in
      record {
        kept_balance = rest.kept_balance ∙ first.kept_balance;
        more_cycles = omega (arith, rest.more_cycles, first.more_cycles);
        more_fiat =
            add_again t.total_fiat_withdrawn_cents (cents config t) (length worlds) first.more_fiat
              same rest.more_fiat;
      }
    where
      carry : (a k x : ℕ) → ((a + k) % 2 ^ 64 + x) % 2 ^ 64 ≡ (a + (k + x)) % 2 ^ 64
      carry a k x = omega arith

      add_again :
          (u c n : ℕ) {v : ℕ}
          → u ≡ (s.total_fiat_withdrawn_cents + 1 * cents config s) % 2 ^ 64
          → c ≡ cents config s
          → v ≡ (u + n * c) % 2 ^ 64
          → v ≡ (s.total_fiat_withdrawn_cents + suc n * cents config s) % 2 ^ 64
      add_again u c n e f g =
          let k = cents config s in
          let spread : suc n * k ≡ 1 * k + n * k = omega arith in
          rw (spread) (
            g
            ∙ ap (λ x. (u + n * x) % 2 ^ 64) f
            ∙ ap (λ x. (x + n * k) % 2 ^ 64) e
            ∙ carry s.total_fiat_withdrawn_cents (1 * k) (n * k))
