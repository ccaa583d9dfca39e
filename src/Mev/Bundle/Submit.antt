-- ===== src/Mev/Bundle/Submit.antt =====
-- `submit` on the bundles of `construct`.
use the_ai_cowboys_6_shooter.Prelude.{
  ℕ, ◌≡◌, refl, arith, ltb, if◌then◌else◌, false, none, some, ◌>>=◌, List, [], ◌∷◌, length,
  Bool-cases, Option-cases, inl, inr, ap, ◌/◌,
}
use the_ai_cowboys_6_shooter.Net.Solana.{Key, SolanaInstruction}
use the_ai_cowboys_6_shooter.Mev.Executor.{
  LiveExecutor, dry, add_accounts, remap_one, remap, assemble, execute_arbitrage,
}
use the_ai_cowboys_6_shooter.Mev.Bundle.{
  RouteLeg, ArbitrageRoute, OptimalInput, BundleConstructor, dry_run_signature, no_executor,
  executed, build_tip_ix, build_swap_ix, build_legs, construct, all_but_last, rebuild, submit,
}

-- An instruction on no accounts has no program.
assemble-empty :
    (all : List Key) (ix : SolanaInstruction) (swaps : List (List Key × SolanaInstruction))
    → assemble all (([], ix) ∷ swaps) ≡ none
unfolding assemble remap remap_one add_accounts
assemble-empty all ix swaps = refl

-- The transaction of a leg has its discriminator, so it is not skipped.
rebuild-build_legs :
    (leg : RouteLeg) (legs : List RouteLeg) (amount : ℕ)
    → (ix : SolanaInstruction) × (swaps : List (List Key × SolanaInstruction)) × (rebuild
          (build_legs (leg ∷ legs) amount [])
        ≡ ([], ix) ∷ swaps)
unfolding rebuild build_legs build_swap_ix
rebuild-build_legs leg legs amount =
    let tx = build_swap_ix leg.pool_id leg.token_in leg.token_out amount in
    let long : ltb (length tx) 8 ≡ false = ground arith in
    (
      record { program_id_idx = 0; account_indices = []; payload = tx },
      rebuild (build_legs legs amount []),
      rw (long, if◌then◌else◌) refl,
    )

-- The last transaction of a bundle is its tip.
all_but_last-build_legs :
    (legs : List RouteLeg) (amount : ℕ) (tip : List ℕ)
    → all_but_last (build_legs legs amount (tip ∷ [])) ≡ build_legs legs amount []
unfolding build_legs
all_but_last-build_legs [] amount tip = refl
all_but_last-build_legs (a ∷ []) amount tip = refl
all_but_last-build_legs (a ∷ b ∷ legs) amount tip =
    ap (λ (txs : List (List ℕ)). build_swap_ix a.pool_id a.token_in a.token_out amount ∷ txs)
      (all_but_last-build_legs (b ∷ legs) amount tip)

module _ (recent : Key) (tip_account : List ℕ) where
  live :
      (executor : LiveExecutor) (leg : RouteLeg) (legs : List RouteLeg) (amount tip_lamports : ℕ)
      → execute_arbitrage executor recent tip_account
          (rebuild (build_legs (leg ∷ legs) amount []))
          tip_lamports
        ≡ (if executor.dry_run then some dry else none)
  unfolding execute_arbitrage
  live executor leg legs amount tip_lamports =
      let (ix, swaps, e) = rebuild-build_legs leg legs amount in
      let stop = assemble-empty (executor.pubkey ∷ []) ix swaps in
      elim (Bool-cases executor.dry_run) [
        | inl t ↦ rw (t, if◌then◌else◌) refl
        | inr f ↦ rw (f, if◌then◌else◌, e, stop, ◌>>=◌) refl
      ]

  -- The bundle of a route with at least one leg is never sent: in a dry run of the constructor
  -- `submit` returns the made-up signature, without an executor the error, with an executor in a dry
  -- run the outcome of that dry run, and with a live executor it panics.
  pub submit_lem :
      (constructor : BundleConstructor) (route : ArbitrageRoute) (leg : RouteLeg)
      (legs : List RouteLeg) (optimal : OptimalInput)
      → route.legs ≡ leg ∷ legs
      → submit constructor recent tip_account (construct route optimal) ≡ (
          if constructor.dry_run then some dry_run_signature else elim constructor.executor [
            | none ↦ some no_executor
            | some executor ↦ if executor.dry_run then some (executed dry) else none
          ])
  unfolding submit construct
  submit_lem constructor route leg legs optimal e = elim (Bool-cases constructor.dry_run) [
    | inl t ↦ rw (t, if◌then◌else◌) refl
    | inr f ↦
        let parts =
          all_but_last-build_legs (leg ∷ legs) optimal.input_amount
            (build_tip_ix (route.expected_profit / 10)) in
        elim (Option-cases constructor.executor) [
          | inl n ↦ rw (f, if◌then◌else◌, n) refl
          | inr (executor, n) ↦
              let done = live executor leg legs optimal.input_amount (route.expected_profit / 10) in
              rw (f, if◌then◌else◌, n, e, parts, done)
                (elim (Bool-cases executor.dry_run) [
                  | inl t ↦ rw (t, if◌then◌else◌) refl
                  | inr g ↦ rw (g, if◌then◌else◌) refl
                ])
        ]
  ]
