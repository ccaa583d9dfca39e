-- ===== src/Treasury/Offramp/Sound.antt =====
-- What a successful off-ramp has gone through.
use the_ai_cowboys_6_shooter.Prelude.{
  ℕ, ◌≡◌, ◌≢◌, ◌⊎◌, if◌then◌else◌, true, false, Bool-cases, inl, inr, Option, none, some,
  Option-cases, List, [], ◌∷◌,
}
use the_ai_cowboys_6_shooter.Treasury.Offramp.{
  OfframpClient, World, ok, Call, sell, withdraw, coinbase, kraken, exchange_offramp,
  execute_offramp, is_empty, is_none, dispatch, ExchangeType,
}

-- A reply that names an id or not, as against an error.
abbrev pub Answered : World → ExchangeType → Call → Type 0
Answered world x call = world.reply x call ≢ none

exchange_offramp_sound :
    (world : World) (x : ExchangeType) (id : List ℕ)
    → exchange_offramp world x ≡ ok id
    → Answered world x sell × Answered world x withdraw
unfolding exchange_offramp
exchange_offramp_sound world x id e = elim (Option-cases (world.reply x sell)) [
  | inl failed ↦ absurd (let e' = rw (exchange_offramp, failed) at e in cc)
  | inr (sold, answered) ↦ elim (Option-cases (world.reply x withdraw)) [
    | inl failed ↦ absurd (let e' = rw (exchange_offramp, answered, failed) at e in cc)
    | inr (withdrawn, answered') ↦ (λ n. cc, λ n. cc)
  ]
]

dispatch_sound :
    (world : World) (x : ExchangeType) (id : List ℕ)
    → dispatch world x ≡ ok id
    → Answered world x sell × Answered world x withdraw
dispatch_sound world coinbase id e = exchange_offramp_sound world coinbase id e
dispatch_sound world kraken id e = exchange_offramp_sound world kraken id e

not_empty : (s : List ℕ) → is_empty s ≡ false → s ≢ []
not_empty [] e = absurd (cc)
not_empty (c ∷ s) e = λ n. cc

not_none : (o : Option (List ℕ)) → is_none o ≡ false → o ≢ none
not_none none e = absurd (cc)
not_none (some s) e = λ n. cc

-- An off-ramp that gives an id is a dry run, or it has both credentials and a bank account and the
-- client's exchange answered the sale and the withdrawal.
pub execute_offramp_sound :
    (world : World) (client : OfframpClient) (id : List ℕ)
    → execute_offramp world client ≡ ok id
    → (client.dry_run ≡ true)
      ⊎ ((client.api_key ≢ [])
          × (client.api_secret ≢ [])
          × (client.bank_account_id ≢ none)
          × Answered world client.exchange sell
          × Answered world client.exchange withdraw)
unfolding execute_offramp
execute_offramp_sound world client id e = elim (Bool-cases client.dry_run) [
  | inl dry ↦ inl dry
  | inr live ↦ elim (Bool-cases (is_empty client.api_key)) [
    | inl empty ↦ absurd (let e' = rw (execute_offramp, live, empty, if◌then◌else◌) at e in cc)
    | inr key ↦ elim (Bool-cases (is_empty client.api_secret)) [
      | inl empty ↦
          absurd (let e' = rw (execute_offramp, live, key, empty, if◌then◌else◌) at e in cc)
      | inr secret ↦ elim (Bool-cases (is_none client.bank_account_id)) [
        | inl missing ↦
            absurd
              (let e' = rw (execute_offramp, live, key, secret, missing, if◌then◌else◌) at e in cc)
        | inr bank ↦
            let e' = rw (execute_offramp, live, key, secret, bank, if◌then◌else◌) at e in
            let (sold, withdrawn) = dispatch_sound world client.exchange id e' in
            inr (
              not_empty client.api_key key,
              not_empty client.api_secret secret,
              not_none client.bank_account_id bank,
              sold,
              withdrawn,
            )
      ]
    ]
  ]
]
