-- ===== src/Mev/Executor/Tests.antt =====
-- Two swaps that share their user's accounts, in one bundle.
use the_ai_cowboys_6_shooter.Prelude.{
  ℕ, ◌≡◌, refl, arith, false, Option, none, some, List, [], ◌∷◌, replicate,
}
use the_ai_cowboys_6_shooter.Net.Base58.{push_carry, scale_digits, decode_digits, bs58_decode}
use the_ai_cowboys_6_shooter.Net.Solana.{Key, SolanaInstruction, to_le_bytes}
use the_ai_cowboys_6_shooter.Net.Solana.RoundTrip.{AllKeys}
use the_ai_cowboys_6_shooter.Mev.Executor.{
  LiveExecutor, bundle, select_discriminator, build_generic_swap, raydium_swap_discriminator,
  key_of, add_accounts, position, remap_one, remap_indices, remap, assemble, execute_arbitrage,
}
use the_ai_cowboys_6_shooter.Mev.Executor.Assembly.{AllInside, Inside, account_total}
use the_ai_cowboys_6_shooter.Mev.Executor.Bundles.{AllWire, IsBundle, execute_arbitrage_lem}

abbrev key : ℕ → Key
key n = replicate 32 n

abbrev swaps : List (List Key × SolanaInstruction)
swaps =
    build_generic_swap (key 50) (key 10 ∷ key 11 ∷ []) (key 1) (key 2) (key 3) 1000 990
    ∷ build_generic_swap (key 51) (key 12 ∷ []) (key 2) (key 1) (key 3) 990 1001
    ∷ []

abbrev executor : LiveExecutor
executor = record { pubkey = key 3; sign = λ message. replicate 64 7; dry_run = false }

abbrev indices_of : Option (List Key × List SolanaInstruction) → List (ℕ × List ℕ)
indices_of none = []
indices_of (some (accounts, [])) = []
indices_of (some (accounts, ix ∷ [])) = (ix.program_id_idx, ix.account_indices) ∷ []
indices_of (some (accounts, ix ∷ next ∷ rest)) =
    (ix.program_id_idx, ix.account_indices) ∷ (next.program_id_idx, next.account_indices) ∷ []

-- The signer stands at 0, and the second swap names the accounts of the first.
shared :
    indices_of (assemble (key 3 ∷ []) swaps)
    ≡ ((5, 1 ∷ 2 ∷ 3 ∷ 4 ∷ 0 ∷ []) ∷ (7, 6 ∷ 4 ∷ 3 ∷ 0 ∷ []) ∷ [])
unfolding assemble add_accounts remap remap_one remap_indices position build_generic_swap
shared = refl

-- "whirLbMiicVdio4qvUfM5KAg6Ct8VwpYzGff3uctyCc"
abbrev whirlpool_id : List ℕ
whirlpool_id =
    119 ∷ 104 ∷ 105 ∷ 114 ∷ 76 ∷ 98 ∷ 77 ∷ 105 ∷ 105 ∷ 99 ∷ 86 ∷ 100 ∷ 105 ∷ 111 ∷ 52 ∷ 113 ∷ 118
    ∷ 85 ∷ 102 ∷ 77 ∷ 53 ∷ 75 ∷ 65 ∷ 103 ∷ 54 ∷ 67 ∷ 116 ∷ 56 ∷ 86 ∷ 119 ∷ 112 ∷ 89 ∷ 122 ∷ 71 ∷ 102
    ∷ 102 ∷ 51 ∷ 117 ∷ 99 ∷ 116 ∷ 121 ∷ 67 ∷ 99 ∷ []

-- The program of Orca is not recognised by its prefix.
orca_missed : select_discriminator (key_of (bs58_decode whirlpool_id)) ≡ raydium_swap_discriminator
unfolding select_discriminator bs58_decode decode_digits scale_digits push_carry
orca_missed = refl

abbrev tip_account : List ℕ
tip_account = replicate 32 49

tip_decodes : bs58_decode tip_account ≡ some (replicate 32 0)
unfolding bs58_decode decode_digits scale_digits push_carry
tip_decodes = refl

swaps-AllInside : AllInside swaps
unfolding AllInside Inside build_generic_swap
swaps-AllInside = (
  omega arith,
  (omega arith, (omega arith, (omega arith, (omega arith, (omega arith, tt))))),
  (omega arith, (omega arith, (omega arith, (omega arith, (omega arith, tt)))), tt),
)

swaps-AllWire : AllWire swaps
unfolding AllWire AllKeys build_generic_swap select_discriminator to_le_bytes
swaps-AllWire = (
  (refl, (refl, (refl, (refl, (refl, (refl, tt)))))),
  omega arith,
  omega arith,
  ((refl, (refl, (refl, (refl, (refl, tt))))), omega arith, omega arith, tt),
)

execute_arbitrage_lem_example :
    (transactions : List (List ℕ)) × (execute_arbitrage executor (key 9) tip_account swaps 5
      ≡ some (bundle transactions))
    × IsBundle executor (key 9) (replicate 32 0) swaps 5 transactions
unfolding account_total build_generic_swap
execute_arbitrage_lem_example =
    execute_arbitrage_lem executor (key 9) (replicate 32 0) tip_account swaps 5 refl
      (λ message. refl) refl refl tip_decodes refl swaps-AllInside swaps-AllWire (omega arith)
      (omega arith)
