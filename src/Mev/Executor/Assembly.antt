-- ===== src/Mev/Executor/Assembly.antt =====
-- The loop of `execute_arbitrage` that merges the accounts of the swaps and remaps their indices.

use the_ai_cowboys_6_shooter.Prelude.{
  ℕ, ◌+◌, ◌%◌, ◌≤◌, ◌<◌, ◌≡◌, refl, arith, some, ◌>>=◌, List, [], ◌∷◌, length, get_elem?,
  get_elem?-inside, inside-get_elem?, In,
}
use the_ai_cowboys_6_shooter.Net.Solana.{Key, SolanaInstruction}
use the_ai_cowboys_6_shooter.Mev.Executor.{add_accounts, remap_one, remap_indices, remap, assemble}
use the_ai_cowboys_6_shooter.Mev.Executor.Accounts.{
  IsDistinct, Extends, Extends-Extends, add_accounts-Added, position-In, get_elem?-In,
}

-- The index `i` names in `all` the account that `idx` names in `accounts`.
abbrev pub Names : List Key → List Key → ℕ → ℕ → Type 0
Names all accounts i idx =
    (acc : Key) × (get_elem? all i ≡ some acc) × (get_elem? accounts idx ≡ some acc)

unfoldable pub AllNames : List Key → List Key → List ℕ → List ℕ → Type 0
AllNames all accounts [] [] = Unit
AllNames all accounts [] (idx ∷ indices) = ⊥
AllNames all accounts (i ∷ is) [] = ⊥
AllNames all accounts (i ∷ is) (idx ∷ indices) =
    Names all accounts i idx × AllNames all accounts is indices

-- The instruction `one` calls the program of `ix`, on its accounts, with its payload.
pub record Resolves (all accounts : List Key) (ix one : SolanaInstruction) : Type 0 where
  pub program : Names all accounts one.program_id_idx ix.program_id_idx
  pub accounts_same : AllNames all accounts one.account_indices ix.account_indices
  pub payload_same : one.payload ≡ ix.payload

Extends-Names :
    (all more accounts : List Key) (i idx : ℕ)
    → Extends all more
    → Names all accounts i idx
    → Names more accounts i idx
unfolding Extends
Extends-Names all more accounts i idx k (acc, e, f) = (acc, k i acc e, f)

Extends-AllNames :
    (all more accounts : List Key) (is indices : List ℕ)
    → Extends all more
    → AllNames all accounts is indices
    → AllNames more accounts is indices
unfolding AllNames
Extends-AllNames all more accounts [] [] k h = h
Extends-AllNames all more accounts [] (idx ∷ indices) k h = h
Extends-AllNames all more accounts (i ∷ is) [] k h = h
Extends-AllNames all more accounts (i ∷ is) (idx ∷ indices) k (h, hs) =
    (Extends-Names all more accounts i idx k h, Extends-AllNames all more accounts is indices k hs)

Extends-Resolves :
    (all more accounts : List Key) (ix one : SolanaInstruction)
    → Extends all more
    → Resolves all accounts ix one
    → Resolves more accounts ix one
Extends-Resolves all more accounts ix one k r = record {
  program = Extends-Names all more accounts one.program_id_idx ix.program_id_idx k r.program;
  accounts_same =
      Extends-AllNames all more accounts one.account_indices ix.account_indices k r.accounts_same;
  payload_same = r.payload_same;
}

-- Indices inside the list of accounts.
unfoldable pub Inside : List Key → List ℕ → Type 0
Inside accounts [] = Unit
Inside accounts (idx ∷ indices) = (idx < length accounts) × Inside accounts indices

module _ (all accounts : List Key) where
  remap_one-Names :
      (idx : ℕ)
      → ((acc : Key) → In acc accounts → In acc all)
      → length all ≤ 256
      → idx < length accounts
      → (i : ℕ) × (remap_one all accounts idx ≡ some i) × Names all accounts i idx
  unfolding remap_one
  remap_one-Names idx has small h =
      let (acc, e) = get_elem?-inside accounts idx h in
      let (i, f, g) = position-In all acc (has acc (get_elem?-In accounts idx acc e)) in
      let below = inside-get_elem? all i {x = acc} g in
      let same : i % 256 ≡ i = omega (arith, below, small) in
      (i, rw (e, ◌>>=◌, f, same) refl, (acc, g, e))

  remap_indices-AllNames :
      (indices : List ℕ)
      → ((acc : Key) → In acc accounts → In acc all)
      → length all ≤ 256
      → Inside accounts indices
      → (is : List ℕ) × (remap_indices all accounts indices ≡ some is)
        × AllNames all accounts is indices
  unfolding remap_indices AllNames Inside
  remap_indices-AllNames [] has small h = ([], refl, tt)
  remap_indices-AllNames (idx ∷ indices) has small (h, hs) =
      let (i, e, n) = remap_one-Names idx has small h in
      let (is, f, ns) = remap_indices-AllNames indices has small hs in
      (i ∷ is, rw (e, ◌>>=◌, f) refl, (n, ns))

  remap-Resolves :
      (ix : SolanaInstruction)
      → ((acc : Key) → In acc accounts → In acc all)
      → length all ≤ 256
      → ix.program_id_idx < length accounts
      → Inside accounts ix.account_indices
      → (one : SolanaInstruction) × (remap all accounts ix ≡ some one)
        × Resolves all accounts ix one
  unfolding remap
  remap-Resolves ix has small p h =
      let (i, e, n) = remap_one-Names ix.program_id_idx has small p in
      let (is, f, ns) = remap_indices-AllNames ix.account_indices has small h in
      (
        record { program_id_idx = i; account_indices = is; payload = ix.payload },
        rw (e, ◌>>=◌, f) refl,
        record { program = n; accounts_same = ns; payload_same = refl },
      )

-- The indices of every swap are inside its own accounts.
unfoldable pub AllInside : List (List Key × SolanaInstruction) → Type 0
AllInside [] = Unit
AllInside ((accounts, ix) ∷ swaps) =
    (ix.program_id_idx < length accounts) × Inside accounts ix.account_indices × AllInside swaps

-- The number of accounts of the swaps, with repetitions.
unfoldable pub account_total : List (List Key × SolanaInstruction) → ℕ
account_total [] = 0
account_total ((accounts, ix) ∷ swaps) = length accounts + account_total swaps

-- One instruction for each swap.
unfoldable pub AllResolve :
    List Key → List (List Key × SolanaInstruction) → List SolanaInstruction → Type 0
AllResolve all [] [] = Unit
AllResolve all [] (one ∷ ones) = ⊥
AllResolve all (swap ∷ swaps) [] = ⊥
AllResolve all ((accounts, ix) ∷ swaps) (one ∷ ones) =
    Resolves all accounts ix one × AllResolve all swaps ones

-- With at most 256 accounts in all, and indices inside the accounts, the swaps are merged without a
-- panic: the list keeps the accounts it began with at their places, has no account twice if it had
-- none before, and every instruction resolves to the program, the accounts and the payload of its
-- swap.
pub assemble_lem :
    (all : List Key) (swaps : List (List Key × SolanaInstruction))
    → AllInside swaps
    → length all + account_total swaps ≤ 256
    → (more : List Key) × (ones : List SolanaInstruction) × (assemble all swaps ≡ some (more, ones))
      × Extends all more
      × (IsDistinct all → IsDistinct more)
      × AllResolve more swaps ones
      × (length more ≤ length all + account_total swaps)
unfolding assemble AllInside account_total AllResolve Extends
assemble_lem all [] h small = (all, [], refl, (λ i acc e. e), (λ k. k), tt, omega arith)
assemble_lem all ((accounts, ix) ∷ swaps) (p, h, hs) small =
    let known = add_accounts all accounts in
    let a = add_accounts-Added all accounts in
    let (one, e, r) = remap-Resolves known accounts ix a.has (omega (arith, a.size, small)) p h in
    let (more, ones, f, k, d, rs, few) =
      assemble_lem known swaps hs (omega (arith, a.size, small)) in
    (
      more,
      one ∷ ones,
      rw (e, ◌>>=◌, f) refl,
      Extends-Extends all known more a.extends k,
      (λ g. d (a.distinct g)),
      (Extends-Resolves known more accounts ix one k r, rs),
      omega (arith, few, a.size),
    )
