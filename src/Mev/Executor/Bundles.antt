-- ===== src/Mev/Executor/Bundles.antt =====
-- `execute_arbitrage` outside a dry run, down to the bytes of its two transactions.
use mathlib.Core.Path.{subst}
use the_ai_cowboys_6_shooter.Prelude.{
  ℕ, suc, ◌^◌, ◌≤◌, ◌<◌, ◌≡◌, inl, inr, refl, sym, ap, arith, ◌==◌, if◌then◌else◌, true, false,
  Bool-cases, some, ◌>>=◌, some_inj, bind_inv, List, [], ◌∷◌, ◌++◌, length, get_elem?,
}
use the_ai_cowboys_6_shooter.Net.Base58.{bs58_decode}
use the_ai_cowboys_6_shooter.Net.Solana.{
  Key, SolanaInstruction, SolanaTransaction, serialize_message, sign_and_serialize, to_le_bytes,
  build_transfer_ix,
}
use the_ai_cowboys_6_shooter.Net.Solana.Wire.{read_signed}
use the_ai_cowboys_6_shooter.Net.Solana.RoundTrip.{
  AllKeys, AllCounted, IsWire, read_signed-sign_and_serialize,
}
use the_ai_cowboys_6_shooter.Mev.Executor.{
  LiveExecutor, bundle, contains, add_accounts, remap, assemble, swap_tx, transfer_tx, key_of,
  execute_arbitrage,
}
use the_ai_cowboys_6_shooter.Mev.Executor.Accounts.{IsDistinct, Extends}
use the_ai_cowboys_6_shooter.Mev.Executor.Assembly.{
  AllNames, AllInside, AllResolve, account_total, assemble_lem,
}

-- Keys of 32 bytes, and lists that a `u16` can count.
unfoldable pub AllWire : List (List Key × SolanaInstruction) → Type 0
AllWire [] = Unit
AllWire ((accounts, ix) ∷ swaps) =
    AllKeys accounts
    × (length ix.account_indices < 2 ^ 16)
    × (length ix.payload < 2 ^ 16)
    × AllWire swaps

append-AllKeys :
    (all : List Key) (a : Key) → AllKeys all → length a ≡ 32 → AllKeys (all ++ (a ∷ []))
unfolding AllKeys
append-AllKeys [] a k e = (e, tt)
append-AllKeys (x ∷ all) a (h, k) e = (h, append-AllKeys all a k e)

add_accounts-AllKeys :
    (all accounts : List Key) → AllKeys all → AllKeys accounts → AllKeys (add_accounts all accounts)
unfolding add_accounts AllKeys
add_accounts-AllKeys all [] k h = k
add_accounts-AllKeys all (a ∷ accounts) k (e, h) = elim (Bool-cases (contains all a)) [
  | inl t ↦ rw (t, if◌then◌else◌) (add_accounts-AllKeys all accounts k h)
  | inr t ↦
      rw (t, if◌then◌else◌)
        (add_accounts-AllKeys (all ++ (a ∷ [])) accounts (append-AllKeys all a k e) h)
]

assemble-AllKeys :
    (all : List Key) (swaps : List (List Key × SolanaInstruction))
    {out : List Key × List SolanaInstruction}
    → AllKeys all
    → AllWire swaps
    → assemble all swaps ≡ some out
    → AllKeys out.0
unfolding assemble AllWire
assemble-AllKeys all [] k w e = subst (λ o. AllKeys o.0) (some_inj e) k
assemble-AllKeys all ((accounts, ix) ∷ swaps) k (h, _, _, w) e =
    let known = add_accounts all accounts in
    let (one, _, f) = bind_inv (remap known accounts ix) _ e in
    let (more, g, last) = bind_inv (assemble known swaps) _ f in
    let keys = assemble-AllKeys known swaps (add_accounts-AllKeys all accounts k h) w g in
    subst (λ o. AllKeys o.0) (some_inj last) keys

AllNames-length :
    (all accounts : List Key) (is indices : List ℕ)
    → AllNames all accounts is indices
    → length is ≡ length indices
unfolding AllNames
AllNames-length all accounts [] [] h = refl
AllNames-length all accounts [] (idx ∷ indices) h = absurd h
AllNames-length all accounts (i ∷ is) [] h = absurd h
AllNames-length all accounts (i ∷ is) (idx ∷ indices) (_, h) =
    ap suc (AllNames-length all accounts is indices h)

AllResolve-AllCounted :
    (all : List Key) (swaps : List (List Key × SolanaInstruction)) (ones : List SolanaInstruction)
    → AllResolve all swaps ones
    → AllWire swaps
    → AllCounted ones × (length ones ≡ length swaps)
unfolding AllResolve AllWire AllCounted
AllResolve-AllCounted all [] [] r w = (tt, refl)
AllResolve-AllCounted all [] (one ∷ ones) r w = absurd r
AllResolve-AllCounted all (swap ∷ swaps) [] r w = absurd r
AllResolve-AllCounted all ((accounts, ix) ∷ swaps) (one ∷ ones) (r, rs) (_, h, p, w) =
    let (c, e) = AllResolve-AllCounted all swaps ones rs w in
    let n = AllNames-length all accounts one.account_indices ix.account_indices r.accounts_same in
    ((omega (arith, n, h), subst (λ l. length l < 2 ^ 16) (sym r.payload_same) p, c), ap suc e)

transfer-IsWire :
    (blockhash from to : Key) (lamports : ℕ)
    → length blockhash ≡ 32
    → length from ≡ 32
    → length to ≡ 32
    → IsWire (transfer_tx blockhash from to lamports)
unfolding build_transfer_ix AllKeys AllCounted to_le_bytes
transfer-IsWire blockhash from to lamports b f t = record {
  keys = (f, (t, (refl, tt)));
  key_count = omega arith;
  blockhash = b;
  counted = (omega arith, omega arith, tt);
  instruction_count = omega arith;
}

-- What a bundle of two transactions carries: the bytes of the first are read back as a transaction
-- with the signer first among its accounts, none twice, whose instructions resolve to the swaps;
-- those of the second as the transfer of the tip. Both carry the signature of their message.
pub record IsBundle (executor : LiveExecutor) (blockhash tip : Key)
    (swaps : List (List Key × SolanaInstruction)) (tip_lamports : ℕ) (transactions : List (List ℕ))
    : Type 0 where
  pub first : List ℕ
  pub second : List ℕ
  pub both : transactions ≡ first ∷ second ∷ []
  pub tx : SolanaTransaction
  pub first_read : read_signed first ≡ some (executor.sign (serialize_message tx), tx)
  pub payer : get_elem? tx.account_keys 0 ≡ some executor.pubkey
  pub distinct : IsDistinct tx.account_keys
  pub resolved : AllResolve tx.account_keys swaps tx.instructions
  pub recent : tx.recent_blockhash ≡ blockhash
  pub second_read :
      let transfer = transfer_tx blockhash executor.pubkey tip tip_lamports in
      read_signed second ≡ some (executor.sign (serialize_message transfer), transfer)

-- Outside a dry run, with keys and a blockhash of 32 bytes, signatures of 64, a tip account that
-- decodes to a key, at most 255 accounts of swaps whose indices are inside their accounts, and lists
-- of fewer than 2^16 elements, the executor does not panic and submits such a bundle.
pub execute_arbitrage_lem :
    (executor : LiveExecutor) (blockhash tip : Key) (tip_account : List ℕ)
    (swaps : List (List Key × SolanaInstruction)) (tip_lamports : ℕ)
    → executor.dry_run ≡ false
    → ((message : List ℕ) → length (executor.sign message) ≡ 64)
    → length executor.pubkey ≡ 32
    → length blockhash ≡ 32
    → bs58_decode tip_account ≡ some tip
    → length tip ≡ 32
    → AllInside swaps
    → AllWire swaps
    → account_total swaps ≤ 255
    → length swaps < 2 ^ 16
    → (transactions : List (List ℕ)) × (execute_arbitrage executor blockhash tip_account swaps
          tip_lamports
        ≡ some (bundle transactions))
      × IsBundle executor blockhash tip swaps tip_lamports transactions
unfolding execute_arbitrage
execute_arbitrage_lem executor blockhash tip tip_account swaps tip_lamports live long payer recent
      decoded size inside wire few count =
    let (more, ones, e, k, d, rs, total) =
      assemble_lem (executor.pubkey ∷ []) swaps inside (omega (arith, few)) in
    let keys =
      assemble-AllKeys (executor.pubkey ∷ []) swaps (unfold AllKeys in (payer, tt)) wire e in
    let (counted, n) = AllResolve-AllCounted more swaps ones rs wire in
    let tx = swap_tx blockhash more ones in
    let w : IsWire tx = record {
      keys = keys;
      key_count = omega (arith, total, few);
      blockhash = recent;
      counted = counted;
      instruction_count = omega (arith, n, count);
    } in
    let tip_key : key_of (some tip) ≡ tip =
      (let f : (length tip == 32) ≡ true = ground (arith, size) in rw (f, if◌then◌else◌) refl) in
    let transfer = transfer_tx blockhash executor.pubkey tip tip_lamports in
    let t = transfer-IsWire blockhash executor.pubkey tip tip_lamports recent payer size in
    (
      sign_and_serialize executor.sign tx ∷ sign_and_serialize executor.sign transfer ∷ [],
      rw (live, if◌then◌else◌, e, ◌>>=◌, decoded, tip_key) refl,
      record {
        first = sign_and_serialize executor.sign tx;
        second = sign_and_serialize executor.sign transfer;
        both = refl;
        tx = tx;
        first_read = read_signed-sign_and_serialize executor.sign tx long w;
        payer = unfold Extends in k 0 executor.pubkey refl;
        distinct = d (unfold IsDistinct in (refl, tt));
        resolved = rs;
        recent = refl;
        second_read = read_signed-sign_and_serialize executor.sign transfer long t;
      },
    )
