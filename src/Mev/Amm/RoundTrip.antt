-- ===== src/Mev/Amm/RoundTrip.antt =====
-- Parsing what `build_raydium_swap` of src/mev/executor.rs builds.
use the_ai_cowboys_6_shooter.Prelude.{
  ℕ, zero, suc, ◌*◌, ◌/◌, ◌^◌, ◌<◌, ◌≡◌, refl, sym, ap, ◌∙◌, arith, ltb, ◌==◌, if◌then◌else◌, true,
  false, Option, some, ◌>>=◌, bind_inv, some_inj, List, [], ◌∷◌, length, get_elem?,
}
use the_ai_cowboys_6_shooter.Net.Base58.{bs58_encode, bs58_decode}
use the_ai_cowboys_6_shooter.Net.Base58.RoundTrip.{Below, bs58_decode-encode}
use the_ai_cowboys_6_shooter.Net.Solana.{Key, to_le_bytes}
use the_ai_cowboys_6_shooter.Mev.Executor.{RaydiumKeys, build_raydium_swap}
use the_ai_cowboys_6_shooter.Mev.Amm.{
  MempoolTransaction, from_le_bytes, decode_account, account_at, parse_raydium,
  parse_swap_instruction,
}

from_le_bytes-to_le_bytes :
    (width n : ℕ) → n < 256 ^ width → from_le_bytes (to_le_bytes width n) ≡ n
unfolding from_le_bytes to_le_bytes
from_le_bytes-to_le_bytes zero n h = omega (arith, h)
from_le_bytes-to_le_bytes (suc width) n h =
    let power : 256 ^ suc width ≡ 256 ^ width * 256 = omega arith in
    let rest = from_le_bytes-to_le_bytes width (n / 256) (omega (arith, h, power)) in
    omega (arith, rest)

-- A key of 32 bytes.
pub record IsKey (key : Key) : Type 0 where
  pub bytes : Below 256 key
  pub size : length key ≡ 32

decode_account-encode :
    (key : Key) {s : List ℕ} → IsKey key → bs58_encode key ≡ some s → decode_account s ≡ key
decode_account-encode key {s} k e =
    let (t, f, g) = bs58_decode-encode key k.bytes in
    let same : t ≡ s = some_inj (sym f ∙ e) in
    let back : bs58_decode s ≡ some key = ap bs58_decode (sym same) ∙ g in
    let size : (length key == 32) ≡ true = ground (arith, k.size) in
    rw (back, size, if◌then◌else◌) refl

-- The strings of the accounts.
unfoldable pub encode_all : List Key → Option (List (List ℕ))
encode_all [] = some []
encode_all (key ∷ keys) = do s ← bs58_encode key; rest ← encode_all keys; some (s ∷ rest)

encode_all-length :
    (keys : List Key) {strings : List (List ℕ)}
    → encode_all keys ≡ some strings
    → length strings ≡ length keys
unfolding encode_all
encode_all-length [] e = ap length (sym (some_inj e))
encode_all-length (key ∷ keys) e =
    let (s, f, g) = bind_inv (bs58_encode key) _ e in
    let (rest, h, last) = bind_inv (encode_all keys) _ g in
    ap length (sym (some_inj last)) ∙ ap suc (encode_all-length keys h)

account_at-encode_all :
    (keys : List Key) (i : ℕ) (key : Key) {strings : List (List ℕ)}
    → encode_all keys ≡ some strings
    → get_elem? keys i ≡ some key
    → IsKey key
    → account_at strings i ≡ key
unfolding encode_all
account_at-encode_all [] i key e f k = absurd (cc)
account_at-encode_all (x ∷ keys) zero key e f k =
    let (s, g, h) = bind_inv (bs58_encode x) _ e in
    let (rest, _, last) = bind_inv (encode_all keys) _ h in
    let same : x ≡ key = some_inj f in
    ap (λ strings. account_at strings 0) (sym (some_inj last))
    ∙ decode_account-encode key k (ap bs58_encode (sym same) ∙ g)
account_at-encode_all (x ∷ keys) (suc i) key e f k =
    let (s, g, h) = bind_inv (bs58_encode x) _ e in
    let (rest, m, last) = bind_inv (encode_all keys) _ h in
    ap (λ strings. account_at strings (suc i)) (sym (some_inj last))
    ∙ account_at-encode_all keys i key m f k

-- A transaction with the accounts and the payload that `build_raydium_swap` gives, its accounts in
-- base58, is parsed as the swap: the pool, the user's two token accounts and the user of the keys,
-- and the two amounts.
pub parse_swap_instruction-build_raydium_swap :
    (k : RaydiumKeys) (amount_in minimum_amount_out : ℕ) (tx : MempoolTransaction)
    → IsKey k.amm_id
    → IsKey k.user_source_token
    → IsKey k.user_dest_token
    → IsKey k.user_owner
    → amount_in < 2 ^ 64
    → minimum_amount_out < 2 ^ 64
    → encode_all (build_raydium_swap k amount_in minimum_amount_out).0 ≡ some tx.accounts
    → tx.payload ≡ (build_raydium_swap k amount_in minimum_amount_out).1.payload
    → parse_swap_instruction tx
      ≡ some (record {
        pool_id = k.amm_id;
        token_in = k.user_source_token;
        token_out = k.user_dest_token;
        amount_in = amount_in;
        min_amount_out = minimum_amount_out;
        user = k.user_owner;
      })
unfolding parse_swap_instruction parse_raydium build_raydium_swap to_le_bytes
parse_swap_instruction-build_raydium_swap k a b tx pool source dest owner ha hb strings e =
    let keys = (build_raydium_swap k a b).0 in
    let count = encode_all-length keys strings in
    let enough : ltb (length tx.accounts) 18 ≡ false = ground (arith, count) in
    let e1 = account_at-encode_all keys 1 k.amm_id strings refl pool in
    let e15 = account_at-encode_all keys 15 k.user_source_token strings refl source in
    let e16 = account_at-encode_all keys 16 k.user_dest_token strings refl dest in
    let e17 = account_at-encode_all keys 17 k.user_owner strings refl owner in
    let va : from_le_bytes (to_le_bytes 8 a) ≡ a =
      from_le_bytes-to_le_bytes 8 a (omega (arith, ha)) in
    let vb : from_le_bytes (to_le_bytes 8 b) ≡ b =
      from_le_bytes-to_le_bytes 8 b (omega (arith, hb)) in
    rw (e, enough, if◌then◌else◌, e1, e15, e16, e17, va, vb) refl
