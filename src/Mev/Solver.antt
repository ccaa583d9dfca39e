-- ===== src/Mev/Solver.antt =====
-- src/mev/solver.rs: the batch auction over user intents. A `HashMap` is an association list, and
-- the order in which it lists its keys is a parameter. `none` is a panic.
pub mod Matching
pub mod Book
pub mod Draws
pub mod Batch
mod Tests
use the_ai_cowboys_6_shooter.Prelude.{
  ℕ, zero, suc, ◌-◌, ◌/◌, ◌+◌, ◌*◌, min, ◌==◌, ◌&&◌, if◌then◌else◌, Bool, true, false, Option, none,
  some, ◌>>=◌, List, [], ◌∷◌, ◌++◌, length, get_elem?, eq_list,
}
use the_ai_cowboys_6_shooter.Prelude.Words.{add_u128}
use the_ai_cowboys_6_shooter.Net.Solana.{Key}

pub record Intent : Type 0 where
  pub id : Key
  pub user : Key
  pub sell_token : Key
  pub buy_token : Key
  pub sell_amount : ℕ
  pub buy_amount_min : ℕ
  pub deadline : ℕ
  pub signature : List ℕ

pub record IntentMatch : Type 0 where
  pub intent_a : Key
  pub intent_b : Key
  pub matched_amount : ℕ

pub record DexRoute : Type 0 where
  pub intent_id : Key
  pub pool_id : Key
  pub amount_in : ℕ
  pub expected_out : ℕ

pub record BatchSolution : Type 0 where
  pub matches : List IntentMatch
  pub dex_routes : List DexRoute
  pub total_surplus : ℕ
  pub solver_fee : ℕ

-- A pair of tokens, sold and bought.
pub record TokenPair : Type 0 where
  pub sell : Key
  pub buy : Key

pub record Entry : Type 0 where
  pub pair : TokenPair
  pub indices : List ℕ

pub record IntentSolver : Type 0 where
  pub pending_intents : List Intent
  pub order_book : List Entry

abbrev pub same_pair : TokenPair → TokenPair → Bool
same_pair p q = eq_list p.sell q.sell && eq_list p.buy q.buy

abbrev pub new : IntentSolver
new = record { pending_intents = []; order_book = [] }

-- `order_book.get(pair)`
unfoldable pub get : List Entry → TokenPair → Option (List ℕ)
get [] pair = none
get (entry ∷ book) pair = if same_pair entry.pair pair then some entry.indices else get book pair

-- `order_book.entry(pair).or_default().push(idx)`
unfoldable pub push_index : List Entry → TokenPair → ℕ → List Entry
push_index [] pair idx = record { pair = pair; indices = idx ∷ [] } ∷ []
push_index (entry ∷ book) pair idx =
    if same_pair entry.pair pair
    then record entry { indices = entry.indices ++ idx ∷ [] } ∷ book
    else (entry ∷ push_index book pair idx)

abbrev pub pair_of : Intent → TokenPair
pair_of intent = record { sell = intent.sell_token; buy = intent.buy_token }

unfoldable pub add_intent : IntentSolver → Intent → IntentSolver
add_intent solver intent = record {
  pending_intents = solver.pending_intents ++ intent ∷ [];
  order_book = push_index solver.order_book (pair_of intent) (length solver.pending_intents);
}

unfoldable pub clear : IntentSolver → IntentSolver
clear solver = record { pending_intents = []; order_book = [] }

unfoldable pub pending_count : IntentSolver → ℕ
pending_count solver = length solver.pending_intents

-- What one side still offers: an intent's id and its remaining amount.
pub record Offer : Type 0 where
  pub id : Key
  pub remaining : ℕ

-- `pending_intents[i]` for the indices of one side, with the ids that the matches name.
unfoldable pub offers : List Intent → List ℕ → Option (List Offer)
offers pending [] = some []
offers pending (i ∷ indices) = get_elem? pending i >>= λ intent. offers pending indices >>= λ rest.
    some (record { id = intent.id; remaining = intent.sell_amount } ∷ rest)

-- The loop over the two sides, from the cursors `s_idx` and `b_idx` on: the offers before them are
-- not read again. `none` is a loop that the fuel does not finish.
unfoldable pub match_loop : ℕ → List Offer → List Offer → Option (List IntentMatch)
match_loop zero sellers buyers = none
match_loop (suc fuel) [] buyers = some []
match_loop (suc fuel) (s ∷ sellers) [] = some []
match_loop (suc fuel) (s ∷ sellers) (b ∷ buyers) = elim (s.remaining == 0) [
  | true ↦ match_loop fuel sellers (b ∷ buyers)
  | false ↦ elim (b.remaining == 0) [
    | true ↦ match_loop fuel (s ∷ sellers) buyers
    | false ↦
        let matched = min s.remaining b.remaining in
        match_loop fuel (record s { remaining = s.remaining - matched } ∷ sellers)
          (record b { remaining = b.remaining - matched } ∷ buyers)
        >>= λ rest.
            some (record { intent_a = s.id; intent_b = b.id; matched_amount = matched } ∷ rest)
  ]
]

-- A round drops an offer or empties one, so two rounds for each offer and one to stop are enough.
abbrev pub match_fuel : List Offer → List Offer → ℕ
match_fuel sellers buyers = 2 * (length sellers + length buyers) + 1

-- `total_surplus += matched / 100` for each match.
unfoldable pub surplus : ℕ → List IntentMatch → ℕ
surplus total [] = total
surplus total (found ∷ rest) = surplus (add_u128 total (found.matched_amount / 100)) rest

-- One round of the loop over the pairs: its matches.
unfoldable pub match_pair : IntentSolver → TokenPair → Option (List IntentMatch)
match_pair solver pair = elim (get solver.order_book pair) [
  | none ↦ some []
  | some sellers ↦ elim (get solver.order_book (record { sell = pair.buy; buy = pair.sell })) [
    | none ↦ some []
    | some buyers ↦ do
      s_remaining ← offers solver.pending_intents sellers
      b_remaining ← offers solver.pending_intents buyers
      match_loop (match_fuel s_remaining b_remaining) s_remaining b_remaining
  ]
]

unfoldable pub match_pairs : IntentSolver → List TokenPair → Option (List IntentMatch)
match_pairs solver [] = some []
match_pairs solver (pair ∷ pairs) =
    match_pair solver pair >>= λ found. match_pairs solver pairs >>= λ rest. some (found ++ rest)

-- `keys` lists the keys of the map.
unfoldable pub solve_batch : (List Entry → List TokenPair) → IntentSolver → Option BatchSolution
solve_batch keys solver = match_pairs solver (keys solver.order_book) >>= λ matches.
    let total = surplus 0 matches in
    some (record {
      matches = matches;
      dex_routes = [];
      total_surplus = total;
      solver_fee = total / 10;
    })
