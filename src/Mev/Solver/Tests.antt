-- ===== src/Mev/Solver/Tests.antt =====
-- A batch of two opposite intents, and the theorems of the sibling modules at it.
use the_ai_cowboys_6_shooter.Prelude.{ℕ, ◌≡◌, refl, List, [], ◌∷◌, some, map}
use the_ai_cowboys_6_shooter.Mev.Solver.{
  Intent, IntentMatch, IntentSolver, TokenPair, Entry, Offer, offers, match_loop, match_fuel,
  match_pair, match_pairs, solve_batch, surplus, add_intent, push_index, get, pending_count, clear,
}
use the_ai_cowboys_6_shooter.Mev.Solver
use the_ai_cowboys_6_shooter.Mev.Solver.Book.{Reachable, started, added, Indexed, Reachable-Indexed}
use the_ai_cowboys_6_shooter.Mev.Solver.Matching.{Fair, match_loop_total}

abbrev token_a : List ℕ
token_a = 1 ∷ []

abbrev token_b : List ℕ
token_b = 2 ∷ []

abbrev alice : Intent
alice = record {
  id = 10 ∷ [];
  user = 20 ∷ [];
  sell_token = token_a;
  buy_token = token_b;
  sell_amount = 1000;
  buy_amount_min = 5000;
  deadline = 7;
  signature = [];
}

abbrev bob : Intent
bob = record {
  id = 11 ∷ [];
  user = 21 ∷ [];
  sell_token = token_b;
  buy_token = token_a;
  sell_amount = 400;
  buy_amount_min = 100;
  deadline = 7;
  signature = [];
}

abbrev both : IntentSolver
both = add_intent (add_intent Solver.new alice) bob

abbrev run : Reachable both
run = added bob (added alice started)

-- The keys in the order of their insertion.
abbrev keys : List Entry → List TokenPair
keys book = map (λ (e : Entry). e.pair) book

counted : (pending_count both ≡ 2) × (pending_count (clear both) ≡ 0)
unfolding pending_count add_intent push_index clear
counted = (refl, refl)

-- The two intents are matched once from each side, although the second one sells 400 in all, and
-- although the first asks for 5000 of what it buys.
matched_twice :
    solve_batch keys both
    ≡ some (record {
      matches =
          record { intent_a = 10 ∷ []; intent_b = 11 ∷ []; matched_amount = 400 }
          ∷ record { intent_a = 11 ∷ []; intent_b = 10 ∷ []; matched_amount = 400 }
          ∷ [];
      dex_routes = [];
      total_surplus = 8;
      solver_fee = 0;
    })
unfolding solve_batch match_pairs match_pair offers match_loop surplus add_intent push_index get
matched_twice = refl

abbrev sell_side : List Offer
sell_side = record { id = 1 ∷ []; remaining = 30 } ∷ record { id = 2 ∷ []; remaining = 50 } ∷ []

abbrev buy_side : List Offer
buy_side = record { id = 3 ∷ []; remaining = 60 } ∷ []

Reachable-Indexed_example : Indexed both
Reachable-Indexed_example = Reachable-Indexed run

match_loop_total_example :
    (ms : List IntentMatch) × (match_loop (match_fuel sell_side buy_side) sell_side buy_side
      ≡ some ms)
    × Fair sell_side buy_side ms
match_loop_total_example = match_loop_total sell_side buy_side
