-- ===== src/Mev/Solver/Batch.antt =====
-- The batch that `solve_batch` gives in a reachable state.
use the_ai_cowboys_6_shooter.Prelude.{ℕ, ◌≤◌, ◌<◌, ◌≡◌, some, get_elem?}
use the_ai_cowboys_6_shooter.Mev.Solver.{Intent, IntentMatch, IntentSolver}

-- Two pending intents that each sell what the other buys, matched within what each sells.
pub record Coincidence (solver : IntentSolver) (m : IntentMatch) : Type 0 where
  pub seller : Intent
  pub buyer : Intent
  pub seller_at : ℕ
  pub buyer_at : ℕ
  pub seller_pending : get_elem? solver.pending_intents seller_at ≡ some seller
  pub buyer_pending : get_elem? solver.pending_intents buyer_at ≡ some buyer
  pub names_seller : m.intent_a ≡ seller.id
  pub names_buyer : m.intent_b ≡ buyer.id
  pub sold_is_bought : seller.sell_token ≡ buyer.buy_token
  pub bought_is_sold : seller.buy_token ≡ buyer.sell_token
  pub positive : 0 < m.matched_amount
  pub within_seller : m.matched_amount ≤ seller.sell_amount
  pub within_buyer : m.matched_amount ≤ buyer.sell_amount
