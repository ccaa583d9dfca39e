-- ===== src/Mev/Solver/Draws.antt =====
-- What the matches of two sides are drawn from.
use the_ai_cowboys_6_shooter.Prelude.{
  ℕ, zero, suc, ◌-◌, ◌≤◌, ◌<◌, ◌≡◌, refl, sym, ap, ◌∙◌, arith, min, ◌==◌, Bool-cases, inl, inr,
  some, some_inj, List, [], ◌∷◌, In, bind_inv,
}
use mathlib.Core.Path.{subst}
use the_ai_cowboys_6_shooter.Mev.Solver.{IntentMatch, Offer, match_loop}

-- A match names an offer of each side and takes no more than either holds.
pub record Drawn (sellers buyers : List Offer) (m : IntentMatch) : Type 0 where
  pub seller : Offer
  pub buyer : Offer
  pub sells : In seller sellers
  pub buys : In buyer buyers
  pub names_seller : m.intent_a ≡ seller.id
  pub names_buyer : m.intent_b ≡ buyer.id
  pub positive : 0 < m.matched_amount
  pub within_seller : m.matched_amount ≤ seller.remaining
  pub within_buyer : m.matched_amount ≤ buyer.remaining

-- An offer of a side from which `used` was taken is one of the side, with less remaining.
reduced :
    (s : Offer) (os : List Offer) (used : ℕ) (o : Offer)
    → In o (record s { remaining = s.remaining - used } ∷ os)
    → (o' : Offer) × In o' (s ∷ os) × (o.id ≡ o'.id) × (o.remaining ≤ o'.remaining)
reduced s os used o (inl e) = (
  s,
  inl refl,
  ap (λ (x : Offer). x.id) e,
  let r : o.remaining ≡ s.remaining - used = ap (λ (x : Offer). x.remaining) e in omega arith,
)
reduced s os used o (inr h) = (o, inr h, refl, omega arith)

more_sellers :
    (s : Offer) {sellers buyers : List Offer} {m : IntentMatch}
    → Drawn sellers buyers m
    → Drawn (s ∷ sellers) buyers m
more_sellers s d = record {
  seller = d.seller;
  buyer = d.buyer;
  sells = inr d.sells;
  buys = d.buys;
  names_seller = d.names_seller;
  names_buyer = d.names_buyer;
  positive = d.positive;
  within_seller = d.within_seller;
  within_buyer = d.within_buyer;
}

more_buyers :
    (b : Offer) {sellers buyers : List Offer} {m : IntentMatch}
    → Drawn sellers buyers m
    → Drawn sellers (b ∷ buyers) m
more_buyers b d = record {
  seller = d.seller;
  buyer = d.buyer;
  sells = d.sells;
  buys = inr d.buys;
  names_seller = d.names_seller;
  names_buyer = d.names_buyer;
  positive = d.positive;
  within_seller = d.within_seller;
  within_buyer = d.within_buyer;
}

-- The match of the two offers at the heads.
heads_match :
    (s : Offer) (sellers : List Offer) (b : Offer) (buyers : List Offer)
    → 0 < min s.remaining b.remaining
    → Drawn
        (s ∷ sellers)
        (b ∷ buyers)
        (record { intent_a = s.id; intent_b = b.id; matched_amount = min s.remaining b.remaining })
heads_match s sellers b buyers positive = record {
  seller = s;
  buyer = b;
  sells = inl refl;
  buys = inl refl;
  names_seller = refl;
  names_buyer = refl;
  positive = positive;
  within_seller = omega arith;
  within_buyer = omega arith;
}

-- A match drawn after `used` was taken from both heads.
reduced_heads :
    (s : Offer) (sellers : List Offer) (b : Offer) (buyers : List Offer) (used : ℕ)
    {m : IntentMatch}
    → Drawn
        (record s { remaining = s.remaining - used } ∷ sellers)
        (record b { remaining = b.remaining - used } ∷ buyers)
        m
    → Drawn (s ∷ sellers) (b ∷ buyers) m
reduced_heads s sellers b buyers used d =
    let (seller, sells, same_s, less_s) = reduced s sellers used d.seller d.sells in
    let (buyer, buys, same_b, less_b) = reduced b buyers used d.buyer d.buys in
    record {
      seller = seller;
      buyer = buyer;
      sells = sells;
      buys = buys;
      names_seller = d.names_seller ∙ same_s;
      names_buyer = d.names_buyer ∙ same_b;
      positive = d.positive;
      within_seller = omega (arith, d.within_seller);
      within_buyer = omega (arith, d.within_buyer);
    }

pub match_loop-Drawn :
    (fuel : ℕ) (sellers buyers : List Offer) {ms : List IntentMatch}
    → match_loop fuel sellers buyers ≡ some ms
    → (m : IntentMatch) → In m ms
    → Drawn sellers buyers m
unfolding match_loop
match_loop-Drawn zero sellers buyers run m h = absurd (cc)
match_loop-Drawn (suc fuel) [] buyers run m h = absurd (subst (λ l. In m l) (sym (some_inj run)) h)
match_loop-Drawn (suc fuel) (s ∷ sellers) [] run m h =
    absurd (subst (λ l. In m l) (sym (some_inj run)) h)
match_loop-Drawn (suc fuel) (s ∷ sellers) (b ∷ buyers) {ms} run m h =
    elim (Bool-cases (s.remaining == 0)) [
      | inl sold_out ↦
          let run' = rw (match_loop, sold_out) at run in
          let d = match_loop-Drawn fuel sellers (b ∷ buyers) {ms = ms} run' m h in more_sellers s d
      | inr selling ↦ elim (Bool-cases (b.remaining == 0)) [
        | inl filled ↦
            let run' = rw (match_loop, selling, filled) at run in
            let d = match_loop-Drawn fuel (s ∷ sellers) buyers {ms = ms} run' m h in more_buyers b d
        | inr buying ↦
            let used = min s.remaining b.remaining in
            let s' : Offer = record s { remaining = s.remaining - used } in
            let b' : Offer = record b { remaining = b.remaining - used } in
            let found : IntentMatch = record {
              intent_a = s.id;
              intent_b = b.id;
              matched_amount = used;
            } in
            let run' = rw (match_loop, selling, buying) at run in
            let (rest, run_rest, whole) =
              bind_inv (match_loop fuel (s' ∷ sellers) (b' ∷ buyers)) (λ rest. some (found ∷ rest))
                {b = ms} run' in
            let h' : In m (found ∷ rest) = subst (λ l. In m l) (sym (some_inj whole)) h in
            elim h' [
              | inl e ↦ rw (e) (heads_match s sellers b buyers (ground (arith, selling, buying)))
              | inr later ↦
                  reduced_heads s sellers b buyers used (
                    match_loop-Drawn fuel (s' ∷ sellers) (b' ∷ buyers) {ms = rest} run_rest m later)
            ]
      ]
    ]
