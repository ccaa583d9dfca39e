-- ===== src/Mev/Solver/Matching.antt =====
-- The loop of `solve_batch` that pairs off two sides.
use the_ai_cowboys_6_shooter.Prelude.{
  ℕ, zero, suc, ◌+◌, ◌*◌, ◌-◌, ◌≤◌, ◌<◌, ◌≡◌, refl, arith, min, ◌==◌, if◌then◌else◌, ◌>>=◌,
  Bool-cases, inl, inr, some, List, [], ◌∷◌, length, eq_list, ==→eq,
}
use the_ai_cowboys_6_shooter.Net.Solana.{Key}
use the_ai_cowboys_6_shooter.Mev.Solver.{Offer, IntentMatch, match_loop, match_fuel}

abbrev pub offered : List Offer → ℕ
offered [] = 0
offered (o ∷ os) = o.remaining + offered os

abbrev pub matched_total : List IntentMatch → ℕ
matched_total [] = 0
matched_total (m ∷ ms) = m.matched_amount + matched_total ms

-- What one id offers, and what the matches take from it on either side.
abbrev pub offered_by : Key → List Offer → ℕ
offered_by id [] = 0
offered_by id (o ∷ os) = (if eq_list o.id id then o.remaining else 0) + offered_by id os

abbrev pub sold_by : Key → List IntentMatch → ℕ
sold_by id [] = 0
sold_by id (m ∷ ms) = (if eq_list m.intent_a id then m.matched_amount else 0) + sold_by id ms

abbrev pub bought_by : Key → List IntentMatch → ℕ
bought_by id [] = 0
bought_by id (m ∷ ms) = (if eq_list m.intent_b id then m.matched_amount else 0) + bought_by id ms

-- Rounds that the offers still need.
abbrev weight : List Offer → ℕ
weight [] = 0
weight (o ∷ os) = (if o.remaining == 0 then 1 else 2) + weight os

weight-le : (os : List Offer) → weight os ≤ 2 * length os
weight-le [] = omega arith
weight-le (o ∷ os) = ground (arith, weight-le os)

-- What the loop promises of its matches.
pub record Fair (sellers buyers : List Offer) (ms : List IntentMatch) : Type 0 where
  pub volume : matched_total ms ≡ min (offered sellers) (offered buyers)
  pub sold : (id : Key) → sold_by id ms ≤ offered_by id sellers
  pub bought : (id : Key) → bought_by id ms ≤ offered_by id buyers

match-Fair :
    (fuel : ℕ) (sellers buyers : List Offer)
    → weight sellers + weight buyers < fuel
    → (ms : List IntentMatch) × (match_loop fuel sellers buyers ≡ some ms) × Fair sellers buyers ms
unfolding match_loop
match-Fair zero sellers buyers h = absurd (omega arith)
match-Fair (suc fuel) [] buyers h = (
  [],
  refl,
  record { volume = omega arith; sold = λ id. omega arith; bought = λ id. omega arith },
)
match-Fair (suc fuel) (s ∷ sellers) [] h = (
  [],
  refl,
  record { volume = omega arith; sold = λ id. omega arith; bought = λ id. omega arith },
)
match-Fair (suc fuel) (s ∷ sellers) (b ∷ buyers) h = elim (Bool-cases (s.remaining == 0)) [
  | inl sold_out ↦
      let (ms, run, fair) = match-Fair fuel sellers (b ∷ buyers) (ground (arith, h)) in
      let none_left : s.remaining ≡ 0 = ==→eq s.remaining 0 sold_out in
      (
        ms,
        rw (match_loop, sold_out) run,
        record {
          volume = omega (arith, fair.volume);
          sold = λ id. ground (arith, fair.sold id);
          bought = λ id. fair.bought id;
        },
      )
  | inr selling ↦ elim (Bool-cases (b.remaining == 0)) [
    | inl filled ↦
        let (ms, run, fair) = match-Fair fuel (s ∷ sellers) buyers (ground (arith, h)) in
        let none_left : b.remaining ≡ 0 = ==→eq b.remaining 0 filled in
        (
          ms,
          rw (match_loop, selling, filled) run,
          record {
            volume = omega (arith, fair.volume);
            sold = λ id. fair.sold id;
            bought = λ id. ground (arith, fair.bought id);
          },
        )
    | inr buying ↦
        let matched = min s.remaining b.remaining in
        let s' : Offer = record s { remaining = s.remaining - matched } in
        let b' : Offer = record b { remaining = b.remaining - matched } in
        let (ms, run, fair) = match-Fair fuel (s' ∷ sellers) (b' ∷ buyers) (ground (arith, h)) in
        let m : IntentMatch = record {
          intent_a = s.id;
          intent_b = b.id;
          matched_amount = matched;
        } in
        (
          m ∷ ms,
          rw (match_loop, selling, buying, run, ◌>>=◌) refl,
          record {
            volume = omega (arith, fair.volume);
            sold = λ id. ground (arith, fair.sold id);
            bought = λ id. ground (arith, fair.bought id);
          },
        )
  ]
]

-- The loop ends within its fuel, for any two sides. The volume it matches is the smaller of the
-- two sides' volumes, and of no id does it match more on a side than the id's offers there hold.
pub match_loop_total :
    (sellers buyers : List Offer)
    → (ms : List IntentMatch) × (match_loop (match_fuel sellers buyers) sellers buyers ≡ some ms)
      × Fair sellers buyers ms
match_loop_total sellers buyers =
    match-Fair (match_fuel sellers buyers) sellers buyers
      (omega (arith, weight-le sellers, weight-le buyers))
