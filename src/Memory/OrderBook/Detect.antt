-- ===== src/Memory/OrderBook/Detect.antt =====
-- The two loops of `detect_arbitrage` against a description of its result.
use the_ai_cowboys_6_shooter.Prelude.{
  ℕ, zero, suc, ◌+◌, ◌≤◌, ◌<◌, ◌≡◌, ◌↔◌, refl, arith, some, List, [], ◌++◌, In, ◌⊎◌, inl, inr,
  In-append-left, In-append-right, In-append-cases, inside-get_elem?, ℕ_discrete,
}
use the_ai_cowboys_6_shooter.Memory.OrderBook.{
  SoaOrderBook, Opportunity, sells, buys, detect_arbitrage,
}
use the_ai_cowboys_6_shooter.Memory.OrderBook.Rows.{IsRectangular}
use the_ai_cowboys_6_shooter.Memory.OrderBook.Spreads.{
  IsOpportunity, Reads, reads, found, found_lem, found_sound, found_complete,
}

module _ {b : SoaOrderBook} (min_spread : ℕ) (r : IsRectangular b) where
  -- The rounds of the inner loop from `j` on report the opportunities that buy at `i`.
  record Sold (i j rounds : ℕ) : Type 0 where
    out : List Opportunity
    runs : sells b min_spread i rounds j ≡ some out
    sound : (o : Opportunity) → In o out → (o.buy ≡ i) × (j ≤ o.sell) × IsOpportunity b min_spread o
    complete : (o : Opportunity) → o.buy ≡ i → j ≤ o.sell → IsOpportunity b min_spread o → In o out

  sell-inside : (o : Opportunity) → IsOpportunity b min_spread o → o.sell < b.len
  sell-inside o w =
      let h = inside-get_elem? b.bid_prices o.sell {x = w.bid} w.at_bid in omega (arith, r.bids)

  buy-inside : (o : Opportunity) → IsOpportunity b min_spread o → o.buy < b.len
  buy-inside o w =
      let h = inside-get_elem? b.ask_prices o.buy {x = w.ask} w.at_ask in omega (arith, r.asks)

  sells-Sold : (i j rounds : ℕ) → i < b.len → j + rounds ≡ b.len → Sold i j rounds
  unfolding sells
  sells-Sold i j zero hi e = record {
    out = [];
    runs = refl;
    sound = λ o h. absurd h;
    complete = λ o ei low w. absurd (omega (arith, sell-inside o w));
  }
  sells-Sold i j (suc rounds) hi e =
      let s : Reads min_spread r i j = reads min_spread r i j hi (omega arith) in
      join s (sells-Sold i (j + 1) rounds hi (omega arith))
    where
      join : Reads min_spread r i j → Sold i (j + 1) rounds → Sold i j (suc rounds)
      join s rest = record {
        out = found min_spread r i j s ++ rest.out;
        runs = rw (found_lem min_spread r i j s, rest.runs);
        sound = λ o h. from_cases o (In-append-cases o (found min_spread r i j s) rest.out h);
        complete = λ o ei low w. elim (ℕ_discrete o.sell j) [
          | yes ej ↦
              In-append-left o (found min_spread r i j s) rest.out
                (found_complete min_spread r i j s o ei ej w)
          | no later ↦
              In-append-right o (found min_spread r i j s) rest.out
                (rest.complete o ei (omega arith) w)
        ];
      }
        where
          from_cases :
              (o : Opportunity)
              → In o (found min_spread r i j s) ⊎ In o rest.out
              → (o.buy ≡ i) × (j ≤ o.sell) × IsOpportunity b min_spread o
          from_cases o (inl h) =
              let (ei, ej, w) = found_sound min_spread r i j s o h in (ei, omega arith, w)
          from_cases o (inr h) = let (ei, low, w) = rest.sound o h in (ei, omega arith, w)

  record Bought (i rounds : ℕ) : Type 0 where
    out : List Opportunity
    runs : buys b min_spread rounds i ≡ some out
    sound : (o : Opportunity) → In o out → (i ≤ o.buy) × IsOpportunity b min_spread o
    complete : (o : Opportunity) → i ≤ o.buy → IsOpportunity b min_spread o → In o out

  buys-Bought : (i rounds : ℕ) → i + rounds ≡ b.len → Bought i rounds
  unfolding buys
  buys-Bought i zero e = record {
    out = [];
    runs = refl;
    sound = λ o h. absurd h;
    complete = λ o low w. absurd (omega (arith, buy-inside o w));
  }
  buys-Bought i (suc rounds) e =
      join (sells-Sold i 0 b.len (omega arith) (omega arith))
        (buys-Bought (i + 1) rounds (omega arith))
    where
      join : Sold i 0 b.len → Bought (i + 1) rounds → Bought i (suc rounds)
      join here rest = record {
        out = here.out ++ rest.out;
        runs = rw (here.runs, rest.runs);
        sound = λ o h. from_cases o (In-append-cases o here.out rest.out h);
        complete = λ o low w. elim (ℕ_discrete o.buy i) [
          | yes ei ↦ In-append-left o here.out rest.out (here.complete o ei (omega arith) w)
          | no later ↦ In-append-right o here.out rest.out (rest.complete o (omega arith) w)
        ];
      }
        where
          from_cases :
              (o : Opportunity)
              → In o here.out ⊎ In o rest.out
              → (i ≤ o.buy) × IsOpportunity b min_spread o
          from_cases o (inl h) = let (ei, low, w) = here.sound o h in (omega arith, w)
          from_cases o (inr h) = let (low, w) = rest.sound o h in (omega arith, w)

  -- On columns of equal length `detect_arbitrage` reads nothing out of range, and an entry is in
  -- its result exactly when it names two rows of different pools, where the bid of the second
  -- exceeds the ask of the first by the entry's spread, and the spread is at least `min_spread`.
  pub detect_arbitrage_lem :
      (out : List Opportunity) × (detect_arbitrage b min_spread ≡ some out)
      × ((o : Opportunity) → In o out ↔ IsOpportunity b min_spread o)
  unfolding detect_arbitrage
  detect_arbitrage_lem =
      let all = buys-Bought 0 b.len (omega arith) in
      (all.out, all.runs, λ o. (λ h. (all.sound o h).1, λ w. all.complete o (omega arith) w))
