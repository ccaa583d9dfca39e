-- ===== src/Memory/OrderBook/Extremes.antt =====
-- The branchless scans for the cheapest ask and the highest bid, as one scan by a test.
use the_ai_cowboys_6_shooter.Prelude.{
  ℕ, zero, suc, ◌+◌, ◌<◌, ◌≡◌, refl, arith, ltb, Bool, true, false, List, [], ◌∷◌, get_elem?, none,
  some, ◌⊎◌, inl, inr, if◌then◌else◌, Bool-cases, ◌∙◌, ap,
}
use the_ai_cowboys_6_shooter.Memory.OrderBook.{
  SoaOrderBook, argmin_from, argmax_from, argmin, argmax, argmin_ask, argmax_bid,
}

-- A strict test of "is better", whose negation is an order.
record IsBetter (better : ℕ → ℕ → Bool) : Type 0 where
  irrefl : (a : ℕ) → better a a ≡ false
  asym : (a b : ℕ) → better a b ≡ true → better b a ≡ false
  trans : (a b c : ℕ) → better a b ≡ true → better b c ≡ true → better a c ≡ true
  cotrans : (a b c : ℕ) → better a c ≡ true → better b c ≡ false → better a b ≡ true

-- `i` is the first index of an element than which none is better.
pub record IsFirstBest (better : ℕ → ℕ → Bool) (xs : List ℕ) (i : ℕ) : Type 0 where
  pub val : ℕ
  pub here : get_elem? xs i ≡ some val
  pub best : (j w : ℕ) → get_elem? xs j ≡ some w → better w val ≡ false
  pub first : (j w : ℕ) → j < i → get_elem? xs j ≡ some w → better val w ≡ true

abbrev pub cheaper : ℕ → ℕ → Bool
cheaper a b = ltb a b

abbrev pub dearer : ℕ → ℕ → Bool
dearer a b = ltb b a

cheaper-IsBetter : IsBetter cheaper
cheaper-IsBetter = record {
  irrefl = λ a. ground arith;
  asym = λ a b h. ground arith;
  trans = λ a b c h k. ground arith;
  cotrans = λ a b c h k. ground arith;
}

dearer-IsBetter : IsBetter dearer
dearer-IsBetter = record {
  irrefl = λ a. ground arith;
  asym = λ a b h. ground arith;
  trans = λ a b c h k. ground arith;
  cotrans = λ a b c h k. ground arith;
}

module _ (better : ℕ → ℕ → Bool) where
  scan : List ℕ → ℕ → ℕ → ℕ → ℕ
  scan [] i at val = at
  scan (x ∷ rest) i at val =
      scan rest (i + 1) (if better x val then i else at) (if better x val then x else val)

module _ (better : ℕ → ℕ → Bool) (laws : IsBetter better) where
  head_best :
      (x : ℕ) (rest : List ℕ)
      → ((j w : ℕ) → get_elem? rest j ≡ some w → better w x ≡ false)
      → IsFirstBest better (x ∷ rest) 0
  head_best x rest h = record {
    val = x;
    here = refl;
    best = best;
    first = λ j w lt e. absurd (omega arith);
  }
    where
      best : (j w : ℕ) → get_elem? (x ∷ rest) j ≡ some w → better w x ≡ false
      best zero w e = let same : x ≡ w = cc in rw same (laws.irrefl w)
      best (suc j) w e = h j w e

  tail_best :
      (x : ℕ) (rest : List ℕ) (k : ℕ) (b : IsFirstBest better rest k)
      → better b.val x ≡ true
      → IsFirstBest better (x ∷ rest) (suc k)
  tail_best x rest k b h = record { val = b.val; here = b.here; best = best; first = first }
    where
      best : (j w : ℕ) → get_elem? (x ∷ rest) j ≡ some w → better w b.val ≡ false
      best zero w e = let same : x ≡ w = cc in rw (← same) (laws.asym b.val x h)
      best (suc j) w e = b.best j w e

      first : (j w : ℕ) → j < suc k → get_elem? (x ∷ rest) j ≡ some w → better b.val w ≡ true
      first zero w lt e = let same : x ≡ w = cc in rw (← same) h
      first (suc j) w lt e = b.first j w (omega arith) e

  -- The scan keeps what it has, or moves to the first best element of the rest.
  scan_lem :
      (rest : List ℕ) (i at val : ℕ)
      → ((scan better rest i at val ≡ at)
          × ((j w : ℕ) → get_elem? rest j ≡ some w → better w val ≡ false))
        ⊎ ((k : ℕ) × (scan better rest i at val ≡ i + k)
            × ((b : IsFirstBest better rest k) × (better b.val val ≡ true)))
  unfolding scan head_best tail_best
  scan_lem [] i at val = inl (refl, λ j w e. absurd (cc))
  scan_lem (x ∷ rest) i at val = elim (Bool-cases (better x val)) [
    | inl yes' ↦ elim (scan_lem rest (i + 1) i x) [
      | inl (stay, worse) ↦ inr (0, rw yes' (stay ∙ omega arith), (head_best x rest worse, yes'))
      | inr (k, go, (b, more)) ↦ inr (
        suc k,
        rw yes' (go ∙ omega arith),
        (tail_best x rest k b more, laws.trans b.val x val more yes'),
      )
    ]
    | inr no' ↦ elim (scan_lem rest (i + 1) at val) [
      | inl (stay, worse) ↦ inl (rw no' stay, none_better x rest val no' worse)
      | inr (k, go, (b, more)) ↦ inr (
        suc k,
        rw no' (go ∙ omega arith),
        (tail_best x rest k b (laws.cotrans b.val x val more no'), more),
      )
    ]
  ]
    where
      none_better :
          (x : ℕ) (rest : List ℕ) (val : ℕ)
          → better x val ≡ false
          → ((j w : ℕ) → get_elem? rest j ≡ some w → better w val ≡ false)
          → (j w : ℕ) → get_elem? (x ∷ rest) j ≡ some w
          → better w val ≡ false
      none_better x rest val h all zero w e = let same : x ≡ w = cc in rw (← same) h
      none_better x rest val h all (suc j) w e = all j w e

  scan-IsFirstBest :
      (x : ℕ) (rest : List ℕ) → IsFirstBest better (x ∷ rest) (scan better rest 1 0 x)
  scan-IsFirstBest x rest = elim (scan_lem rest 1 0 x) [
    | inl (stay, worse) ↦ rw stay (head_best x rest worse)
    | inr (k, go, (b, more)) ↦
        let e : scan better rest 1 0 x ≡ suc k = go ∙ omega arith in
        rw e (tail_best x rest k b more)
  ]

argmin_from-scan :
    (rest : List ℕ) (i at val : ℕ) → argmin_from rest i at val ≡ scan cheaper rest i at val
unfolding argmin_from scan
argmin_from-scan [] i at val = refl
argmin_from-scan (x ∷ rest) i at val = elim (Bool-cases (ltb x val)) [
  | inl e ↦ rw e (
      ap (λ (t : ℕ). argmin_from rest (i + 1) t x) (omega arith)
      ∙ argmin_from-scan rest (i + 1) i x)
  | inr e ↦ rw e (
      ap (λ (t : ℕ). argmin_from rest (i + 1) t val) (omega arith)
      ∙ argmin_from-scan rest (i + 1) at val)
]

argmax_from-scan :
    (rest : List ℕ) (i at val : ℕ) → argmax_from rest i at val ≡ scan dearer rest i at val
unfolding argmax_from scan
argmax_from-scan [] i at val = refl
argmax_from-scan (x ∷ rest) i at val = elim (Bool-cases (ltb val x)) [
  | inl e ↦ rw e (
      ap (λ (t : ℕ). argmax_from rest (i + 1) t x) (omega arith)
      ∙ argmax_from-scan rest (i + 1) i x)
  | inr e ↦ rw e (
      ap (λ (t : ℕ). argmax_from rest (i + 1) t val) (omega arith)
      ∙ argmax_from-scan rest (i + 1) at val)
]

-- `argmin_ask` gives `None` on an empty column, and on any other the first index of a least ask:
-- no ask is below it, and every earlier one is above it.
pub argmin_ask-IsFirstBest :
    (b : SoaOrderBook)
    → ((b.ask_prices ≡ []) × (argmin_ask b ≡ none))
      ⊎ ((i : ℕ) × (argmin_ask b ≡ some i) × IsFirstBest cheaper b.ask_prices i)
unfolding argmin_ask
argmin_ask-IsFirstBest b = column b.ask_prices
  where
    column :
        (xs : List ℕ)
        → ((xs ≡ []) × (argmin xs ≡ none))
          ⊎ ((i : ℕ) × (argmin xs ≡ some i) × IsFirstBest cheaper xs i)
    column [] = inl (refl, unfold argmin in refl)
    column (x ∷ rest) = inr (
      scan cheaper rest 1 0 x,
      unfold argmin in ap some (argmin_from-scan rest 1 0 x),
      scan-IsFirstBest cheaper cheaper-IsBetter x rest,
    )

-- `argmax_bid` gives `None` on an empty column, and on any other the first index of a greatest
-- bid: no bid is above it, and every earlier one is below it.
pub argmax_bid-IsFirstBest :
    (b : SoaOrderBook)
    → ((b.bid_prices ≡ []) × (argmax_bid b ≡ none))
      ⊎ ((i : ℕ) × (argmax_bid b ≡ some i) × IsFirstBest dearer b.bid_prices i)
unfolding argmax_bid
argmax_bid-IsFirstBest b = column b.bid_prices
  where
    column :
        (xs : List ℕ)
        → ((xs ≡ []) × (argmax xs ≡ none))
          ⊎ ((i : ℕ) × (argmax xs ≡ some i) × IsFirstBest dearer xs i)
    column [] = inl (refl, unfold argmax in refl)
    column (x ∷ rest) = inr (
      scan dearer rest 1 0 x,
      unfold argmax in ap some (argmax_from-scan rest 1 0 x),
      scan-IsFirstBest dearer dearer-IsBetter x rest,
    )
