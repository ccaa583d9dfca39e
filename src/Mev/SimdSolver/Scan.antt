-- ===== src/Mev/SimdSolver/Scan.antt =====
-- The spread that `scan_best_spread` finds, against the prices.
use the_ai_cowboys_6_shooter.Prelude.{
  ℕ, zero, suc, ◌+◌, ◌-◌, ◌*◌, ◌/◌, ◌^◌, ◌≤◌, ◌<◌, ◌≡◌, ◌≢◌, ◌⊎◌, inl, inr, refl, sym, ap, ◌∙◌,
  arith, ltb, ◌==◌, if◌then◌else◌, Bool, true, false, some, ◌>>=◌, List, length, get_elem?,
  get_elem?-inside, inside-get_elem?, Bool-cases, some_inj, ==→eq,
}
use mathlib.Core.Path.{subst}
use the_ai_cowboys_6_shooter.Prelude.Words.{sub_u64}
use the_ai_cowboys_6_shooter.Mev.SimdSolver.Spread.{
  Scan, set_ask, see_bid, scan_four, scan_fours, scan_rest,
}

same_elem :
    (xs : List ℕ) (i j a c : ℕ)
    → get_elem? xs i ≡ some a
    → get_elem? xs j ≡ some c
    → (j == i) ≡ true
    → c ≡ a
same_elem xs i j a c e f v = some_inj (sym f ∙ ap (get_elem? xs) (==→eq j i v) ∙ e)

module _ (ask_prices bid_prices : List ℕ) where
  -- The ask stands where the scan says.
  abbrev pub Stands : Scan → Type 0
  Stands s = (s.min_ask ≡ 2 ^ 64 - 1) ⊎ (get_elem? ask_prices s.min_ask_idx ≡ some s.min_ask)

  set_ask-Stands :
      (lt : Bool) (i a : ℕ) (s : Scan)
      → get_elem? ask_prices i ≡ some a
      → Stands s
      → Stands (set_ask lt i a s)
  set_ask-Stands true i a s e h = inr e
  set_ask-Stands false i a s e h = h

  -- The bid part alone.
  pub record Bids (k : ℕ) (s : Scan) : Type 0 where
    pub bid : (s.max_bid ≡ 0) ⊎ (get_elem? bid_prices s.max_bid_idx ≡ some s.max_bid)
    pub high : (j c : ℕ) → j < k → get_elem? bid_prices j ≡ some c → c ≤ s.max_bid

  see_bid-Bids :
      (k b : ℕ) (s : Scan) {next : ℕ}
      → next ≡ k + 1
      → get_elem? bid_prices k ≡ some b
      → Bids k s
      → Bids next (see_bid k b s)
  see_bid-Bids k b s n e h = elim (Bool-cases (ltb s.max_bid b)) [
    | inl l ↦
        rw (l, if◌then◌else◌)
          (record {
            bid = inr e;
            high = λ j c m f. elim (Bool-cases (j == k)) [
              | inl same ↦ let eq = same_elem bid_prices k j b c e f same in omega (arith, eq)
              | inr other ↦
                  let before = h.high j c (ground (arith, m, n, other)) f in
                  ground (arith, before, l)
            ];
          })
    | inr g ↦
        rw (g, if◌then◌else◌)
          (record {
            bid = h.bid;
            high = λ j c m f. elim (Bool-cases (j == k)) [
              | inl same ↦ let eq = same_elem bid_prices k j b c e f same in ground (arith, eq, g)
              | inr other ↦ h.high j c (ground (arith, m, n, other)) f
            ];
          })
  ]

  set_ask-Bids : (lt : Bool) (i a k : ℕ) (s : Scan) → Bids k s → Bids k (set_ask lt i a s)
  set_ask-Bids true i a k s h = record { bid = h.bid; high = h.high }
  set_ask-Bids false i a k s h = h

  see_bid-Stands : (k b : ℕ) (s : Scan) → Stands s → Stands (see_bid k b s)
  see_bid-Stands k b s h = elim (Bool-cases (ltb s.max_bid b)) [
    | inl l ↦ rw (l, if◌then◌else◌) h
    | inr g ↦ rw (g, if◌then◌else◌) h
  ]

  -- A round by fours inside both lists.
  scan_four_total :
      (base : ℕ) (s : Scan)
      → base + 3 < length ask_prices
      → base + 3 < length bid_prices
      → Stands s
      → Bids base s
      → (t : Scan) × (scan_four ask_prices bid_prices base s ≡ some t)
        × Stands t
        × Bids (base + 4) t
  unfolding scan_four
  scan_four_total base s h k ask bid =
      let (a0, e0) = get_elem?-inside ask_prices base (omega arith) in
      let (a1, e1) = get_elem?-inside ask_prices (base + 1) (omega arith) in
      let (a2, e2) = get_elem?-inside ask_prices (base + 2) (omega arith) in
      let (a3, e3) = get_elem?-inside ask_prices (base + 3) h in
      let (b0, f0) = get_elem?-inside bid_prices base (omega arith) in
      let (b1, f1) = get_elem?-inside bid_prices (base + 1) (omega arith) in
      let (b2, f2) = get_elem?-inside bid_prices (base + 2) (omega arith) in
      let (b3, f3) = get_elem?-inside bid_prices (base + 3) k in
      let s0 = set_ask (ltb a0 s.min_ask) base a0 s in
      let s1 = set_ask (ltb a1 s.min_ask) (base + 1) a1 s0 in
      let s2 = set_ask (ltb a2 s.min_ask) (base + 2) a2 s1 in
      let s3 = set_ask (ltb a3 s.min_ask) (base + 3) a3 s2 in
      let t0 = see_bid base b0 s3 in
      let t1 = see_bid (base + 1) b1 t0 in
      let t2 = see_bid (base + 2) b2 t1 in
      let t3 = see_bid (base + 3) b3 t2 in
      (
        t3,
        rw (scan_four, e0, e1, e2, e3, f0, f1, f2, f3, ◌>>=◌) refl,
        see_bid-Stands (base + 3) b3 t2 (
            see_bid-Stands (base + 2) b2 t1 (
              see_bid-Stands (base + 1) b1 t0 (
                see_bid-Stands base b0 s3 (
                  set_ask-Stands (ltb a3 s.min_ask) (base + 3) a3 s2 e3 (
                    set_ask-Stands (ltb a2 s.min_ask) (base + 2) a2 s1 e2 (
                      set_ask-Stands (ltb a1 s.min_ask) (base + 1) a1 s0 e1
                        (set_ask-Stands (ltb a0 s.min_ask) base a0 s e0 ask))))))),
        see_bid-Bids (base + 3) b3 t2 (omega arith) f3 (
            see_bid-Bids (base + 2) b2 t1 (omega arith) f2 (
              see_bid-Bids (base + 1) b1 t0 (omega arith) f1 (
                see_bid-Bids base b0 s3 (omega arith) f0 (
                  set_ask-Bids (ltb a3 s.min_ask) (base + 3) a3 base s2 (
                    set_ask-Bids (ltb a2 s.min_ask) (base + 2) a2 base s1 (
                      set_ask-Bids (ltb a1 s.min_ask) (base + 1) a1 base s0
                        (set_ask-Bids (ltb a0 s.min_ask) base a0 base s bid))))))),
      )

  pub scan_fours_total :
      (rounds c : ℕ) (s : Scan)
      → (rounds + c) * 4 ≤ length ask_prices
      → (rounds + c) * 4 ≤ length bid_prices
      → Stands s
      → Bids (c * 4) s
      → (t : Scan) × (scan_fours ask_prices bid_prices rounds c s ≡ some t)
        × Stands t
        × Bids ((rounds + c) * 4) t
  unfolding scan_fours
  scan_fours_total zero c s h k ask bid =
      let same : c * 4 ≡ (0 + c) * 4 = omega arith in (s, refl, ask, subst (λ i. Bids i s) same bid)
  scan_fours_total (suc rounds) c s h k ask bid =
      let (t, e, ask', bid') = scan_four_total (c * 4) s (omega arith) (omega arith) ask bid in
      let next : c * 4 + 4 ≡ (c + 1) * 4 = omega arith in
      let (u, f, ask'', bid'') =
        scan_fours_total rounds (c + 1) t (omega arith) (omega arith) ask'
          (subst (λ i. Bids i t) next bid') in
      let last : (rounds + (c + 1)) * 4 ≡ (suc rounds + c) * 4 = omega arith in
      (u, rw (e, ◌>>=◌) f, ask'', subst (λ i. Bids i u) last bid'')

  -- No ask from `first` up to `k` is below the scan's.
  abbrev pub Low : ℕ → ℕ → Scan → Type 0
  Low first k s = (j c : ℕ) → first ≤ j → j < k → get_elem? ask_prices j ≡ some c → s.min_ask ≤ c

  see-Low :
      (first i a b : ℕ) (s : Scan)
      → get_elem? ask_prices i ≡ some a
      → Low first i s
      → Low first (i + 1) (see_bid i b (set_ask (ltb a s.min_ask) i a s))
  see-Low first i a b s e low j c l m f =
      let now = set_ask (ltb a s.min_ask) i a s in
      let same : (see_bid i b now).min_ask ≡ now.min_ask = (elim (Bool-cases (ltb now.max_bid b)) [
        | inl u ↦ rw (u, if◌then◌else◌) refl
        | inr u ↦ rw (u, if◌then◌else◌) refl
      ]) in
      rw (same) (elim (Bool-cases (ltb a s.min_ask)) [
        | inl u ↦
            rw (u, if◌then◌else◌)
              (elim (Bool-cases (j == i)) [
                | inl v ↦ let eq = same_elem ask_prices i j a c e f v in omega (arith, eq)
                | inr v ↦
                    let before = low j c l (ground (arith, m, v)) f in ground (arith, before, u)
              ])
        | inr u ↦
            rw (u, if◌then◌else◌)
              (elim (Bool-cases (j == i)) [
                | inl v ↦ let eq = same_elem ask_prices i j a c e f v in ground (arith, eq, u)
                | inr v ↦ low j c l (ground (arith, m, v)) f
              ])
      ])

  -- The loop over the remainder, inside both lists.
  pub scan_rest_total :
      (first rounds i : ℕ) (s : Scan)
      → rounds + i ≤ length ask_prices
      → rounds + i ≤ length bid_prices
      → Stands s
      → Bids i s
      → Low first i s
      → (t : Scan) × (scan_rest ask_prices bid_prices rounds i s ≡ some t)
        × Stands t
        × Bids (rounds + i) t
        × Low first (rounds + i) t
  unfolding scan_rest
  scan_rest_total first zero i s h k ask bid low =
      let same : i ≡ 0 + i = omega arith in
      (s, refl, ask, subst (λ n. Bids n s) same bid, subst (λ n. Low first n s) same low)
  scan_rest_total first (suc rounds) i s h k ask bid low =
      let (a, e) = get_elem?-inside ask_prices i (omega arith) in
      let (b, f) = get_elem?-inside bid_prices i (omega arith) in
      let s0 = set_ask (ltb a s.min_ask) i a s in
      let (t, g, ask', bid', low') =
        scan_rest_total first rounds (i + 1) (see_bid i b s0) (omega arith) (omega arith)
          (see_bid-Stands i b s0 (set_ask-Stands (ltb a s.min_ask) i a s e ask))
          (see_bid-Bids i b s0 refl f (set_ask-Bids (ltb a s.min_ask) i a i s bid))
          (see-Low first i a b s e low) in
      let last : rounds + (i + 1) ≡ suc rounds + i = omega arith in
      (
        t,
        rw (e, f, ◌>>=◌) g,
        ask',
        subst (λ n. Bids n t) last bid',
        subst (λ n. Low first n t) last low',
      )

  -- A spread between a price to pay and one to get, in two pools: they stand where it says, the
  -- one to get exceeds the other by `spread` and is the highest, and no price to pay after the
  -- whole fours is lower.
  pub record IsSpread (pool_ids : List ℕ) (found : ℕ × ℕ × ℕ) : Type 0 where
    pub ask : ℕ
    pub ask_at : get_elem? ask_prices found.0 ≡ some ask
    pub bid_at : get_elem? bid_prices found.1 ≡ some (ask + found.2)
    pub gain : 0 < found.2
    pub apart : get_elem? pool_ids found.0 ≢ get_elem? pool_ids found.1
    pub high : (j c : ℕ) → get_elem? bid_prices j ≡ some c → c ≤ ask + found.2
    pub low : (j c : ℕ) → length ask_prices / 4 * 4 ≤ j → get_elem? ask_prices j ≡ some c → ask ≤ c

  pub Stands-IsSpread :
      (pool_ids : List ℕ) (s : Scan) (ask_pool bid_pool : ℕ)
      → length bid_prices ≡ length ask_prices
      → s.min_ask < s.max_bid
      → s.max_bid < 2 ^ 64
      → Stands s
      → Bids (length ask_prices) s
      → Low (length ask_prices / 4 * 4) (length ask_prices) s
      → get_elem? pool_ids s.min_ask_idx ≡ some ask_pool
      → get_elem? pool_ids s.max_bid_idx ≡ some bid_pool
      → ask_pool ≢ bid_pool
      → IsSpread pool_ids (s.min_ask_idx, s.max_bid_idx, sub_u64 s.max_bid s.min_ask)
  Stands-IsSpread pool_ids s ask_pool bid_pool same h fits ask bid low p q ne =
      let exact : s.min_ask + sub_u64 s.max_bid s.min_ask ≡ s.max_bid = omega (arith, h, fits) in
      record {
        ask = s.min_ask;
        ask_at = elim ask [ inl e ↦ absurd (omega (arith, e, h, fits)) | inr e ↦ e ];
        bid_at = elim bid.bid [
          | inl e ↦ absurd (omega (arith, e, h))
          | inr e ↦ e ∙ ap some (sym exact)
        ];
        gain = omega (arith, exact, h);
        apart = λ e. ne (some_inj (sym p ∙ e ∙ q));
        high = λ j c e.
            let k =
              bid.high j c
                (let m = inside-get_elem? bid_prices j {x = c} e in omega (arith, m, same)) e in
            omega (arith, k, exact);
        low = λ j c l e. low j c l (inside-get_elem? ask_prices j {x = c} e) e;
      }
