-- ===== src/Mev/Graph/Walk.antt =====
-- The walks of `reconstruct_cycle` inside the predecessor array.
use the_ai_cowboys_6_shooter.Prelude.{
  ℕ, zero, suc, ◌+◌, ◌-◌, ◌≤◌, ◌<◌, ◌≡◌, ◌≢◌, ◌⊎◌, inl, inr, refl, sym, ap, ◌∙◌, arith, ltb, ◌==◌,
  if◌then◌else◌, Option, none, some, ◌>>=◌, List, [], ◌∷◌, Bool-cases, ==→eq, ==_false→ne, lt→ltb,
  ltb→lt, ltb_false→le,
}
use mathlib.Core.Path.{subst}
use the_ai_cowboys_6_shooter.Mev.Graph.Path.{Pred, no_node, walk_back, collect}

-- Among the indices below `k`, one with the value `v`, or none.
search : (f : ℕ → ℕ) (k v : ℕ) → ((i : ℕ) × (i < k) × (f i ≡ v)) ⊎ ((i : ℕ) → i < k → f i ≢ v)
search f zero v = inr (λ i h. absurd (omega arith))
search f (suc k) v = elim (Bool-cases (f k == v)) [
  | inl e ↦ inl (k, omega arith, ==→eq (f k) v e)
  | inr e ↦ elim (search f k v) [
    | inl (i, h, g) ↦ inl (i, omega arith, g)
    | inr missing ↦ inr (λ i h. elim (Bool-cases (i == k)) [
      | inl g ↦ rw (==→eq i k g) (==_false→ne (f k) v e)
      | inr g ↦ let ne = ==_false→ne i k g in missing i (omega (arith, ne))
    ])
  ]
]

-- Of `n + 1` values below `n` two are equal.
pub pigeonhole :
    (n : ℕ) (f : ℕ → ℕ)
    → ((i : ℕ) → i ≤ n → f i < n)
    → (i : ℕ) × (j : ℕ) × (i < j) × (j ≤ n) × (f i ≡ f j)
pigeonhole zero f below = let bad = below 0 (omega arith) in absurd (omega (arith, bad))
pigeonhole (suc n) f below = elim (search f (suc n) (f (suc n))) [
  | inl (i, h, e) ↦ (i, suc n, h, omega arith, e)
  | inr missing ↦
      let g : ℕ → ℕ = λ i. if f i == n then f (suc n) else f i in
      let (i, j, h, l, e) =
        pigeonhole n g (λ i h. ground (arith, below i, below (suc n), missing i)) in
      (i, j, h, omega arith, ground (arith, e, missing i, missing j))
]

module _ (n : ℕ) (pred : ℕ → Pred) where
  -- `k` steps back along the predecessors.
  pub back : ℕ → ℕ → ℕ
  back zero x = x
  back (suc k) x = back k (pred x).prev

  back-add : (k l x : ℕ) → back k (back l x) ≡ back (k + l) x
  unfolding back
  back-add k zero x = let same : k ≡ k + 0 = omega arith in ap (λ m. back m x) same
  back-add k (suc l) x =
      let next : suc (k + l) ≡ k + suc l = omega arith in
      back-add k l (pred x).prev ∙ ap (λ m. back m x) next

  -- Every entry is empty or a node.
  unfoldable pub HasNodes : Type 0
  HasNodes = (v : ℕ) → v < n → ((pred v).prev ≡ no_node) ⊎ ((pred v).prev < n)

  -- The walk back ends without a panic; when it ends at a node, all its steps were nodes.
  walk_back-back :
      HasNodes
      → (rounds x : ℕ) → x < n
      → (walk_back n pred rounds x ≡ some none)
        ⊎ ((walk_back n pred rounds x ≡ some (some (back rounds x)))
            × ((i : ℕ) → i ≤ rounds → back i x < n))
  unfolding walk_back back HasNodes
  walk_back-back nodes zero x h = inr (refl, λ i l. let z : i ≡ 0 = omega arith in rw (z) h)
  walk_back-back nodes (suc rounds) x h =
      let inside = lt→ltb x n h in
      elim (Bool-cases ((pred x).prev == no_node)) [
        | inl e ↦ inl (rw (walk_back, inside, if◌then◌else◌, ◌>>=◌, e) refl)
        | inr e ↦
            let on = entry x h (==_false→ne (pred x).prev no_node e) in
            elim (walk_back-back nodes rounds (pred x).prev on) [
              | inl stop ↦ inl (rw (walk_back, inside, if◌then◌else◌, ◌>>=◌, e) stop)
              | inr (go, all) ↦ inr (
                rw (walk_back, inside, if◌then◌else◌, ◌>>=◌, e) go,
                λ i l. steps rounds x h all i l,
              )
            ]
      ]
    where
      entry : (x : ℕ) → x < n → (pred x).prev ≢ no_node → (pred x).prev < n
      entry x h ne = elim (nodes x h) [ inl e ↦ absurd (ne e) | inr l ↦ l ]

      steps :
          (rounds x : ℕ)
          → x < n
          → ((i : ℕ) → i ≤ rounds → back i (pred x).prev < n)
          → (i : ℕ) → i ≤ suc rounds
          → back i x < n
      steps rounds x h all zero l = h
      steps rounds x h all (suc i) l = all i (omega arith)

  -- A walk that stays among the nodes for `n` steps goes round a cycle, and never leaves them.
  back-below : (x : ℕ) → ((i : ℕ) → i ≤ n → back i x < n) → (fuel m : ℕ) → m ≤ fuel → back m x < n
  back-below x all zero m h = all m (omega arith)
  back-below x all (suc fuel) m h = elim (Bool-cases (ltb n m)) [
    | inr e ↦ all m (ltb_false→le n m e)
    | inl e ↦
        let (i, j, l, k, same) = pigeonhole n (λ i. back i x) all in
        let long = ltb→lt n m e in
        let rest = back-below x all fuel (m - j + i) (omega arith) in
        let whole : m - j + j ≡ m = omega arith in
        subst (λ y. y < n)
          (sym (back-add (m - j) i x)
            ∙ ap (back (m - j)) same
            ∙ back-add (m - j) j x
            ∙ ap (λ k. back k x) whole)
          rest
  ]

  -- From a node on such a cycle the path is collected without a panic.
  collect_total :
      (rounds cycle_start x : ℕ)
      → ((m : ℕ) → back m x < n)
      → (found : Option (List ℕ)) × (collect n pred rounds cycle_start x ≡ some found)
  unfolding collect
  collect_total zero cycle_start x all = (none, refl)
  collect_total (suc rounds) cycle_start x all =
      let inside = lt→ltb x n (unfold back in all 0) in
      elim (Bool-cases ((pred x).prev == cycle_start)) [
        | inl e ↦ (some (x ∷ []), rw (collect, inside, if◌then◌else◌, ◌>>=◌, e) refl)
        | inr e ↦
            let (found, go) =
              collect_total rounds cycle_start (pred x).prev (λ m. unfold back in all (suc m)) in
            (
              found >>= λ nodes. some (x ∷ nodes),
              rw (collect, inside, if◌then◌else◌, ◌>>=◌, e, go) refl,
            )
      ]

  -- Both walks of `reconstruct_cycle` from a node end without a panic.
  pub walks_total :
      HasNodes
      → (start max_hops : ℕ) → start < n
      → (walk_back n pred n start ≡ some none)
        ⊎ ((at : ℕ) × (walk_back n pred n start ≡ some (some at))
            × ((found : Option (List ℕ)) × (collect n pred (max_hops + 1) at at ≡ some found)))
  walks_total nodes start max_hops h = elim (walk_back-back nodes n start h) [
    | inl stop ↦ inl stop
    | inr (go, all) ↦
        let at = back n start in
        inr (
          at,
          go,
          collect_total (max_hops + 1) at at (λ m.
              subst (λ y. y < n) (sym (back-add m n start))
                (back-below start all (m + n) (m + n) (omega arith))),
        )
  ]
