-- ===== src/Mev/Solver/Book.antt =====
-- The index of the pending intents by their pairs, kept by `add_intent` and `clear`.
use the_ai_cowboys_6_shooter.Prelude.{
  ℕ, ◌≡◌, refl, sym, ◌∙◌, arith, ◌==◌, if◌then◌else◌, true, false, Bool-cases, inl, inr, Option,
  none, some, some_inj, List, [], ◌∷◌, ◌++◌, length, eq_list_same, eq_list_sound, In,
  In-append-left, In-append-right, In-append-cases, get_elem?, get_elem?-append_one,
  inside-get_elem?, ==→eq, eq→==, ne→==_false,
}
use mathlib.Core.Path.{subst}
use the_ai_cowboys_6_shooter.Mev.Solver.{
  Intent, IntentSolver, TokenPair, Entry, same_pair, pair_of, get, push_index, add_intent, clear,
}
use the_ai_cowboys_6_shooter.Mev.Solver

pub same_pair_sound : (p q : TokenPair) → same_pair p q ≡ true → p ≡ q
same_pair_sound p q e =
    let one = eq_list_sound p.sell q.sell (ground (arith, e)) in
    let two = eq_list_sound p.buy q.buy (ground (arith, e)) in cc

same_pair_same : (p : TokenPair) → same_pair p p ≡ true
same_pair_same p = rw (eq_list_same p.sell, eq_list_same p.buy) refl

-- The list under a key, empty for a missing one.
abbrev pub listed : Option (List ℕ) → List ℕ
listed none = []
listed (some indices) = indices

get-push_index :
    (book : List Entry) (pair q : TokenPair) (idx : ℕ)
    → get (push_index book pair idx) q
      ≡ (if same_pair pair q then some (listed (get book q) ++ idx ∷ []) else get book q)
unfolding get push_index
get-push_index [] pair q idx = ground arith
get-push_index (entry ∷ book) pair q idx = elim (Bool-cases (same_pair entry.pair pair)) [
  | inl here ↦
      let e : entry.pair ≡ pair = same_pair_sound entry.pair pair here in
      elim (Bool-cases (same_pair pair q)) [
        | inl hit ↦
            let hit' : same_pair entry.pair q ≡ true = rw (e) hit in
            rw (here, if◌then◌else◌, hit', hit) refl
        | inr miss ↦
            let miss' : same_pair entry.pair q ≡ false = rw (e) miss in
            rw (here, if◌then◌else◌, miss', miss) refl
      ]
  | inr other ↦ elim (Bool-cases (same_pair entry.pair q)) [
    | inl hit ↦
        let e : entry.pair ≡ q = same_pair_sound entry.pair q hit in
        elim (Bool-cases (same_pair pair q)) [
          | inl both ↦
              let apart : same_pair entry.pair pair ≡ true =
                rw (e ∙ sym (same_pair_sound pair q both)) (same_pair_same pair) in
              absurd (cc)
          | inr miss ↦ rw (other, if◌then◌else◌, hit, miss) refl
        ]
    | inr miss ↦ rw (other, if◌then◌else◌, miss) (get-push_index book pair q idx)
  ]
]

-- The book lists, under each pair, exactly the positions of the pending intents of that pair.
pub record Indexed (solver : IntentSolver) : Type 0 where
  pub sound :
      (pair : TokenPair) (i : ℕ)
      → In i (listed (get solver.order_book pair))
      → (intent : Intent) × (get_elem? solver.pending_intents i ≡ some intent)
        × (pair_of intent ≡ pair)
  pub complete :
      (i : ℕ) (intent : Intent)
      → get_elem? solver.pending_intents i ≡ some intent
      → In i (listed (get solver.order_book (pair_of intent)))

pub new-Indexed : Indexed Solver.new
unfolding get
new-Indexed = record { sound = λ pair i h. absurd h; complete = λ i intent e. absurd (cc) }

pub clear-Indexed : (solver : IntentSolver) → Indexed (clear solver)
unfolding clear get
clear-Indexed solver = record { sound = λ pair i h. absurd h; complete = λ i intent e. absurd (cc) }

get_elem?-keep :
    (xs : List Intent) (y : Intent) (i : ℕ) {x : Intent}
    → get_elem? xs i ≡ some x
    → get_elem? (xs ++ y ∷ []) i ≡ some x
get_elem?-keep xs y i {x} e =
    let inside = inside-get_elem? xs i e in
    rw
      (
        get_elem?-append_one xs y i,
        ne→==_false i (length xs) (omega (arith, inside)),
        if◌then◌else◌,
      )
      e

get_elem?-last :
    (xs : List Intent) (y : Intent) (i : ℕ) → i ≡ length xs → get_elem? (xs ++ y ∷ []) i ≡ some y
get_elem?-last xs y i e =
    rw (get_elem?-append_one xs y i, eq→== i (length xs) e, if◌then◌else◌) refl

pub add_intent-Indexed :
    (solver : IntentSolver) (intent : Intent) → Indexed solver → Indexed (add_intent solver intent)
unfolding add_intent
add_intent-Indexed solver intent ix = record { sound = sound'; complete = complete' }
  where
    pending : List Intent
    pending = solver.pending_intents

    idx : ℕ
    idx = length solver.pending_intents

    listed_new :
        (pair : TokenPair)
        → listed (get (push_index solver.order_book (pair_of intent) idx) pair) ≡ (
            if same_pair (pair_of intent) pair
            then listed (get solver.order_book pair) ++ idx ∷ []
            else listed (get solver.order_book pair))
    listed_new pair =
        rw (get-push_index solver.order_book (pair_of intent) pair idx)
          (elim (Bool-cases (same_pair (pair_of intent) pair)) [
            | inl t ↦ rw (t, if◌then◌else◌) refl
            | inr f ↦ rw (f, if◌then◌else◌) refl
          ])

    kept :
        (pair : TokenPair) (i : ℕ)
        → In i (listed (get solver.order_book pair))
        → (intent' : Intent) × (get_elem? (pending ++ intent ∷ []) i ≡ some intent')
          × (pair_of intent' ≡ pair)
    kept pair i h =
        let (intent', at, same) = ix.sound pair i h in
        (intent', get_elem?-keep pending intent i at, same)

    sound' :
        (pair : TokenPair) (i : ℕ)
        → In i (listed (get (push_index solver.order_book (pair_of intent) idx) pair))
        → (intent' : Intent) × (get_elem? (pending ++ intent ∷ []) i ≡ some intent')
          × (pair_of intent' ≡ pair)
    sound' pair i h = elim (Bool-cases (same_pair (pair_of intent) pair)) [
      | inl same ↦
          let h' : In i (listed (get solver.order_book pair) ++ idx ∷ []) =
            subst (λ l. In i l) (listed_new pair ∙ rw (same, if◌then◌else◌) refl) h in
          elim (In-append-cases i (listed (get solver.order_book pair)) (idx ∷ []) h') [
            | inl old ↦ kept pair i old
            | inr (inl last) ↦ (
              intent,
              get_elem?-last pending intent i last,
              same_pair_sound (pair_of intent) pair same,
            )
            | inr (inr nothing) ↦ elim nothing [ ]
          ]
      | inr other ↦
          kept pair i (subst (λ l. In i l) (listed_new pair ∙ rw (other, if◌then◌else◌) refl) h)
    ]

    complete' :
        (i : ℕ) (intent' : Intent)
        → get_elem? (pending ++ intent ∷ []) i ≡ some intent'
        → In i (listed (get (push_index solver.order_book (pair_of intent) idx) (pair_of intent')))
    complete' i intent' at = elim (Bool-cases (i == idx)) [
      | inl last ↦
          let e : intent ≡ intent' =
            some_inj (sym (get_elem?-last pending intent i (==→eq i idx last)) ∙ at) in
          let mine : In i (listed (get solver.order_book (pair_of intent)) ++ idx ∷ []) =
            In-append-right i (listed (get solver.order_book (pair_of intent))) (idx ∷ [])
              (inl (==→eq i idx last)) in
          subst
            (λ (x : Intent).
              In i (listed (get (push_index solver.order_book (pair_of intent) idx) (pair_of x))))
            e
            (subst (λ l. In i l)
              (sym (
                listed_new (pair_of intent)
                ∙ rw (same_pair_same (pair_of intent), if◌then◌else◌) refl))
              mine)
      | inr before ↦
          let e : get_elem? (pending ++ intent ∷ []) i ≡ get_elem? pending i =
            rw (get_elem?-append_one pending intent i, before, if◌then◌else◌) refl in
          let old = ix.complete i intent' (sym e ∙ at) in
          elim (Bool-cases (same_pair (pair_of intent) (pair_of intent'))) [
            | inl same ↦
                subst (λ l. In i l)
                  (sym (listed_new (pair_of intent') ∙ rw (same, if◌then◌else◌) refl))
                  (In-append-left i (listed (get solver.order_book (pair_of intent'))) (idx ∷ [])
                    old)
            | inr other ↦
                subst (λ l. In i l)
                  (sym (listed_new (pair_of intent') ∙ rw (other, if◌then◌else◌) refl)) old
          ]
    ]

-- The states that a run of calls reaches.
pub data Reachable : IntentSolver → Type 0 where
  started : Reachable Solver.new
  added :
      {solver : IntentSolver} (intent : Intent)
      → Reachable solver
      → Reachable (add_intent solver intent)
  cleared : {solver : IntentSolver} → Reachable solver → Reachable (clear solver)

-- In every state that calls of `add_intent` and `clear` reach, the book lists under each pair of
-- tokens exactly the positions of the pending intents that sell the one for the other.
pub Reachable-Indexed : {solver : IntentSolver} → Reachable solver → Indexed solver
Reachable-Indexed started = new-Indexed
Reachable-Indexed (added {solver} intent run) =
    add_intent-Indexed solver intent (Reachable-Indexed run)
Reachable-Indexed (cleared {solver} run) = clear-Indexed solver
