-- ===== src/Mev/Executor/Accounts.antt =====
-- The list of accounts that a transaction collects, and the places of its accounts.
use mathlib.Core.Path.{subst}
use the_ai_cowboys_6_shooter.Prelude.{
  ℕ, zero, suc, ◌+◌, ◌≤◌, ◌≡◌, ◌⊎◌, inl, inr, refl, sym, ap, arith, if◌then◌else◌, true, false,
  Bool-cases, some, ◌>>=◌, some_inj, List, [], ◌∷◌, ◌++◌, length, length-append, get_elem?, In,
  In-append-left, In-append-right, In-append-cases, eq_list, eq_list_same, eq_list_sound,
}
use the_ai_cowboys_6_shooter.Net.Solana.{Key}
use the_ai_cowboys_6_shooter.Mev.Executor.{contains, add_accounts, position}

-- No account twice.
unfoldable pub IsDistinct : List Key → Type 0
IsDistinct [] = Unit
IsDistinct (a ∷ all) = (contains all a ≡ false) × IsDistinct all

-- Every place of `all` holds the same account in `more`.
unfoldable pub Extends : List Key → List Key → Type 0
Extends all more = (i : ℕ) (acc : Key) → get_elem? all i ≡ some acc → get_elem? more i ≡ some acc

pub Extends-Extends :
    (all more most : List Key) → Extends all more → Extends more most → Extends all most
unfolding Extends
Extends-Extends all more most h k i acc e = k i acc (h i acc e)

append-Extends : (all : List Key) (a : Key) → Extends all (all ++ (a ∷ []))
unfolding Extends
append-Extends [] a i acc e = absurd (cc)
append-Extends (x ∷ all) a zero acc e = e
append-Extends (x ∷ all) a (suc i) acc e = unfold Extends in append-Extends all a i acc e

contains-In : (all : List Key) (acc : Key) → contains all acc ≡ true → In acc all
contains-In [] acc e = absurd (ground (arith, e))
contains-In (a ∷ all) acc e = elim (Bool-cases (eq_list a acc)) [
  | inl same ↦ inl (sym (eq_list_sound a acc same))
  | inr other ↦ inr (contains-In all acc (ground (arith, other, e)))
]

contains-append :
    (all : List Key) (a acc : Key)
    → contains all acc ≡ false
    → eq_list a acc ≡ false
    → contains (all ++ (a ∷ [])) acc ≡ false
contains-append [] a acc e f = ground (arith, f)
contains-append (x ∷ all) a acc e f =
    let first : eq_list x acc ≡ false = ground (arith, e) in
    let rest = contains-append all a acc (ground (arith, e)) f in ground (arith, first, rest)

eq_list_sym : (xs ys : List ℕ) → eq_list xs ys ≡ false → eq_list ys xs ≡ false
eq_list_sym xs ys e = elim (Bool-cases (eq_list ys xs)) [
  | inr f ↦ f
  | inl t ↦
      let same : ys ≡ xs = eq_list_sound ys xs t in
      let again : eq_list xs ys ≡ true =
        subst (λ z. eq_list xs z ≡ true) (sym same) (eq_list_same xs) in
      absurd (ground (arith, e, again))
]

append-IsDistinct :
    (all : List Key) (a : Key)
    → IsDistinct all
    → contains all a ≡ false
    → IsDistinct (all ++ (a ∷ []))
unfolding IsDistinct
append-IsDistinct [] a k e = (refl, tt)
append-IsDistinct (x ∷ all) a (new, k) e =
    let other : eq_list x a ≡ false = ground (arith, e) in
    (
      contains-append all a x new (eq_list_sym x a other),
      append-IsDistinct all a k (ground (arith, e)),
    )

-- What adding accounts does to the list.
pub record Added (all accounts more : List Key) : Type 0 where
  pub extends : Extends all more
  pub has : (acc : Key) → In acc accounts → In acc more
  pub distinct : IsDistinct all → IsDistinct more
  pub size : length more ≤ length all + length accounts
  pub keeps : (acc : Key) → In acc all → In acc more
  pub origin : (acc : Key) → In acc more → In acc all ⊎ In acc accounts

pub add_accounts-Added : (all accounts : List Key) → Added all accounts (add_accounts all accounts)
unfolding add_accounts Extends
add_accounts-Added all [] = record {
  extends = λ i acc e. e;
  has = λ acc m. absurd m;
  distinct = λ k. k;
  size = omega arith;
  keeps = λ acc m. m;
  origin = λ acc m. inl m;
}
add_accounts-Added all (a ∷ accounts) = elim (Bool-cases (contains all a)) [
  | inl e ↦
      let r = add_accounts-Added all accounts in
      rw (e, if◌then◌else◌)
        (record {
          extends = r.extends;
          has = λ acc m. elim m [
            | inl same ↦ r.keeps acc (subst (λ x. In x all) (sym same) (contains-In all a e))
            | inr l ↦ r.has acc l
          ];
          distinct = r.distinct;
          size = omega (arith, r.size);
          keeps = r.keeps;
          origin = λ acc m. elim (r.origin acc m) [ inl l ↦ inl l | inr l ↦ inr (inr l) ];
        })
  | inr e ↦
      let r = add_accounts-Added (all ++ (a ∷ [])) accounts in
      rw (e, if◌then◌else◌)
        (record {
          extends = Extends-Extends all (all ++ (a ∷ [])) _ (append-Extends all a) r.extends;
          has = λ acc m. elim m [
            | inl same ↦ r.keeps acc (In-append-right acc all (a ∷ []) (inl same))
            | inr l ↦ r.has acc l
          ];
          distinct = λ k. r.distinct (append-IsDistinct all a k e);
          size = omega (arith, r.size, length-append all (a ∷ []));
          keeps = λ acc m. r.keeps acc (In-append-left acc all (a ∷ []) m);
          origin = λ acc m. elim (r.origin acc m) [
            | inl l ↦ elim (In-append-cases acc all (a ∷ []) l) [
              | inl k ↦ inl k
              | inr (inl same) ↦ inr (inl same)
              | inr (inr bad) ↦ absurd bad
            ]
            | inr l ↦ inr (inr l)
          ];
        })
]

-- An account of the list is found at a place that holds it.
pub position-In :
    (all : List Key) (acc : Key)
    → In acc all
    → (i : ℕ) × (position all acc ≡ some i) × (get_elem? all i ≡ some acc)
unfolding position
position-In [] acc m = absurd m
position-In (a ∷ all) acc m = elim (Bool-cases (eq_list a acc)) [
  | inl e ↦ (0, rw (e, if◌then◌else◌) refl, ap some (eq_list_sound a acc e))
  | inr e ↦ elim m [
    | inl same ↦
        let again : eq_list a acc ≡ true =
          subst (λ z. eq_list a z ≡ true) (sym same) (eq_list_same a) in
        absurd (ground (arith, e, again))
    | inr l ↦
        let (i, f, g) = position-In all acc l in (suc i, rw (e, if◌then◌else◌, f, ◌>>=◌) refl, g)
  ]
]

pub get_elem?-In : (all : List Key) (i : ℕ) (acc : Key) → get_elem? all i ≡ some acc → In acc all
get_elem?-In [] i acc e = absurd (cc)
get_elem?-In (a ∷ all) zero acc e = inl (sym (some_inj e))
get_elem?-In (a ∷ all) (suc i) acc e = inr (get_elem?-In all i acc e)
