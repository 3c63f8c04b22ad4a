-- ===== src/Database/Effects.antt =====
-- What statements, queries and transactions leave behind, for any engine.
use ormpindexer.Base.{
  Option, ◌≡◌, refl, inl, inr, Option-cases, none, some, List, [], ◌∷◌, Result, ok, err, Error,
  Result-cases, arith,
}
use ormpindexer.Base.Action.{
  Ensures-pure, Action, ◌>>=◌, Ensures, Ensures-bind, Ensures-imp, Keeps, Keeps-pure, Keeps-bind,
  Leaves,
}
use ormpindexer.Database.{Tables, Engine, statement, query, transaction, for_each}

module _ (engine : Engine) where
  -- A statement changes the tables, or is refused and changes nothing.
  pub statement-Keeps :
      {V : Type 0} (view : Tables → V) (change : Tables → Tables)
      → ((t : Tables) → view (change t) ≡ view t)
      → Keeps view (statement engine change)
  unfolding statement
  statement-Keeps view change same = record { at = λ t. statement_at (engine.refuses t) t }
    where
      statement_at :
          (r : Option Error) (t : Tables)
          → view
              (elim r as (λ _. Result (Unit {0}) × Tables) [
                | none ↦ (ok tt, change t)
                | some e ↦ (err e, t)
              ]).1
            ≡ view t
      statement_at none t = same t
      statement_at (some e) t = refl

  pub statement-Ensures :
      (change : Tables → Tables) (t : Tables)
      → Ensures (λ u t'. t' ≡ change t) (statement engine change) t
  unfolding statement
  statement-Ensures change t = record {
    holds = λ u done. elim (Option-cases (engine.refuses t)) [
      | inl accepts ↦ rw (accepts, statement) refl
      | inr (e, refused) ↦ absurd (ground (arith, refused, done))
    ];
  }

  pub query_same : {A : Type 0} (read : Tables → A) (t : Tables) → (query engine read t).1 ≡ t
  unfolding query
  query_same read t = elim (Option-cases (engine.refuses t)) [
    | inl accepts ↦ rw (accepts, query) refl
    | inr (e, refused) ↦ rw (refused, query) refl
  ]

  pub query-Keeps :
      {V A : Type 0} (view : Tables → V) (read : Tables → A) → Keeps view (query engine read)
  query-Keeps view read = record { at = λ t. rw (query_same read t) refl }

  pub query-Ensures :
      {A : Type 0} (read : Tables → A) (t : Tables)
      → Ensures (λ a t'. (a ≡ read t) × (t' ≡ t)) (query engine read) t
  unfolding query
  query-Ensures read t = record {
    holds = λ a done. elim (Option-cases (engine.refuses t)) [
      | inl accepts ↦ ground (arith, accepts, done)
      | inr (e, refused) ↦ absurd (ground (arith, refused, done))
    ];
  }

  -- What holds behind the body holds behind the transaction; a failure leaves the tables as they were.
  abbrev pub Committed : {A : Type 0} → (A → Tables → Type 0) → Tables → Result A → Tables → Type 0
  Committed P t (ok a) t' = P a t'
  Committed P t (err e) t' = t' ≡ t

  transaction_cases :
      {A : Type 0} (P : A → Tables → Type 0) (m : Action Tables A) (t : Tables)
      → Ensures P m t
      → let (r, t') = m t in
        let out : Result A × Tables = elim r [ ok a ↦ (ok a, t') | err e ↦ (err e, t) ] in
        Committed P t out.0 out.1
  transaction_cases P m t h = elim (Result-cases (m t).0) [
    | inl (a, done) ↦ rw done (h.holds a done)
    | inr (e, failed) ↦ rw failed refl
  ]

  pub transaction-Leaves :
      {A : Type 0} (P : A → Tables → Type 0) (body : Action Tables A) (t : Tables)
      → Ensures P body t
      → Leaves (Committed P t) (transaction engine body) t
  unfolding transaction
  transaction-Leaves P body t h = record {
    holds =
        transaction_cases P
          (query engine (λ t₀. tt) >>= λ begun. body >>= λ a. query engine (λ t₀. a)) t
          (Ensures-bind _ _ t λ begun done.
            let same = query_same (λ t₀. tt) t in
            rw same (
              Ensures-bind _ _ t λ a ran.
                Ensures-imp (λ b t' q. ground (arith, q, h.holds a ran))
                  (query-Ensures (λ t₀. a) _)));
  }

pub for_each-Keeps :
    {W V A : Type 0} (view : W → V) (f : A → Action W (Unit {0})) (list : List A)
    → ((a : A) → Keeps view (f a))
    → Keeps view (for_each f list)
unfolding for_each
for_each-Keeps view f [] each = Keeps-pure tt
for_each-Keeps view f (a ∷ list) each = Keeps-bind _ _ (each a) λ u. for_each-Keeps view f list each

-- A loop whose rounds keep an invariant.
pub for_each-Ensures :
    {W A : Type 0} (I : W → Type 0) (f : A → Action W (Unit {0})) (list : List A) (w : W)
    → ((a : A) (w : W) → I w → Ensures (λ u w'. I w') (f a) w)
    → I w
    → Ensures (λ u w'. I w') (for_each f list) w
unfolding for_each
for_each-Ensures I f [] w each h = Ensures-pure tt w h
for_each-Ensures I f (a ∷ list) w each h =
    Ensures-bind _ _ w λ u done. for_each-Ensures I f list _ each ((each a w h).holds u done)

abbrev pub run_all : List (Tables → Tables) → Tables → Tables
run_all [] t = t
run_all (change ∷ changes) t = run_all changes (change t)

pub statements-Ensures :
    (engine : Engine) (changes : List (Tables → Tables)) (t : Tables)
    → Ensures (λ u t'. t' ≡ run_all changes t) (for_each (statement engine) changes) t
unfolding for_each
statements-Ensures engine [] t = Ensures-pure tt t refl
statements-Ensures engine (change ∷ changes) t = Ensures-bind _ _ t λ u done.
    let put = (statement-Ensures engine change t).holds u done in
    rw put (statements-Ensures engine changes (change t))
