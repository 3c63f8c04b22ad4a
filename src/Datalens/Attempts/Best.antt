-- ===== src/Datalens/Attempts/Best.antt =====
-- Which page a query returns, of all that its attempts have given.
use ormpindexer.Base.{
  ◌≤◌, Bool, true, false, ◌&&◌, Option, none, some, List, [], ◌∷◌, Result, ok, err, le_refl, ◌∙◌,
  if◌then◌else◌, ◌≡◌, refl, ◌⊎◌, inl, inr, Bool-cases, All, Among, here, later, arith, ap,
}
use native.Mathlib.Nat.{le_trans}
use ormpindexer.Datalens.Attempts.{
  QueryPage, CallError, Attempt, page, failed, served_rank, is_settled, better, best_or_error,
  post_query_from, post_query,
}

-- The attempts that are made: none behind a page that is returned at once or a failure for good.
abbrev pub made : List Attempt → List Attempt
made [] = []
made (page p ∷ attempts) = page p ∷ (if is_settled p then [] else made attempts)
made (failed e ∷ attempts) = failed e ∷ (if e.retryable then made attempts else [])

abbrev pub Below : QueryPage → Attempt → Type 0
Below p (page q) = served_rank q ≤ served_rank p
Below p (failed e) = Unit

abbrev pub IsFailed : Attempt → Type 0
IsFailed (page q) = ⊥
IsFailed (failed e) = Unit

abbrev BestBelow : Option QueryPage → QueryPage → Type 0
BestBelow none p = Unit
BestBelow (some best) p = served_rank best ≤ served_rank p

-- What comes out of the attempts from a best page on.
abbrev Chosen : Option QueryPage → List Attempt → Result QueryPage → Type 0
Chosen best attempts (ok p) =
    ((best ≡ some p) ⊎ Among (page p) attempts)
    × ((is_settled p ≡ true) ⊎ (BestBelow best p × All (Below p) (made attempts)))
Chosen best attempts (err e) = (best ≡ none) × All IsFailed (made attempts)

better_ranks :
    (best : Option QueryPage) (p : QueryPage)
    → ((better best p ≡ p) ⊎ (best ≡ some (better best p)))
      × BestBelow best (better best p)
      × (served_rank p ≤ served_rank (better best p))
unfolding better
better_ranks none p = (inl refl, tt, le_refl (served_rank p))
better_ranks (some best) p = ground arith

below_trans :
    (best : Option QueryPage) (p q : QueryPage)
    → BestBelow best p
    → served_rank p ≤ served_rank q
    → BestBelow best q
below_trans none p q h k = tt
below_trans (some best) p q h k = le_trans h k

page_first :
    (best : Option QueryPage) (p : QueryPage) (attempts : List Attempt) (r : Result QueryPage)
    → is_settled p ≡ false
    → Chosen (some (better best p)) attempts r
    → Chosen best (page p ∷ attempts) r
page_first best p attempts (ok q) unsettled (from, ranks) =
    let (which, least, rank) = better_ranks best p in
    (
      elim from [
        | inl same ↦ elim which [
          | inl new ↦ inr (here (ap page (cc (same, new))))
          | inr old ↦ inl (old ∙ same)
        ]
        | inr among ↦ inr (later among)
      ],
      elim ranks [
        | inl settled ↦ inl settled
        | inr (above, all) ↦ inr (
          below_trans best (better best p) q least above,
          (le_trans rank above, rw unsettled all),
        )
      ],
    )
page_first best p attempts (err e) unsettled (none_best, all) = absurd (cc none_best)

-- The last attempt that is made has failed.
failed_end :
    (best : Option QueryPage) (e : CallError) (attempts : List Attempt)
    → (if e.retryable then made attempts else []) ≡ []
    → Chosen best (failed e ∷ attempts) (best_or_error best e)
failed_end none e attempts over = (refl, (tt, rw over tt))
failed_end (some best) e attempts over =
    (inl refl, inr (le_refl (served_rank best), (tt, rw over tt)))

failed_retry :
    (best : Option QueryPage) (e : CallError) (attempts : List Attempt) (r : Result QueryPage)
    → e.retryable ≡ true
    → Chosen best attempts r
    → Chosen best (failed e ∷ attempts) r
failed_retry best e attempts (ok p) again (from, ranks) = (
  elim from [ inl same ↦ inl same | inr among ↦ inr (later among) ],
  elim ranks [ inl settled ↦ inl settled | inr (above, all) ↦ inr (above, (tt, rw again all)) ],
)
failed_retry best e attempts (err x) again (none_best, all) = (none_best, (tt, rw again all))

pick :
    {A : Type 0} (P : A → Type 0) (b : Bool) (r s : A)
    → (b ≡ true → P r)
    → (b ≡ false → P s)
    → P (if b then r else s)
pick P true r s h k = h refl
pick P false r s h k = k refl

chosen :
    (best : Option QueryPage) (attempts : List Attempt)
    → Chosen best attempts (post_query_from best attempts)
unfolding post_query_from
chosen none [] = (refl, tt)
chosen (some best) [] = (inl refl, inr (le_refl (served_rank best), tt))
chosen best (page p ∷ attempts) = elim (Bool-cases (is_settled p)) [
  | inl settled ↦ rw settled (inr (here refl), inl settled)
  | inr unsettled ↦ rw unsettled (
      page_first best p attempts (post_query_from (some (better best p)) attempts) unsettled
        (chosen (some (better best p)) attempts))
]
chosen best (failed e ∷ []) =
    pick (Chosen best (failed e ∷ [])) (e.retryable && false) (post_query_from best [])
      (best_or_error best e) (λ again. absurd (ground (arith, again)))
      (λ fatal. failed_end best e [] (ground arith))
chosen best (failed e ∷ a ∷ attempts) =
    pick (Chosen best (failed e ∷ a ∷ attempts)) (e.retryable && true)
      (post_query_from best (a ∷ attempts)) (best_or_error best e)
      (λ again.
        failed_retry best e (a ∷ attempts) (post_query_from best (a ∷ attempts))
          (ground (arith, again)) (chosen best (a ∷ attempts)))
      (λ fatal. failed_end best e (a ∷ attempts) (ground (arith, fatal)))

-- What is known of the result of a query.
abbrev pub Answers : List Attempt → Result QueryPage → Type 0
Answers attempts (ok p) =
    Among (page p) attempts × ((is_settled p ≡ true) ⊎ All (Below p) (made attempts))
Answers attempts (err e) = All IsFailed (made attempts)

-- A query that succeeds returns a page that the service has sent, and that page is complete, or
-- incomplete for a reason that is not tried again, or else no page of all the attempts that were made
-- has served further. A query fails only if no attempt that was made gave a page.
pub post_query-Answers : (attempts : List Attempt) → Answers attempts (post_query attempts)
unfolding post_query
post_query-Answers attempts = answer (post_query_from none attempts) (chosen none attempts)
  where
    answer : (r : Result QueryPage) → Chosen none attempts r → Answers attempts r
    answer (ok p) (from, ranks) = (
      elim from [ inl absent ↦ absurd (cc absent) | inr among ↦ among ],
      elim ranks [ inl settled ↦ inl settled | inr (above, all) ↦ inr all ],
    )
    answer (err e) (none_best, all) = all
