-- ===== src/Datalens/Attempts.antt =====
-- The attempts of a query (`post_query`, `served_rank` of src/datalens/client.rs; `datalens_retry_delay`
-- of src/datalens/retry.rs). What the attempts give, one after the other, is a list as long as the
-- number of attempts allowed: `query_pages` asks the service over the network.
pub mod Best
use ormpindexer.Base.{
  ℕ, ◌+◌, ◌-◌, ◌*◌, ◌^◌, ◌≤◌, min, Bool, true, false, not, ◌&&◌, Option, none, some, List, [], ◌∷◌,
  Text, Result, ok, err, Error, context, is_empty, ltb, le_refl, ◌∙◌, if◌then◌else◌, saturating_add,
  saturating_mul, ◌≡◌, refl, ◌⊎◌, inl, inr, Bool-cases, All, Among, here, later, arith, ap,
}
use native.Mathlib.Nat.{le_trans}
use ormpindexer.Datalens.Types.{IncompleteReason, retries_immediately, is_some_and}

-- A row of a page is a JSON value, here its text.
pub record QueryPage : Type 0 where
  pub served_start : Option ℕ
  pub served_end : Option ℕ
  pub incomplete_reason : Option IncompleteReason
  pub next_cursor : Option Text
  pub rows : List Text

pub record CallError : Type 0 where
  pub retryable : Bool
  pub delay : Option ℕ
  pub detail : Error

pub data Attempt : Type 0 where
  page : QueryPage → Attempt
  failed : CallError → Attempt

-- In milliseconds.
unfoldable pub datalens_retry_delay : ℕ → ℕ
datalens_retry_delay attempt = min (saturating_mul 250 (2 ^ min (attempt - 1) 2)) 1000

unfoldable pub served_rank : QueryPage → ℕ
served_rank p = elim p.served_end [ none ↦ 0 | some end ↦ saturating_add end 1 ]

-- The page is returned at once.
unfoldable pub is_settled : QueryPage → Bool
is_settled p = not (is_some_and p.incomplete_reason retries_immediately)

-- The better of the best page so far and a new one.
unfoldable pub better : Option QueryPage → QueryPage → QueryPage
better none p = p
better (some best) p = if ltb (served_rank best) (served_rank p) then p else best

abbrev pub best_or_error : Option QueryPage → CallError → Result QueryPage
best_or_error none e = err e.detail
best_or_error (some best) e = ok best

-- The loop, from the best page so far. The pauses between attempts have no result.
unfoldable pub post_query_from : Option QueryPage → List Attempt → Result QueryPage
post_query_from best [] = context best Error.query_without_response
post_query_from best (page p ∷ attempts) =
    let next = post_query_from (some (better best p)) attempts in
    if is_settled p then ok p else next
post_query_from best (failed e ∷ attempts) =
    let next = post_query_from best attempts in
    if e.retryable && not (is_empty attempts) then next else best_or_error best e

unfoldable pub post_query : List Attempt → Result QueryPage
unfolding post_query_from
post_query attempts = post_query_from none attempts
