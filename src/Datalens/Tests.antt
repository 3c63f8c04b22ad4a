-- ===== src/Datalens/Tests.antt =====
-- Runs of a query, and the client's theorems at concrete inputs.
use ormpindexer.Base.{ℕ, ◌≡◌, refl, none, some, List, [], ◌∷◌, ok, err, Error, is_ok, true}
use ormpindexer.Planner.{chain_dataset}
use ormpindexer.Datalens.Types.{IncompleteReason, retries_immediately}
use ormpindexer.Datalens.Query.{evm_chain_name, evm_chain_name-chain_dataset}
use ormpindexer.Datalens.Attempts.{
  QueryPage, CallError, Attempt, page, failed, post_query, post_query_from, is_settled, better,
  served_rank, datalens_retry_delay,
}
use ormpindexer.Datalens.Attempts.Best.{Answers, post_query-Answers}

abbrev up_to : ℕ → QueryPage
up_to end = record {
  served_start = some 1;
  served_end = some end;
  incomplete_reason = some IncompleteReason.pending;
  next_cursor = none;
  rows = [];
}

abbrev busy : CallError
busy = record { retryable = true; delay = none; detail = Error.remote }

-- Two incomplete pages and a failure between them: the one that has served further is returned.
abbrev three_attempts : List Attempt
three_attempts = page (up_to 7) ∷ failed busy ∷ page (up_to 5) ∷ []

furthest_page : post_query three_attempts ≡ ok (up_to 7)
unfolding post_query post_query_from is_settled better served_rank retries_immediately
furthest_page = refl

last_failure : post_query (failed busy ∷ failed busy ∷ []) ≡ err Error.remote
unfolding post_query post_query_from
last_failure = refl

third_delay : datalens_retry_delay 3 ≡ 1000
unfolding datalens_retry_delay
third_delay = refl

post_query-Answers_example : Answers three_attempts (post_query three_attempts)
post_query-Answers_example = post_query-Answers three_attempts

evm_chain_name-chain_dataset_example : is_ok (evm_chain_name 46) ≡ is_ok (chain_dataset 46)
evm_chain_name-chain_dataset_example = evm_chain_name-chain_dataset 46
