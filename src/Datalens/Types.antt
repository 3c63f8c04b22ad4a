-- ===== src/Datalens/Types.antt =====
-- The requests and answers of the Datalens client (src/datalens/types.rs). The fields of a log that
-- hold free JSON values, which no code reads, are left out.
use ormpindexer.Base.{ℕ, Bool, true, false, ◌&&◌, Option, none, some, List, Text, leb}
use ormpindexer.Config.Types.{FinalityMode}

pub data IncompleteReason : Type 0 where
  pending provider_error budget_exhausted not_followed_yet : IncompleteReason

unfoldable pub retries_immediately : IncompleteReason → Bool
retries_immediately pending = true
retries_immediately provider_error = true
retries_immediately budget_exhausted = false
retries_immediately not_followed_yet = false

pub record DatalensBlockQuery : Type 0 where
  pub chain_id : ℕ
  pub from_block : ℕ
  pub to_block : ℕ
  pub finality_mode : FinalityMode

pub record DatalensBlock : Type 0 where
  pub chain_id : ℕ
  pub block_number : ℕ
  pub block_hash : Text
  pub parent_hash : Option Text

pub record DatalensBlockQueryResult : Type 0 where
  pub blocks : List DatalensBlock
  pub served_start : Option ℕ
  pub served_end : Option ℕ
  pub incomplete_reason : Option IncompleteReason

-- `Option::is_none`, `Option::is_some_and`
abbrev pub is_none {ℓ} : {A : Type ℓ} → Option A → Bool
is_none none = true
is_none (some a) = false

abbrev pub is_some_and {ℓ} : {A : Type ℓ} → Option A → (A → Bool) → Bool
is_some_and none p = false
is_some_and (some a) p = p a

-- `DatalensBlockQueryResult::covers`
unfoldable pub covers : DatalensBlockQueryResult → ℕ → ℕ → Bool
covers r from_block to_block =
    is_none r.incomplete_reason
    && (is_some_and r.served_start (λ start. leb start from_block)
        && is_some_and r.served_end (λ end. leb to_block end))

pub record DatalensLogQuery : Type 0 where
  pub chain_id : ℕ
  pub from_block : ℕ
  pub to_block : ℕ
  pub contracts : List Text
  pub topics : List Text
  pub finality_mode : FinalityMode

pub record DatalensLog : Type 0 where
  pub id : Option Text
  pub chain_id : ℕ
  pub block_number : ℕ
  pub block_hash : Option Text
  pub parent_hash : Option Text
  pub block_timestamp : Option ℕ
  pub transaction_hash : Text
  pub transaction_index : Option ℕ
  pub log_index : ℕ
  pub address : Text
  pub transaction_from : Option Text
  pub topics : List Text
  pub payload : Text

pub record DatalensLogQueryResult : Type 0 where
  pub logs : List DatalensLog
  pub served_start : Option ℕ
  pub served_end : Option ℕ
  pub incomplete_reason : Option IncompleteReason
