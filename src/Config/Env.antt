-- ===== src/Config/Env.antt =====
-- The environment's variables (src/config.rs): texts, numbers and lists, and the settings that are
-- read from them. Times are milliseconds. A secret is a text.
pub mod Valid
pub mod Ready
pub mod Numbers
mod Tests
use ormpindexer.Base.{
  ℕ, ◌+◌, ◌-◌, ◌*◌, Bool, true, false, not, ◌&&◌, Option, none, some, List, [], ◌∷◌, ◌++◌, map,
  Text, codes, leb, ltb, ◌==◌, if◌then◌else◌, is_empty, any, all, find, filter, u64_max, Result, ok,
  err, Error, ensure, context, transpose, map_result, ◌>>=◌, ◌>>◌,
}
use mathlib.Core.List
use ormpindexer.Base.BTreeMap.{BTreeMap, get}
use ormpindexer.Base.Order.{text_order}
use ormpindexer.Base.Trim.{trim}
use ormpindexer.Config.Types.{FinalityMode, finalized, from_str, uses_reorg_protection, ChainConfig}
use ormpindexer.Planner.{default_chain_config}
use ormpindexer.Schema.Ids.{digits}

abbrev pub Env : Type 0
Env = BTreeMap Text Text

pub record MetricsConfig : Type 0 where
  pub refresh_delay : ℕ
  pub refresh_timeout : ℕ

pub record DatalensConfig : Type 0 where
  pub endpoint : Text
  pub application : Text
  pub token : Option Text
  pub timeout : ℕ
  pub query_max_attempts : ℕ
  pub head_buffer_blocks : ℕ
  pub min_request_interval : ℕ

pub record RuntimeConfig : Type 0 where
  pub datalens : DatalensConfig
  pub metrics : MetricsConfig
  pub database_url : Option Text
  pub enabled_chains : List ChainConfig
  pub batch_size : ℕ
  pub start_block : ℕ
  pub finality_mode : FinalityMode
  pub reorg_window_blocks : ℕ
  pub poll_interval : ℕ

abbrev pub unwrap_or {ℓ} : {A : Type ℓ} → Option A → A → A
unwrap_or none a = a
unwrap_or (some b) a = b

abbrev pub or {ℓ} : {A : Type ℓ} → Option A → Option A → Option A
or none o = o
or (some a) o = some a

abbrev pub unless_empty : Text → Option Text
unless_empty value = if is_empty value then none else some value

unfoldable pub optional_env : Env → Text → Option Text
optional_env env key = elim (get key env) [ none ↦ none | some value ↦ unless_empty (trim value) ]

abbrev pub is_digit : ℕ → Bool
is_digit c = leb b'0' c && leb c b'9'

-- The number that the digits read so far go on to.
unfoldable pub number : ℕ → Text → ℕ
number acc [] = acc
number acc (c ∷ text) = number (acc * 10 + (c - b'0')) text

abbrev pub strip_plus : Text → Text
strip_plus [] = []
strip_plus (c ∷ text) = if c == b'+' then text else c ∷ text

-- `str::parse::<u64>`
unfoldable pub parse_u64 : Text → Option ℕ
parse_u64 value =
    let text = strip_plus value in
    if not (is_empty text) && (all is_digit text && leb (number 0 text) u64_max)
    then some (number 0 text)
    else none

unfoldable pub parsed : Text → Result ℕ
parsed value = context (parse_u64 value) Error.not_a_number

unfoldable pub optional_u64 : Env → Text → Result (Option ℕ)
optional_u64 env key = elim (optional_env env key) [
  | none ↦ ok none
  | some value ↦ transpose (some (parsed value))
]

-- `str::split(',')`: `part` is what has been read of the current item, backwards.
unfoldable pub split : Text → Text → List Text
split part [] = List.reverse part ∷ []
split part (c ∷ text) =
    let fresh = split [] text in
    let on = split (c ∷ part) text in if c == b',' then List.reverse part ∷ fresh else on

unfoldable pub split_list : Text → List Text
split_list value = filter (λ item. not (is_empty item)) (map trim (split [] value))

unfoldable pub optional_list : Env → Text → List Text
optional_list env key = elim (optional_env env key) [ none ↦ [] | some value ↦ split_list value ]

unfoldable pub required_list : Env → Text → Result (List Text)
required_list env key =
    let values = optional_list env key in
    if is_empty values then err Error.not_configured else ok values

unfoldable pub optional_mode : Env → Text → Result (Option FinalityMode)
optional_mode env key = elim (optional_env env key) [
  | none ↦ ok none
  | some value ↦ transpose (some (from_str value))
]

abbrev pub chain_key : ℕ → Text → Text
chain_key chain_id name = codes "ORMPINDEXER_CHAIN_" ++ digits 20 chain_id ++ name

abbrev pub or_default : List Text → List Text → List Text
or_default values default = if is_empty values then default else values

-- `ChainConfig::from_env_map`
unfoldable pub chain_from_env_map : Env → Option ℕ → ℕ → FinalityMode → ℕ → Result ChainConfig
chain_from_env_map env default_start_block default_batch_size default_finality_mode chain_id = do
  default ← default_chain_config chain_id
  chain_start_block ← optional_u64 env (chain_key chain_id (codes "_START_BLOCK"))
  chain_batch_size ← optional_u64 env (chain_key chain_id (codes "_BATCH_SIZE"))
  ensure (ltb 0 (unwrap_or chain_batch_size default_batch_size)) Error.zero_setting
  finality_mode ← optional_mode env (chain_key chain_id (codes "_FINALITY_MODE"))
  ok (record {
    chain_id = chain_id;
    start_block = unwrap_or (or chain_start_block default_start_block) default.start_block;
    batch_size = unwrap_or chain_batch_size default_batch_size;
    contracts =
        or_default (optional_list env (chain_key chain_id (codes "_CONTRACTS"))) default.contracts;
    topics = or_default (optional_list env (chain_key chain_id (codes "_TOPICS"))) default.topics;
    finality_mode = unwrap_or finality_mode default_finality_mode;
  })

-- A number that may not be 0.
abbrev pub positive_u64 : Env → Text → ℕ → Result ℕ
positive_u64 env key default = do
  value ← optional_u64 env key
  ensure (ltb 0 (unwrap_or value default)) Error.zero_setting
  ok (unwrap_or value default)

abbrev pub u64_or : Env → Text → ℕ → Result ℕ
u64_or env key default = do value ← optional_u64 env key; ok (unwrap_or value default)

-- `MetricsConfig::from_env_map`
unfoldable pub metrics_from_env_map : Env → Result MetricsConfig
metrics_from_env_map env = do
  refresh_delay_ms ← positive_u64 env (codes "ORMPINDEXER_METRICS_REFRESH_DELAY_MS") 5000
  refresh_timeout_ms ← positive_u64 env (codes "ORMPINDEXER_METRICS_REFRESH_TIMEOUT_MS") 10000
  ok (record { refresh_delay = refresh_delay_ms; refresh_timeout = refresh_timeout_ms })

-- `RuntimeConfig::from_env_map`
unfoldable pub from_env_map : Env → Result RuntimeConfig
from_env_map env = do
  start_block ← optional_u64 env (codes "ORMPINDEXER_START_BLOCK")
  batch_size ← positive_u64 env (codes "ORMPINDEXER_BATCH_SIZE") 1000
  items ← required_list env (codes "ORMPINDEXER_ENABLED_CHAINS")
  chain_ids ← map_result parsed items
  mode ← optional_mode env (codes "ORMPINDEXER_FINALITY_MODE")
  enabled_chains ←
      map_result (chain_from_env_map env start_block batch_size (unwrap_or mode finalized))
        chain_ids
  timeout_secs ← positive_u64 env (codes "ORMPINDEXER_DATALENS_TIMEOUT_SECS") 300
  query_max_attempts ← positive_u64 env (codes "ORMPINDEXER_DATALENS_QUERY_MAX_ATTEMPTS") 3
  head_buffer_blocks ← u64_or env (codes "ORMPINDEXER_DATALENS_HEAD_BUFFER_BLOCKS") 1
  min_request_interval_ms ← u64_or env (codes "ORMPINDEXER_DATALENS_MIN_REQUEST_INTERVAL_MS") 100
  reorg_window_blocks ← u64_or env (codes "ORMPINDEXER_REORG_WINDOW_BLOCKS") 128
  ensure
      (not (
        reorg_window_blocks == 0
        && any (λ chain. uses_reorg_protection chain.finality_mode) enabled_chains))
      Error.zero_setting
  metrics ← metrics_from_env_map env
  poll_interval_secs ← u64_or env (codes "ORMPINDEXER_POLL_INTERVAL_SECS") 30
  ok (record {
    datalens = record {
      endpoint =
          unwrap_or (optional_env env (codes "ORMPINDEXER_DATALENS_ENDPOINT"))
            (codes "http://localhost:8080");
      application =
          unwrap_or (optional_env env (codes "ORMPINDEXER_DATALENS_APPLICATION"))
            (codes "ormpindexer");
      token = optional_env env (codes "ORMPINDEXER_DATALENS_TOKEN");
      timeout = timeout_secs * 1000;
      query_max_attempts = query_max_attempts;
      head_buffer_blocks = head_buffer_blocks;
      min_request_interval = min_request_interval_ms;
    };
    metrics = metrics;
    database_url = optional_env env (codes "ORMPINDEXER_DATABASE_URL");
    enabled_chains = enabled_chains;
    batch_size = batch_size;
    start_block = unwrap_or start_block 0;
    finality_mode = unwrap_or mode finalized;
    reorg_window_blocks = reorg_window_blocks;
    poll_interval = poll_interval_secs * 1000;
  })

unfoldable pub database_url_from_env_map : Env → Result Text
database_url_from_env_map env =
    context (optional_env env (codes "ORMPINDEXER_DATABASE_URL")) Error.not_configured

-- `RuntimeConfig::chain`
unfoldable pub chain : RuntimeConfig → ℕ → Option ChainConfig
chain config chain_id = find (λ c. c.chain_id == chain_id) config.enabled_chains
