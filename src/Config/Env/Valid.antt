-- ===== src/Config/Env/Valid.antt =====
-- What holds of the settings that are read from the environment (src/config.rs).
use ormpindexer.Base.{
  ensure-ok, Yields, Yields-ok, Yields-bind, ◌∙◌, ℕ, ◌*◌, ◌≤◌, ◌≡◌, refl, Bool, true, false, not,
  ◌&&◌, Option, List, [], ◌∷◌, Text, codes, ltb, ltb→lt, ◌==◌, is_empty, any, All, Result, ok, err,
  Error, is_ok, ensure, map_result, >>=-ok, ok_injective, Bool-cases, inl, inr, arith,
}
use ormpindexer.Config.Types.{FinalityMode, ChainConfig, uses_reorg_protection}
use ormpindexer.Config.Env.{
  u64_or, finalized, Env, MetricsConfig, RuntimeConfig, unwrap_or, or_default, optional_u64,
  optional_list, required_list, optional_mode, chain_key, chain_from_env_map, positive_u64,
  metrics_from_env_map, from_env_map, parsed,
}
use ormpindexer.Planner.{
  default_chain_config, default_evm_chain_config, default_contracts, default_topics,
}

-- A chain that the planner knows, with a batch of blocks, a contract and a topic.
pub record IsUsable (chain : ChainConfig) : Type 0 where
  pub known : is_ok (default_chain_config chain.chain_id) ≡ true
  pub batched : 1 ≤ chain.batch_size
  pub with_contracts : is_empty chain.contracts ≡ false
  pub with_topics : is_empty chain.topics ≡ false

pub record IsValid (config : RuntimeConfig) : Type 0 where
  pub some_chain : is_empty config.enabled_chains ≡ false
  pub usable : All IsUsable config.enabled_chains
  pub batched : 1 ≤ config.batch_size
  pub attempted : 1 ≤ config.datalens.query_max_attempts
  pub timed : 1 ≤ config.datalens.timeout
  pub measured : 1 ≤ config.metrics.refresh_delay × 1 ≤ config.metrics.refresh_timeout
  -- Where a chain may see a reorg, there is a window to look for it.
  pub guarded :
      any (λ chain. uses_reorg_protection chain.finality_mode) config.enabled_chains ≡ true
      → 1 ≤ config.reorg_window_blocks

positive_u64-ok :
    (env : Env) (key : Text) (default n : ℕ) → positive_u64 env key default ≡ ok n → 1 ≤ n
positive_u64-ok env key default n h =
    let (value, read, h1) = >>=-ok (optional_u64 env key) _ n h in
    let (u, checked, h2) =
      >>=-ok (ensure (ltb 0 (unwrap_or value default)) Error.zero_setting) _ n h1 in
    let pos = ltb→lt 0 (unwrap_or value default) (ensure-ok _ _ u checked) in
    let same = ok_injective (λ x. x) h2 in rw (← same) pos

-- The default configuration of a chain has contracts and topics.
default_filled :
    (chain_id : ℕ) (default : ChainConfig)
    → default_chain_config chain_id ≡ ok default
    → (is_empty default.contracts ≡ false) × (is_empty default.topics ≡ false)
unfolding default_chain_config default_evm_chain_config default_contracts default_topics
default_filled chain_id default h = ground arith

or_default-filled :
    (values default : List Text)
    → is_empty default ≡ false
    → is_empty (or_default values default) ≡ false
or_default-filled [] default h = h
or_default-filled (v ∷ values) default h = refl

chain_from_env_map-IsUsable :
    (env : Env) (start : Option ℕ) (batch : ℕ) (mode : FinalityMode) (chain_id : ℕ)
    (chain : ChainConfig)
    → chain_from_env_map env start batch mode chain_id ≡ ok chain
    → IsUsable chain
unfolding chain_from_env_map
chain_from_env_map-IsUsable env start batch mode chain_id chain h =
    let (default, known, h1) = >>=-ok (default_chain_config chain_id) _ chain h in
    let (chain_start, r2, h2) =
      >>=-ok (optional_u64 env (chain_key chain_id (codes "_START_BLOCK"))) _ chain h1 in
    let (chain_batch, r3, h3) =
      >>=-ok (optional_u64 env (chain_key chain_id (codes "_BATCH_SIZE"))) _ chain h2 in
    let (u, checked, h4) =
      >>=-ok (ensure (ltb 0 (unwrap_or chain_batch batch)) Error.zero_setting) _ chain h3 in
    let (m, r5, h5) =
      >>=-ok (optional_mode env (chain_key chain_id (codes "_FINALITY_MODE"))) _ chain h4 in
    let same = ok_injective (λ x. x) h5 in
    let (contracts, topics) = default_filled chain_id default known in
    rw (← same) (record {
      known = rw known refl;
      batched = ltb→lt 0 (unwrap_or chain_batch batch) (ensure-ok _ _ u checked);
      with_contracts = or_default-filled _ default.contracts contracts;
      with_topics = or_default-filled _ default.topics topics;
    })

module _ {A B : Type 0} (f : A → Result B) {P : B → Type 0}
    (each : (a : A) (b : B) → f a ≡ ok b → P b) where
  map_result-All : (xs : List A) (ys : List B) → map_result f xs ≡ ok ys → All P ys
  map_result-All [] ys h = let same = ok_injective (λ x. x) h in rw (← same) tt
  map_result-All (x ∷ xs) ys h =
      let (y, first, h1) = >>=-ok (f x) _ ys h in
      let (rest, more, h2) = >>=-ok (map_result f xs) _ ys h1 in
      let same = ok_injective (λ x. x) h2 in
      rw (← same) (each x y first, map_result-All xs rest more)

module _ {A B : Type 0} (f : A → Result B) where
  map_result-filled :
      (xs : List A) (ys : List B) → map_result f xs ≡ ok ys → is_empty ys ≡ is_empty xs
  map_result-filled [] ys h = let same = ok_injective (λ x. x) h in rw (← same) refl
  map_result-filled (x ∷ xs) ys h =
      let (y, first, h1) = >>=-ok (f x) _ ys h in
      let (rest, more, h2) = >>=-ok (map_result f xs) _ ys h1 in
      let same = ok_injective (λ x. x) h2 in rw (← same) refl

required_list-filled :
    (env : Env) (key : Text) (values : List Text)
    → required_list env key ≡ ok values
    → is_empty values ≡ false
unfolding required_list
required_list-filled env key values h = elim (Bool-cases (is_empty (optional_list env key))) [
  | inl none_given ↦ let e : err Error.not_configured ≡ ok values = rw none_given at h in cc
  | inr given ↦
      let e : ok (optional_list env key) ≡ ok values = rw given at h in
      rw (← ok_injective (λ x. x) e) given
]

metrics_from_env_map-positive :
    (env : Env) (metrics : MetricsConfig)
    → metrics_from_env_map env ≡ ok metrics
    → 1 ≤ metrics.refresh_delay × 1 ≤ metrics.refresh_timeout
unfolding metrics_from_env_map
metrics_from_env_map-positive env metrics h =
    let (delay, r1, h1) =
      >>=-ok (positive_u64 env (codes "ORMPINDEXER_METRICS_REFRESH_DELAY_MS") 5000) _ metrics h in
    let (timeout, r2, h2) =
      >>=-ok (positive_u64 env (codes "ORMPINDEXER_METRICS_REFRESH_TIMEOUT_MS") 10000) _ metrics
        h1 in
    rw (← ok_injective (λ x. x) h2)
      (positive_u64-ok env _ 5000 delay r1, positive_u64-ok env _ 10000 timeout r2)

window_needed :
    (window : ℕ) (reorgs : Bool) → not (window == 0 && reorgs) ≡ true → reorgs ≡ true → 1 ≤ window
window_needed window reorgs h k = ground arith

in_milliseconds : {n : ℕ} → 1 ≤ n → 1 ≤ n * 1000
in_milliseconds h = omega arith

from_env_map-Yields : (env : Env) → Yields IsValid (from_env_map env)
unfolding from_env_map
from_env_map-Yields env =
    Yields-bind (optional_u64 env (codes "ORMPINDEXER_START_BLOCK")) λ start _.
      Yields-bind (positive_u64 env (codes "ORMPINDEXER_BATCH_SIZE") 1000) λ batch batched.
        Yields-bind (required_list env (codes "ORMPINDEXER_ENABLED_CHAINS")) λ items given.
          Yields-bind (map_result parsed items) λ ids listed.
            Yields-bind (optional_mode env (codes "ORMPINDEXER_FINALITY_MODE")) λ mode _.
              Yields-bind
                (map_result (chain_from_env_map env start batch (unwrap_or mode finalized)) ids)
                λ chains configured.
                  Yields-bind (positive_u64 env (codes "ORMPINDEXER_DATALENS_TIMEOUT_SECS") 300)
                    λ timeout timed.
                      Yields-bind
                        (positive_u64 env (codes "ORMPINDEXER_DATALENS_QUERY_MAX_ATTEMPTS") 3)
                        λ attempts attempted.
                          Yields-bind
                            (u64_or env (codes "ORMPINDEXER_DATALENS_HEAD_BUFFER_BLOCKS") 1)
                            λ buffer _.
                              Yields-bind
                                (u64_or env (codes "ORMPINDEXER_DATALENS_MIN_REQUEST_INTERVAL_MS")
                                  100)
                                λ interval _.
                                  Yields-bind
                                    (u64_or env (codes "ORMPINDEXER_REORG_WINDOW_BLOCKS") 128)
                                    λ window _.
                                      Yields-bind (ensure _ Error.zero_setting) λ u checked.
                                        Yields-bind (metrics_from_env_map env) λ metrics measured.
                                          Yields-bind
                                            (u64_or env (codes "ORMPINDEXER_POLL_INTERVAL_SECS") 30)
                                            λ poll _.
                                              let each =
                                                chain_from_env_map env start batch
                                                  (unwrap_or mode finalized) in
                                              let waits = positive_u64-ok env _ 300 timeout timed in
                                              Yields-ok _ (record {
                                                some_chain =
                                                    map_result-filled each ids chains configured
                                                    ∙ (map_result-filled parsed items ids listed
                                                        ∙ required_list-filled env _ items given);
                                                usable =
                                                    map_result-All each
                                                      (chain_from_env_map-IsUsable env start batch
                                                        (unwrap_or mode finalized))
                                                      ids chains configured;
                                                batched = positive_u64-ok env _ 1000 batch batched;
                                                attempted =
                                                    positive_u64-ok env _ 3 attempts attempted;
                                                timed = in_milliseconds waits;
                                                measured =
                                                    metrics_from_env_map-positive env metrics
                                                      measured;
                                                guarded =
                                                    window_needed window _
                                                      (ensure-ok _ _ u checked);
                                              })

-- Settings that are read from an environment are valid: there is a chain, every chain is known, has a
-- batch of at least one block, a contract and a topic; the numbers that may not be 0 are not; and
-- where a chain may see a reorg, the reorg window is not empty.
pub from_env_map-IsValid :
    (env : Env) (config : RuntimeConfig) → from_env_map env ≡ ok config → IsValid config
from_env_map-IsValid env = (from_env_map-Yields env).value
