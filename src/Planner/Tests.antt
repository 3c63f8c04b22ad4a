-- ===== src/Planner/Tests.antt =====
-- Runs of the planner, and its theorem at one of them.
use ormpindexer.Base.{true, ℕ, ◌≡◌, refl, List, [], ◌∷◌, map, Result, ok, err, Error, arith}
use ormpindexer.Config.Types.{finalized, ChainConfig}
use ormpindexer.Planner.{
  default_evm_chain_config, chain_dataset, evm_logs_dataset, plan_evm_log_queries,
  default_contracts, default_topics, plan_loop, PlannedDatalensLogQuery,
}
use ormpindexer.Planner.Ranges.{Tiles, plan_evm_log_queries-Tiles}

abbrev darwinia : ChainConfig
darwinia = record {
  chain_id = 46;
  start_block = 2_830_100;
  batch_size = 1000;
  contracts = default_contracts true;
  topics = default_topics true;
  finality_mode = finalized;
}

darwinia-eq : default_evm_chain_config 46 ≡ ok darwinia
unfolding default_evm_chain_config
darwinia-eq = refl

unknown_dataset : chain_dataset 5 ≡ err Error.unconfigured_chain
unfolding chain_dataset default_evm_chain_config
unknown_dataset = refl

abbrev ends : Result (List PlannedDatalensLogQuery) → Result (List (ℕ × ℕ))
ends (err e) = err e
ends (ok plans) = ok (map (λ p. (p.query.from_block, p.query.to_block)) plans)

three_queries :
    ends (plan_evm_log_queries evm_logs_dataset darwinia 10 20 5 finalized)
    ≡ ok ((10, 14) ∷ (15, 19) ∷ (20, 20) ∷ [])
unfolding plan_evm_log_queries plan_loop default_contracts default_topics
three_queries = refl

reversed :
    plan_evm_log_queries evm_logs_dataset darwinia 20 10 5 finalized ≡ err Error.range_reversed
unfolding plan_evm_log_queries plan_loop
reversed = refl

plan_evm_log_queries-Tiles_example :
    (plans : List PlannedDatalensLogQuery) × (plan_evm_log_queries evm_logs_dataset darwinia 10 20 5
        finalized
      ≡ ok plans)
    × Tiles darwinia 20 5 finalized 10 plans
unfolding default_contracts default_topics
plan_evm_log_queries-Tiles_example =
    plan_evm_log_queries-Tiles evm_logs_dataset darwinia 10 20 5 finalized (omega arith)
      (omega arith) (omega arith) (λ e. cc e) (λ e. cc e)
