-- ===== src/Config/Env/Tests.antt =====
-- An environment, its settings, and the theorems at concrete inputs.
use ormpindexer.Base.{◌≡◌, refl, true, false, none, [], ◌∷◌, codes, text_eq, ok}
use ormpindexer.Base.Order.{text_order}
use ormpindexer.Base.Trim.{trim, trim_by, front_space, back_space}
use ormpindexer.Checkpoint.{Checkpoint}
use ormpindexer.Config.Types.{ChainConfig, safe, latest, from_str, uses_reorg_protection}
use ormpindexer.Config.Env
use ormpindexer.Config.Env.{
  RuntimeConfig, optional_env, number, parse_u64, parsed, optional_u64, split, split_list,
  optional_list, required_list, optional_mode, chain_from_env_map, metrics_from_env_map,
  from_env_map,
}
use ormpindexer.Config.Env.Valid.{IsValid, from_env_map-IsValid}
use ormpindexer.Planner.{
  default_chain_config, default_evm_chain_config, default_contracts, default_topics,
  evm_logs_dataset,
}
use ormpindexer.Schema.Ids.{digits}

-- Two chains, of which the second sees the latest blocks in batches of 50.
abbrev env : Env.Env
env =
    (codes "ORMPINDEXER_CHAIN_46_BATCH_SIZE", codes "+50")
    ∷ (codes "ORMPINDEXER_CHAIN_46_FINALITY_MODE", codes " latest ")
    ∷ (codes "ORMPINDEXER_CHAIN_46_TOPICS", codes "0x01,,0x02")
    ∷ (codes "ORMPINDEXER_ENABLED_CHAINS", codes "1, 46,")
    ∷ (codes "ORMPINDEXER_FINALITY_MODE", codes "safe")
    ∷ []

abbrev ethereum : ChainConfig
ethereum = record {
  chain_id = 1;
  start_block = 20009590;
  batch_size = 1000;
  contracts = default_contracts false;
  topics = default_topics false;
  finality_mode = safe;
}

abbrev darwinia : ChainConfig
darwinia = record {
  chain_id = 46;
  start_block = 2830100;
  batch_size = 50;
  contracts = default_contracts true;
  topics = codes "0x01" ∷ codes "0x02" ∷ [];
  finality_mode = latest;
}

abbrev config : RuntimeConfig
config = record {
  datalens = record {
    endpoint = codes "http://localhost:8080";
    application = codes "ormpindexer";
    token = none;
    timeout = 300000;
    query_max_attempts = 3;
    head_buffer_blocks = 1;
    min_request_interval = 100;
  };
  metrics = record { refresh_delay = 5000; refresh_timeout = 10000 };
  database_url = none;
  enabled_chains = ethereum ∷ darwinia ∷ [];
  batch_size = 1000;
  start_block = 0;
  finality_mode = safe;
  reorg_window_blocks = 128;
  poll_interval = 30000;
}

settings : from_env_map env ≡ ok config
unfolding from_env_map metrics_from_env_map chain_from_env_map optional_mode required_list
    optional_list split_list split optional_u64 parsed parse_u64 number optional_env from_str
    default_chain_config default_evm_chain_config digits trim trim_by front_space back_space text_eq
    uses_reorg_protection
settings = refl

from_env_map-IsValid_example : IsValid config
from_env_map-IsValid_example = from_env_map-IsValid env config settings

abbrev checkpoint : Checkpoint
checkpoint = record { chain_id = 46; dataset = evm_logs_dataset; next_block = 2830100 }
