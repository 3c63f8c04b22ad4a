-- ===== src/Planner.antt =====
-- The planner (src/planner.rs): the chains that the program knows, and the split of a block range
-- into log queries.
pub mod Ranges
mod Tests
use ormpindexer.Base.{
  ℕ, zero, suc, ◌+◌, ◌-◌, min, Bool, true, false, not, Option, none, some, List, [], ◌∷◌, Result,
  ok, err, Error, ◌>>=◌, ◌>>◌, ensure, Text, codes, ltb, leb, ◌==◌, if◌then◌else◌, is_empty, find,
  u64_max, saturating_add,
}
use ormpindexer.Config.Types.{FinalityMode, finalized, ChainConfig}
use ormpindexer.Datalens.Types.{DatalensLogQuery}

abbrev pub msgport_address : Text
msgport_address = codes "0x2cd1867Fb8016f93710B6386f7f9F1D540A60812"

abbrev pub ormp_address : Text
ormp_address = codes "0x13b2211a7cA45Db2808F6dB05557ce5347e3634e"

abbrev pub signature_pub_address : Text
signature_pub_address = codes "0x57Aa601A0377f5AB313C5A955ee874f5D495fC92"

abbrev pub msgport_message_recv_topic : Text
msgport_message_recv_topic =
    codes "0xea087580bb17f433441f3b6c0c0b80cae92ee74a8d7f50050388646d9ffd1431"

abbrev pub msgport_message_sent_topic : Text
msgport_message_sent_topic =
    codes "0x40195d26d027672e04e23e34282d68c3d43ea138415b24c54fcdb9c2573e5975"

abbrev pub ormp_hash_imported_topic : Text
ormp_hash_imported_topic =
    codes "0xa931ec14fe958397dcb26e285e56292c13d77907712b51bbaa24cfc9349b789d"

abbrev pub ormp_message_accepted_topic : Text
ormp_message_accepted_topic =
    codes "0xcfb9b3466878aff0c7df17da215fd57d59eb245a5d03f5a7b57294d54581eb18"

abbrev pub ormp_message_assigned_topic : Text
ormp_message_assigned_topic =
    codes "0x3832f95736b288316c84b775a004a9d17177362548ce253cba9acb4801875f4d"

abbrev pub ormp_message_dispatched_topic : Text
ormp_message_dispatched_topic =
    codes "0x62b1dc20fd6f1518626da5b6f9897e8cd4ebadbad071bb66dc96a37c970087a8"

abbrev pub signature_pub_signature_submittion_topic : Text
signature_pub_signature_submittion_topic =
    codes "0x8b3975e4768e70d323e926e2cef0676fc9a3250437d9b8f90b52c770f0d7545f"

abbrev pub evm_logs_dataset : Text
evm_logs_dataset = codes "evm.logs"

pub record DefaultEvmChain : Type 0 where
  pub chain_id : ℕ
  pub start_block : ℕ
  pub include_signature_pub : Bool

-- `DEFAULT_EVM_CHAINS`
abbrev pub default_evm_chains : List DefaultEvmChain
default_evm_chains =
    record { chain_id = 1; start_block = 20_009_590; include_signature_pub = false }
    ∷ record { chain_id = 46; start_block = 2_830_100; include_signature_pub = true }
    ∷ record { chain_id = 137; start_block = 57_244_567; include_signature_pub = false }
    ∷ record { chain_id = 42161; start_block = 217_891_600; include_signature_pub = false }
    ∷ record { chain_id = 8453; start_block = 30_508_102; include_signature_pub = false }
    ∷ record { chain_id = 44; start_block = 2_900_604; include_signature_pub = false }
    ∷ record { chain_id = 1284; start_block = 6_294_138; include_signature_pub = false }
    ∷ record { chain_id = 81457; start_block = 4_293_849; include_signature_pub = false }
    ∷ record { chain_id = 2818; start_block = 59_565; include_signature_pub = false }
    ∷ []

unfoldable pub default_contracts : Bool → List Text
default_contracts include_signature_pub =
    msgport_address
    ∷ ormp_address
    ∷ (if include_signature_pub then signature_pub_address ∷ [] else [])

unfoldable pub default_topics : Bool → List Text
default_topics include_signature_pub =
    msgport_message_recv_topic
    ∷ msgport_message_sent_topic
    ∷ ormp_hash_imported_topic
    ∷ ormp_message_accepted_topic
    ∷ ormp_message_assigned_topic
    ∷ ormp_message_dispatched_topic
    ∷ (if include_signature_pub then signature_pub_signature_submittion_topic ∷ [] else [])

unfoldable pub default_evm_chain_config : ℕ → Result ChainConfig
default_evm_chain_config chain_id = elim (find (λ c. c.chain_id == chain_id) default_evm_chains) [
  | none ↦ err Error.unconfigured_chain
  | some chain ↦ ok (record {
    chain_id = chain_id;
    start_block = chain.start_block;
    batch_size = 1000;
    contracts = default_contracts chain.include_signature_pub;
    topics = default_topics chain.include_signature_pub;
    finality_mode = finalized;
  })
]

-- `map_err` puts one message in place of the other, both of which say that the chain is not known.
unfoldable pub default_chain_config : ℕ → Result ChainConfig
unfolding default_evm_chain_config
default_chain_config chain_id = elim (default_evm_chain_config chain_id) [
  | ok config ↦ ok config
  | err _ ↦ err Error.unconfigured_chain
]

unfoldable pub chain_dataset : ℕ → Result Text
unfolding default_evm_chain_config
chain_dataset chain_id = do default_evm_chain_config chain_id; ok evm_logs_dataset

pub record PlannedDatalensLogQuery : Type 0 where
  pub dataset : Text
  pub query : DatalensLogQuery

module _ (chain : ChainConfig) (to_block max_range_len : ℕ) (finality_mode : FinalityMode) where
  abbrev planned : ℕ → ℕ → PlannedDatalensLogQuery
  planned next_from range_end = record {
    dataset = evm_logs_dataset;
    query = record {
      chain_id = chain.chain_id;
      from_block = next_from;
      to_block = range_end;
      contracts = chain.contracts;
      topics = chain.topics;
      finality_mode = finality_mode;
    };
  }

  -- The `while` loop, from `next_from`; it gives what the loop still pushes.
  plan_loop : ℕ → ℕ → Result (List PlannedDatalensLogQuery)
  plan_loop zero next_from = err Error.out_of_fuel
  plan_loop (suc fuel) next_from =
      let range_end = min (saturating_add next_from (max_range_len - 1)) to_block in
      let plan = planned next_from range_end in
      let rest = plan_loop fuel (range_end + 1) >>= λ plans. ok (plan ∷ plans) in
      if leb next_from to_block
      then if range_end == u64_max then ok (plan ∷ []) else rest
      else ok []

-- A round is meant to move `next_from` up by one block or more.
unfoldable pub plan_evm_log_queries :
    Text → ChainConfig → ℕ → ℕ → ℕ → FinalityMode → Result (List PlannedDatalensLogQuery)
unfolding plan_loop
plan_evm_log_queries _ chain from_block to_block max_range_len finality_mode = do
  ensure (ltb 0 max_range_len) Error.max_range_zero
  ensure (leb from_block to_block) Error.range_reversed
  ensure (not (is_empty chain.contracts)) Error.no_contracts
  ensure (not (is_empty chain.topics)) Error.no_topics
  plan_loop chain to_block max_range_len finality_mode (suc (suc (to_block - from_block)))
      from_block
