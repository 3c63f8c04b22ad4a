-- ===== src/Datalens/Query.antt =====
-- What a query of the Datalens service asks for (`query_finality`, `head_height`, `evm_chain_name` of
-- src/datalens/query.rs).
use ormpindexer.Base.{
  ℕ, ◌≡◌, Text, codes, Result, ok, err, Error, is_ok, ◌==◌, if◌then◌else◌, arith,
}
use ormpindexer.Config.Types.{FinalityMode, finalized, durable, safe, latest}
use ormpindexer.Planner.{default_evm_chain_config, chain_dataset}

pub record WireHeads : Type 0 where
  pub latest : ℕ
  pub safe : ℕ
  pub finalized : ℕ

unfoldable pub query_finality : FinalityMode → Text
query_finality finalized = codes "durable_only"
query_finality durable = codes "durable_only"
query_finality safe = codes "safe_to_latest"
query_finality latest = codes "safe_to_latest"

unfoldable pub head_height : FinalityMode → WireHeads → ℕ
head_height finalized heads = heads.finalized
head_height durable heads = heads.safe
head_height safe heads = heads.safe
head_height latest heads = heads.latest

unfoldable pub evm_chain_name : ℕ → Result Text
evm_chain_name chain_id =
    if chain_id == 1
    then ok (codes "ethereum")
    else if chain_id == 44
    then ok (codes "crab")
    else if chain_id == 46
    then ok (codes "darwinia")
    else if chain_id == 137
    then ok (codes "polygon")
    else if chain_id == 1284
    then ok (codes "moonbeam")
    else if chain_id == 8453
    then ok (codes "base")
    else if chain_id == 42161
    then ok (codes "arbitrum")
    else if chain_id == 81457
    then ok (codes "blast")
    else if chain_id == 2818
    then ok (codes "morph")
    else err Error.unsupported_chain

-- The service can be asked for exactly the chains that the planner has a configuration for: a chain
-- has a name in the requests if and only if it has a dataset.
pub evm_chain_name-chain_dataset :
    (chain_id : ℕ) → is_ok (evm_chain_name chain_id) ≡ is_ok (chain_dataset chain_id)
unfolding evm_chain_name chain_dataset default_evm_chain_config
evm_chain_name-chain_dataset chain_id = ground arith
