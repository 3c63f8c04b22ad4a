-- ===== src/Config/Types.antt =====
-- The configuration's data (src/config.rs): the finality mode and the settings of one chain.
use ormpindexer.Base.{
  ℕ, Bool, true, false, List, Text, codes, text_eq, Result, ok, err, Error, if◌then◌else◌,
}

pub data FinalityMode : Type 0 where
  finalized durable safe latest : FinalityMode

-- `FinalityMode::as_str`
unfoldable pub as_str : FinalityMode → Text
as_str finalized = codes "finalized"
as_str durable = codes "durable"
as_str safe = codes "safe"
as_str latest = codes "latest"

-- `FromStr` of `FinalityMode`
unfoldable pub from_str : Text → Result FinalityMode
from_str value =
    if text_eq value (codes "finalized")
    then ok finalized
    else if text_eq value (codes "durable")
    then ok durable
    else if text_eq value (codes "safe")
    then ok safe
    else if text_eq value (codes "latest")
    then ok latest
    else err Error.finality_unknown

unfoldable pub uses_reorg_protection : FinalityMode → Bool
uses_reorg_protection finalized = false
uses_reorg_protection durable = false
uses_reorg_protection safe = true
uses_reorg_protection latest = true

pub record ChainConfig : Type 0 where
  pub chain_id : ℕ
  pub start_block : ℕ
  pub batch_size : ℕ
  pub contracts : List Text
  pub topics : List Text
  pub finality_mode : FinalityMode
