-- ===== src/Runner/Anchors.antt =====
-- The anchors of a range (`block_anchors_from_logs`, `block_anchors_from_blocks`,
-- `block_anchors_for_range` of src/runner.rs).
pub mod Exact
use ormpindexer.Base.{
  ℕ, zero, suc, ◌+◌, ◌-◌, max, Option, none, some, List, [], ◌∷◌, Text, Result, ok, err, Error,
  ◌>>=◌ as ◌>>=ᴿ◌, not, ltb, if◌then◌else◌, map, saturating_add,
}
use ormpindexer.Base.Action.{Action, ◌>>=◌, pure, bail, lift}
use ormpindexer.Base.Order.{nat_order}
use ormpindexer.Base.BTreeMap.{BTreeMap, get, or_insert, values, collect_from}
use ormpindexer.Config.Types.{FinalityMode, ChainConfig, uses_reorg_protection}
use ormpindexer.Checkpoint.{BlockRange, BlockAnchor}
use ormpindexer.Datalens.Types.{DatalensBlock, DatalensLog, covers}
use ormpindexer.Runner.Interfaces.{IndexerRunner}

-- The source collects the headers into a `HashMap`, of which only lookups are made.
abbrev pub blocks_by_number : List DatalensBlock → BTreeMap ℕ DatalensBlock
blocks_by_number blocks = collect_from [] (map (λ block. (block.block_number, block)) blocks)

module _ (chain_id : ℕ) (dataset : Text) (finality : FinalityMode) where
  -- The loop over the logs: the first log of a block that has a hash gives the block's anchor.
  log_anchors : List DatalensLog → BTreeMap ℕ BlockAnchor → BTreeMap ℕ BlockAnchor
  log_anchors [] anchors = anchors
  log_anchors (log ∷ logs) anchors = log_anchors logs (elim log.block_hash [
    | none ↦ anchors
    | some block_hash ↦
        or_insert log.block_number
          (record {
            chain_id = chain_id;
            dataset = dataset;
            block_number = log.block_number;
            block_hash = block_hash;
            parent_hash = log.parent_hash;
            finality = finality;
          })
          anchors
  ])

  unfoldable pub block_anchors_from_logs : List DatalensLog → List BlockAnchor
  unfolding log_anchors
  block_anchors_from_logs logs = values (log_anchors logs [])

  abbrev pub anchor_of : ℕ → DatalensBlock → BlockAnchor
  anchor_of block_number block = record {
    chain_id = chain_id;
    dataset = dataset;
    block_number = block_number;
    block_hash = block.block_hash;
    parent_hash = block.parent_hash;
    finality = finality;
  }

  -- The loop `for block_number in from_block..=to_block`, over the number of blocks left.
  unfoldable pub header_anchors : ℕ → ℕ → BTreeMap ℕ DatalensBlock → Result (List BlockAnchor)
  header_anchors zero block_number blocks = ok []
  header_anchors (suc left) block_number blocks = elim (get block_number blocks) [
    | none ↦ err Error.missing_block_header
    | some block ↦ header_anchors left (block_number + 1) blocks >>=ᴿ λ anchors.
        ok (anchor_of block_number block ∷ anchors)
  ]

  unfoldable pub block_anchors_from_blocks :
      BlockRange → List DatalensBlock → Result (List BlockAnchor)
  unfolding header_anchors
  block_anchors_from_blocks range blocks =
      header_anchors (range.to_block + 1 - range.from_block) range.from_block
        (blocks_by_number blocks)

module _ {W : Type 0} (runner : IndexerRunner W) where
  -- `none` asks the caller to wait: the service has not served all the headers.
  unfoldable pub block_anchors_for_range :
      ChainConfig → Text → BlockRange → List DatalensLog → Action W (Option (List BlockAnchor))
  unfolding uses_reorg_protection covers block_anchors_from_logs block_anchors_from_blocks
  block_anchors_for_range chain dataset range logs =
      let protected = do
        finalized ← runner.reader.finalized_head chain.chain_id
        let from_block = max range.from_block (saturating_add finalized 1)
        let open_range : BlockRange = record { from_block = from_block; to_block = range.to_block }
        let fetch = do
          blocks ← runner.reader.query_blocks (record {
            chain_id = chain.chain_id;
            from_block = from_block;
            to_block = range.to_block;
            finality_mode = chain.finality_mode;
          })
          let anchors =
              lift (
                block_anchors_from_blocks chain.chain_id dataset chain.finality_mode open_range
                  blocks.blocks)
              >>= λ found. pure (some found)
          if covers blocks from_block range.to_block then anchors else pure none
        if ltb range.to_block from_block then pure (some []) else fetch
      in if uses_reorg_protection chain.finality_mode
        then protected
        else pure (some (block_anchors_from_logs chain.chain_id dataset chain.finality_mode logs))
