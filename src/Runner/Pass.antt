-- ===== src/Runner/Pass.antt =====
-- One pass over a chain (`run_chain_once` and `rollback_reorged_anchors` of src/runner.rs).
pub mod Total
pub mod Reorg
pub mod Recorded
use ormpindexer.Base.{
  ℕ, zero, suc, ◌+◌, ◌-◌, max, Bool, true, false, not, ◌&&◌, Option, none, some, List, [], Text,
  Result, ok, err, text_eq, leb, ltb, if◌then◌else◌, map, min, wrapping_add, checked_sub,
  saturating_add,
}
use ormpindexer.Base.Action.{Action, ◌>>=◌, ◌>>◌, pure, lift}
use ormpindexer.Base.Order.{nat_order}
use ormpindexer.Base.BTreeMap.{BTreeMap, get, collect_from}
use ormpindexer.Config.Types.{ChainConfig, uses_reorg_protection}
use ormpindexer.Checkpoint.{Checkpoint, BlockRange, BlockAnchor, plan_next_range}
use ormpindexer.Datalens.Types.{DatalensBlock, covers}
use ormpindexer.Planner.{chain_dataset}
use ormpindexer.Runner.Interfaces.{IndexerRunner}
use ormpindexer.Runner.Anchors.{blocks_by_number}
use ormpindexer.Runner.Range.{ProcessedRangeReport, process_range}

-- `(from..=to).find(p)`, over the number of blocks left.
unfoldable pub find_block : (ℕ → Bool) → ℕ → ℕ → Option ℕ
find_block p zero block_number = none
find_block p (suc left) block_number =
    let rest = find_block p left (block_number + 1) in
    if p block_number then some block_number else rest

-- A block has to be fetched again: no anchor is stored for it, or the chain's header is missing or
-- has another hash.
unfoldable pub is_reorged : BTreeMap ℕ BlockAnchor → BTreeMap ℕ DatalensBlock → ℕ → Bool
is_reorged stored_anchors current_blocks block_number = elim (get block_number stored_anchors) [
  | none ↦ true
  | some anchor ↦ elim (get block_number current_blocks) [
    | none ↦ true
    | some block ↦ not (text_eq block.block_hash anchor.block_hash)
  ]
]

abbrev pub anchors_by_number : List BlockAnchor → BTreeMap ℕ BlockAnchor
anchors_by_number anchors = collect_from [] (map (λ anchor. (anchor.block_number, anchor)) anchors)

pub record ChainRunReport : Type 0 where
  pub chains_processed : ℕ
  pub ranges_queried : ℕ
  pub records_read : ℕ
  pub records_decoded : ℕ
  pub records_written : ℕ
  pub checkpoints_advanced : ℕ
  pub caught_up : Bool

-- `ChainRunReport::default()`
abbrev pub no_report : ChainRunReport
no_report = record {
  chains_processed = 0;
  ranges_queried = 0;
  records_read = 0;
  records_decoded = 0;
  records_written = 0;
  checkpoints_advanced = 0;
  caught_up = false;
}

unfoldable pub add_range : ChainRunReport → ProcessedRangeReport → ChainRunReport
add_range report range_report = record report {
  ranges_queried = wrapping_add report.ranges_queried range_report.ranges_queried;
  records_read = wrapping_add report.records_read range_report.records_read;
  records_decoded = wrapping_add report.records_decoded range_report.records_decoded;
  records_written = wrapping_add report.records_written range_report.records_written;
  checkpoints_advanced = wrapping_add report.checkpoints_advanced range_report.checkpoints_advanced;
}

-- A loop that has run out of fuel gives `none`, with the state that it has reached.
abbrev pub Looping : Type 0 → Type 0 → Type 0
Looping W A = W → Option (Result A) × W

module _ {W : Type 0} (runner : IndexerRunner W) (chain : ChainConfig) (dataset : Text) where
  -- The store is rolled back to the block that was found, if one was.
  unfoldable pub roll_back_to : Option ℕ → Action W (Option ℕ)
  roll_back_to none = pure none
  roll_back_to (some rollback_block) = do
    runner.checkpoints.rollback_legacy_from chain.chain_id dataset rollback_block
    pure (some rollback_block)

  -- The stored anchors of a window of blocks are held against the headers of the chain.
  unfoldable pub compare_window : ℕ → ℕ → Action W (Option ℕ)
  compare_window from_block to_block = do
    anchors ← runner.checkpoints.read_block_anchors chain.chain_id dataset from_block to_block
    current ← runner.reader.query_blocks (record {
      chain_id = chain.chain_id;
      from_block = from_block;
      to_block = to_block;
      finality_mode = chain.finality_mode;
    })
    let reorged = is_reorged (anchors_by_number anchors) (blocks_by_number current.blocks)
    if covers current from_block to_block
        then roll_back_to (find_block reorged (to_block + 1 - from_block) from_block)
        else pure none

  abbrev pub window_start : ℕ → ℕ → ℕ
  window_start checkpoint_next_block finalized =
      max (max chain.start_block (checkpoint_next_block - runner.reorg_window_blocks))
        (saturating_add finalized 1)

  -- The window ends below the checkpoint and starts above the finalized head.
  unfoldable pub check_window : ℕ → ℕ → Action W (Option ℕ)
  check_window checkpoint_next_block to_block = do
    finalized ← runner.reader.finalized_head chain.chain_id
    let from_block = window_start checkpoint_next_block finalized
    if ltb to_block from_block then pure none else compare_window from_block to_block

  unfoldable pub check_below : ℕ → Option ℕ → Action W (Option ℕ)
  check_below checkpoint_next_block none = pure none
  check_below checkpoint_next_block (some to_block) = check_window checkpoint_next_block to_block

  unfoldable pub rollback_reorged_anchors : ℕ → Action W (Option ℕ)
  unfolding check_below
  rollback_reorged_anchors checkpoint_next_block =
      check_below checkpoint_next_block (checked_sub checkpoint_next_block 1)

  -- One round of the `while` loop: the next range, cut at the target, is processed.
  unfoldable pub run_range : ℕ → ℕ → Action W ProcessedRangeReport
  run_range target_block next_block = do
    range ← lift (
        plan_next_range
          (record { chain_id = chain.chain_id; dataset = dataset; next_block = next_block })
          chain.batch_size)
    process_range runner chain dataset (record range { to_block = min range.to_block target_block })

  unfoldable pub run_ranges : ℕ → ℕ → ℕ → ChainRunReport → Bool → Looping W ChainRunReport
  run_ranges zero target_block next_block report stop_poll w = (none, w)
  run_ranges (suc fuel) target_block next_block report stop_poll w =
      let (r, w') = run_range target_block next_block w in
      let more : Option (Result ChainRunReport) × W = elim r [
        | err e ↦ (some (err e), w')
        | ok range_report ↦
            run_ranges fuel target_block range_report.next_block (add_range report range_report)
              range_report.stop_poll w'
      ] in
      if leb next_block target_block && not stop_poll then more else (some (ok report), w)

abbrev pub finish : ChainRunReport → ChainRunReport
finish report = record report {
  chains_processed = if ltb 0 report.ranges_queried then 1 else report.chains_processed;
  caught_up = true;
}

abbrev pub finish_result : Option (Result ChainRunReport) → Option (Result ChainRunReport)
finish_result none = none
finish_result (some (err e)) = some (err e)
finish_result (some (ok report)) = some (ok (finish report))

module _ {W : Type 0} (runner : IndexerRunner W) (chain : ChainConfig) where
  -- The part before the loop: the dataset, the block to continue at and the target block.
  unfoldable pub begin_pass : Action W (Text × ℕ × ℕ)
  begin_pass = do
    dataset ← lift (chain_dataset chain.chain_id)
    checkpoint ← runner.checkpoints.read_or_create chain.chain_id dataset chain.start_block
    let rolled_back = rollback_reorged_anchors runner chain dataset checkpoint.next_block
    rollback ← if uses_reorg_protection chain.finality_mode then rolled_back else pure none
    latest_block ← runner.reader.latest_block chain.chain_id chain.finality_mode
    pure (
      dataset,
      elim rollback [ none ↦ checkpoint.next_block | some block ↦ block ],
      latest_block - runner.head_buffer_blocks,
    )

  -- Behind the start: the chain may be ahead of the target, else the loop runs. A round is meant to
  -- move the checkpoint past one block or more, or to stop it.
  unfoldable pub continue_pass : Text → ℕ → ℕ → Looping W ChainRunReport
  continue_pass dataset next_block target_block w =
      let (out, w') =
        run_ranges runner chain dataset (suc (suc (target_block - next_block))) target_block
          next_block no_report false w in
      if ltb target_block next_block
      then (some (ok (record no_report { caught_up = true })), w)
      else (finish_result out, w')

  unfoldable pub run_chain_once : Looping W ChainRunReport
  run_chain_once w =
      let (r, w') = begin_pass w in
      elim r [
        | err e ↦ (some (err e), w')
        | ok (dataset, next_block, target_block) ↦ continue_pass dataset next_block target_block w'
      ]
