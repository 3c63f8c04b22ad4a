-- ===== src/Runner/Range.antt =====
-- One range (`query_range_once`, `process_range`, `process_successful_range` of src/runner.rs).
pub mod Outcome
use ormpindexer.Base.{
  ℕ, ◌+◌, min, Bool, true, not, ◌||◌, Option, none, some, List, [], ◌∷◌, ◌++◌, Text, Error, ltb,
  ◌==◌, if◌then◌else◌, length, context, checked_add, ensure,
}
use ormpindexer.Base.Action.{Action, ◌>>=◌, ◌>>◌, pure, lift}
use ormpindexer.Config.Types.{ChainConfig}
use ormpindexer.Checkpoint.{BlockRange, BlockAnchor}
use ormpindexer.Datalens.Types.{DatalensLog, DatalensLogQueryResult, is_none}
use ormpindexer.Schema.Types.{LegacyEvent}
use ormpindexer.Runner.Interfaces.{IndexerRunner}
use ormpindexer.Runner.Anchors.{block_anchors_for_range}

pub record ProcessedRangeReport : Type 0 where
  pub next_block : ℕ
  pub ranges_queried : ℕ
  pub records_read : ℕ
  pub records_decoded : ℕ
  pub records_written : ℕ
  pub checkpoints_advanced : ℕ
  pub stop_poll : Bool

-- The report of a range that has to wait: the next pass starts at its first block again.
abbrev pub waiting : BlockRange → ℕ → ProcessedRangeReport
waiting range records_read = record {
  next_block = range.from_block;
  ranges_queried = 1;
  records_read = records_read;
  records_decoded = 0;
  records_written = 0;
  checkpoints_advanced = 0;
  stop_poll = true;
}

module _ {W : Type 0} (runner : IndexerRunner W) (chain : ChainConfig) (dataset : Text)
    (range : BlockRange) where
  unfoldable pub query_range_once : Action W DatalensLogQueryResult
  query_range_once = runner.reader.query_logs (record {
    chain_id = chain.chain_id;
    from_block = range.from_block;
    to_block = range.to_block;
    contracts = chain.contracts;
    topics = chain.topics;
    finality_mode = chain.finality_mode;
  })

  -- The loop over the logs, which collects the events of each.
  unfoldable pub decode_logs : List DatalensLog → Action W (List LegacyEvent)
  decode_logs [] = pure []
  decode_logs (log ∷ logs) = do
    decoded ← runner.decoder.decode log
    rest ← decode_logs logs
    pure (decoded ++ rest)

  -- The end of the part: without anchors the range has to wait, else it is written at once.
  unfoldable pub write_found :
      ℕ
      → DatalensLogQueryResult
      → List LegacyEvent
      → ℕ
      → Option (List BlockAnchor)
      → Action W ProcessedRangeReport
  write_found served_end result events next_block none = pure (waiting range (length result.logs))
  write_found served_end result events next_block (some anchors) = do
    written ←
        runner.writer.write_events_and_advance_checkpoint runner.checkpoints events anchors
          chain.chain_id dataset next_block
    pure (record {
      next_block = next_block;
      ranges_queried = 1;
      records_read = length result.logs;
      records_decoded = length events;
      records_written = written;
      checkpoints_advanced = 1;
      stop_poll = not (is_none result.incomplete_reason) || ltb served_end range.to_block;
    })

  -- The part behind the checks of what was served, up to `served_end`.
  unfoldable pub write_served : ℕ → DatalensLogQueryResult → Action W ProcessedRangeReport
  write_served served_end result = do
    events ← decode_logs result.logs
    next_block ← lift (context (checked_add served_end 1) Error.next_block_overflow)
    let served : BlockRange = record { from_block = range.from_block; to_block = served_end }
    found ← block_anchors_for_range runner chain dataset served result.logs
    write_found served_end result events next_block found

  unfoldable pub process_served : Option ℕ → DatalensLogQueryResult → Action W ProcessedRangeReport
  process_served none result = pure (waiting range (length result.logs))
  process_served (some served_end) result = do
    served_start ← lift (context result.served_start Error.served_end_without_start)
    lift (ensure (served_start == range.from_block) Error.served_start_mismatch)
    write_served (min served_end range.to_block) result

  unfoldable pub process_successful_range : DatalensLogQueryResult → Action W ProcessedRangeReport
  unfolding process_served
  process_successful_range result = process_served result.served_end result

  unfoldable pub process_range : Action W ProcessedRangeReport
  unfolding query_range_once
  process_range = query_range_once >>= process_successful_range
