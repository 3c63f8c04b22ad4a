-- ===== src/Runner/Pass/Recorded.antt =====
-- The checkpoint that the store records, and the loop of a pass (src/runner.rs).
use ormpindexer.Base.{ℕ, ◌≤◌, ◌≡◌, some, List, Text, Result, ok, err, Error}
use ormpindexer.Base.Action.{Keeps}
use ormpindexer.Config.Types.{ChainConfig}
use ormpindexer.Checkpoint.{BlockAnchor}
use ormpindexer.Datalens.Types.{
  DatalensBlockQuery, DatalensLog, DatalensLogQuery, DatalensLogQueryResult,
}
use ormpindexer.Schema.Types.{LegacyEvent}
use ormpindexer.Runner.Interfaces.{IndexerRunner}
use ormpindexer.Runner.Range.{ProcessedRangeReport}

-- What the runner relies on, seen through the next block that the store has recorded for the chain
-- and the dataset: only the writer moves it, to the block that it is given, and only if it succeeds;
-- and a served range does not end before it starts.
pub record IsRecording {W : Type 0} (runner : IndexerRunner W) (chain : ChainConfig)
    (dataset : Text) (recorded : W → ℕ) : Type 0 where
  pub finalized_keeps : (c : ℕ) → Keeps recorded (runner.reader.finalized_head c)
  pub blocks_keep : (q : DatalensBlockQuery) → Keeps recorded (runner.reader.query_blocks q)
  pub logs_keep : (q : DatalensLogQuery) → Keeps recorded (runner.reader.query_logs q)
  pub decode_keeps : (log : DatalensLog) → Keeps recorded (runner.decoder.decode log)
  pub write_records :
      (events : List LegacyEvent) (anchors : List BlockAnchor) (next written : ℕ) (w : W)
      → let (r, w') =
          runner.writer.write_events_and_advance_checkpoint runner.checkpoints events anchors
            chain.chain_id dataset next w in
        r ≡ ok written → recorded w' ≡ next
  pub failed_write_keeps :
      (events : List LegacyEvent) (anchors : List BlockAnchor) (next : ℕ) (e : Error) (w : W)
      → let (r, w') =
          runner.writer.write_events_and_advance_checkpoint runner.checkpoints events anchors
            chain.chain_id dataset next w in
        r ≡ err e → recorded w' ≡ recorded w
  pub served_forward :
      (q : DatalensLogQuery) (result : DatalensLogQueryResult) (w : W) (start end : ℕ)
      → (runner.reader.query_logs q w).0 ≡ ok result
      → result.served_start ≡ some start
      → result.served_end ≡ some end
      → start ≤ end

module _ {W : Type 0} (runner : IndexerRunner W) (chain : ChainConfig) (dataset : Text)
    (recorded : W → ℕ) (laws : IsRecording runner chain dataset recorded) where
  -- After a round from `next`: what the store records is the next block of the report, which is not
  -- before `next`; after a failure it is `next` still.
  abbrev Recorded : ℕ → Result ProcessedRangeReport → W → Type 0
  Recorded next (ok report) w' = (recorded w' ≡ report.next_block) × (next ≤ report.next_block)
  Recorded next (err e) w' = recorded w' ≡ next
