-- ===== src/Runner/Interfaces.antt =====
-- What the runner is generic over: the traits `DatalensLogReader` (src/datalens/types.rs),
-- `EventDecoder` (src/decoder/types.rs) and `EventWriter` (src/database.rs), and the settings of
-- `RuntimeConfig` that it reads. `W` is the state of everything outside the runner's variables.
use ormpindexer.Base.{ℕ, List, Text}
use ormpindexer.Base.Action.{Action, ◌>>=◌, ◌>>◌, pure}
use ormpindexer.Config.Types.{FinalityMode}
use ormpindexer.Checkpoint.{BlockAnchor, CheckpointStore}
use ormpindexer.Datalens.Types.{
  DatalensBlockQuery, DatalensBlockQueryResult, DatalensLog, DatalensLogQuery,
  DatalensLogQueryResult,
}
use ormpindexer.Schema.Types.{LegacyEvent}

pub record DatalensLogReader (W : Type 0) : Type 0 where
  pub latest_block : ℕ → FinalityMode → Action W ℕ
  pub finalized_head : ℕ → Action W ℕ
  pub query_blocks : DatalensBlockQuery → Action W DatalensBlockQueryResult
  pub query_logs : DatalensLogQuery → Action W DatalensLogQueryResult

pub record EventDecoder (W : Type 0) : Type 0 where
  pub decode : DatalensLog → Action W (List LegacyEvent)

pub record EventWriter (W : Type 0) : Type 0 where
  pub write_events : List LegacyEvent → Action W ℕ
  pub write_events_and_advance_checkpoint :
      CheckpointStore W → List LegacyEvent → List BlockAnchor → ℕ → Text → ℕ → Action W ℕ

-- The trait's own body of `write_events_and_advance_checkpoint`, over `write_events`.
unfoldable pub write_then_advance :
    {W : Type 0}
    → (List LegacyEvent → Action W ℕ)
    → CheckpointStore W
    → List LegacyEvent
    → List BlockAnchor
    → ℕ
    → Text
    → ℕ
    → Action W ℕ
write_then_advance write_events checkpoints events anchors chain_id dataset next_block = do
  written ← write_events events
  checkpoints.upsert_block_anchors anchors
  checkpoints.advance chain_id dataset next_block
  pure written

-- `DryRunEventWriter`
abbrev pub dry_run : {W : Type 0} → EventWriter W
dry_run = record {
  write_events = λ _. pure 0;
  write_events_and_advance_checkpoint = write_then_advance (λ _. pure 0);
}

pub record IndexerRunner (W : Type 0) : Type 0 where
  pub head_buffer_blocks : ℕ
  pub reorg_window_blocks : ℕ
  pub reader : DatalensLogReader W
  pub checkpoints : CheckpointStore W
  pub decoder : EventDecoder W
  pub writer : EventWriter W
