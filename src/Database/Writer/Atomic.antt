-- ===== src/Database/Writer/Atomic.antt =====
-- What a call of `write_events_and_advance_checkpoint` of `PostgresEventWriter` leaves behind.
use ormpindexer.Base.{ℕ, List, Text}
use ormpindexer.Base.Order.{nat_order, text_order, pair_order}
use ormpindexer.Base.BTreeMap.{BTreeMap, insert}
use ormpindexer.Checkpoint.{BlockAnchor}
use ormpindexer.Checkpoint.InMemory.{CheckpointKey, AnchorKey, insert_all}
use ormpindexer.Schema.Assignments.{AssignmentConfig}
use ormpindexer.Database.{Tables, Engine}

-- What the indexer knows of its own progress: the checkpoints and the anchors.
abbrev pub Progress : Type 0
Progress = BTreeMap CheckpointKey ℕ × BTreeMap AnchorKey BlockAnchor

abbrev pub progress : Tables → Progress
progress t = (t.ormp_indexer_checkpoint, t.ormp_indexer_block_anchor)

module _ (engine : Engine) (config : AssignmentConfig) where
  -- The progress that a range leaves: its anchors are stored, and the checkpoint is the next block.
  abbrev pub advanced : List BlockAnchor → ℕ → Text → ℕ → Tables → Progress
  advanced anchors chain_id dataset next_block t = (
    insert (chain_id, dataset) next_block t.ormp_indexer_checkpoint,
    insert_all anchors t.ormp_indexer_block_anchor,
  )
