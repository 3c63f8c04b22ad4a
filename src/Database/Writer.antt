-- ===== src/Database/Writer.antt =====
-- `PostgresEventWriter` (src/database.rs): the events of a range, its anchors and the checkpoint are
-- written in one transaction.
pub mod Atomic
use ormpindexer.Base.{ℕ, List, Text, is_empty, length, if◌then◌else◌}
use ormpindexer.Base.Order.{nat_order, text_order, pair_order}
use ormpindexer.Base.BTreeMap.{insert}
use ormpindexer.Base.Action.{Action, ◌>>=◌, ◌>>◌, pure}
use ormpindexer.Checkpoint.{BlockAnchor, CheckpointStore}
use ormpindexer.Checkpoint.InMemory.{key_of}
use ormpindexer.Runner.Interfaces.{EventWriter}
use ormpindexer.Schema.Types.{
  LegacyEvent, hash_imported, message_accepted, message_assigned, message_dispatched,
  msgport_message_recv, msgport_message_sent, signature_submittion,
}
use ormpindexer.Schema.Rows.{
  hash_imported_row, message_accepted_row, message_assigned_row, message_dispatched_row,
  msgport_message_recv_row, msgport_message_sent_row, signature_submittion_row,
}
use ormpindexer.Schema.Assignments.{AssignmentConfig}
use ormpindexer.Database.{Tables, Engine, statement, transaction, for_each}
use ormpindexer.Database.Inserts.{
  insert_hash_imported, insert_message_accepted, insert_message_assigned, insert_message_dispatched,
  insert_msgport_message_recv, insert_msgport_message_sent, insert_signature_submittion,
}
use ormpindexer.Database.Backfill.{backfill_message_assignment, backfill_accepted_assignment}

module _ (engine : Engine) where
  abbrev pub put_anchor : BlockAnchor → Tables → Tables
  put_anchor anchor t = record t {
    ormp_indexer_block_anchor = insert (key_of anchor) anchor t.ormp_indexer_block_anchor;
  }

  unfoldable pub upsert_block_anchors_tx : List BlockAnchor → Action Tables (Unit {0})
  upsert_block_anchors_tx anchors =
      for_each (λ anchor. statement engine (put_anchor anchor)) anchors

  abbrev pub put_checkpoint : ℕ → Text → ℕ → Tables → Tables
  put_checkpoint chain_id dataset next_block t = record t {
    ormp_indexer_checkpoint = insert (chain_id, dataset) next_block t.ormp_indexer_checkpoint;
  }

  unfoldable pub upsert_checkpoint_tx : ℕ → Text → ℕ → Action Tables (Unit {0})
  upsert_checkpoint_tx chain_id dataset next_block =
      statement engine (put_checkpoint chain_id dataset next_block)

  module _ (config : AssignmentConfig) where
    unfoldable pub write_legacy_event : LegacyEvent → Action Tables (Unit {0})
    write_legacy_event (hash_imported event) = insert_hash_imported engine (hash_imported_row event)
    write_legacy_event (message_accepted event) =
        let row = message_accepted_row event in
        insert_message_accepted engine row >> backfill_accepted_assignment engine config row
    write_legacy_event (message_assigned event) =
        let row = message_assigned_row event in
        insert_message_assigned engine row >> backfill_message_assignment engine config row
    write_legacy_event (message_dispatched event) =
        insert_message_dispatched engine (message_dispatched_row event)
    write_legacy_event (msgport_message_recv event) =
        insert_msgport_message_recv engine (msgport_message_recv_row event)
    write_legacy_event (msgport_message_sent event) =
        insert_msgport_message_sent engine (msgport_message_sent_row event)
    write_legacy_event (signature_submittion event) =
        insert_signature_submittion engine (signature_submittion_row event)

    unfoldable pub write_events : List LegacyEvent → Action Tables ℕ
    write_events events =
        let all = transaction engine do for_each write_legacy_event events; pure (length events)
        in if is_empty events then pure 0 else all

    -- The body of the transaction.
    unfoldable pub write_range :
        List LegacyEvent → List BlockAnchor → ℕ → Text → ℕ → Action Tables ℕ
    write_range events anchors chain_id dataset next_block = do
      for_each write_legacy_event events
      upsert_block_anchors_tx anchors
      upsert_checkpoint_tx chain_id dataset next_block
      pure (length events)

    unfoldable pub write_events_and_advance_checkpoint :
        CheckpointStore Tables
        → List LegacyEvent
        → List BlockAnchor
        → ℕ
        → Text
        → ℕ
        → Action Tables ℕ
    write_events_and_advance_checkpoint _ events anchors chain_id dataset next_block =
        transaction engine (write_range events anchors chain_id dataset next_block)

    -- `PostgresEventWriter` as the runner sees it.
    abbrev pub postgres_writer : EventWriter Tables
    postgres_writer = record {
      write_events = write_events;
      write_events_and_advance_checkpoint = write_events_and_advance_checkpoint;
    }
