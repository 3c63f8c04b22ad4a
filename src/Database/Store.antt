-- ===== src/Database/Store.antt =====
-- `PostgresCheckpointStore` (src/database.rs): checkpoints, anchors, and the rollback of a chain.
pub mod Rollback
pub mod Refines
use ormpindexer.Base.{
  ℕ, Bool, not, ◌&&◌, none, some, List, [], ◌∷◌, ◌++◌, Text, codes, text_eq, Option, Error, Result,
  ok, err, is_empty, any, filter, map, leb, ltb, ◌==◌, ◌-◌, if◌then◌else◌, context, length, take,
  to_ascii_lowercase,
}
use ormpindexer.Base.Order.{nat_order, text_order, pair_order}
use ormpindexer.Base.BTreeMap.{BTreeMap, get, or_insert, retain, values}
use ormpindexer.Base.Action.{Action, ◌>>=◌, ◌>>◌, pure, lift}
use ormpindexer.Checkpoint.{Checkpoint, BlockAnchor, CheckpointStore}
use ormpindexer.Checkpoint.InMemory.{AnchorKey}
use ormpindexer.Schema.Ids.{digits, zeros, strip_hex_prefix}
use ormpindexer.Schema.Rows.{
  OrmpMessageAcceptedRow, OrmpMessageAssignedRow, SignaturePubSignatureSubmittionRow,
}
use ormpindexer.Schema.Assignments.{AssignmentConfig}
use ormpindexer.Database.{Tables, Engine, statement, query, transaction, for_each, update}
use ormpindexer.Database.Inserts.{fresh}
use ormpindexer.Database.Backfill.{order_by_block, backfill_message_assignment}
use ormpindexer.Database.Writer.{upsert_block_anchors_tx, upsert_checkpoint_tx}

-- `WHERE chain_id = $1 AND block_number >= $2`
abbrev pub rolled_back : ℕ → ℕ → ℕ → ℕ → Bool
rolled_back chain_id rollback_block row_chain_id block_number =
    (row_chain_id == chain_id) && leb rollback_block block_number

-- The message hashes of the assignments that go. `DISTINCT` is left out: only membership is asked.
unfoldable pub rolled_back_assignment_msg_hashes : ℕ → ℕ → Tables → List Text
rolled_back_assignment_msg_hashes chain_id rollback_block t =
    map (λ row. row.msg_hash)
      (filter (λ row. rolled_back chain_id rollback_block row.chain_id row.block_number)
        (values t.ormp_message_assigned))

-- `LPAD(text, width, '0')`, which cuts a longer text.
abbrev lpad : ℕ → Text → Text
lpad width text = take width (zeros (width - length text) ++ text)

-- `LIKE prefix || '%'`, for a prefix without a wildcard: it is made of digits and of hex digits.
unfoldable pub starts_with : Text → Text → Bool
starts_with [] text = Bool.true
starts_with (a ∷ prefix) [] = Bool.false
starts_with (a ∷ prefix) (b ∷ text) = (a == b) && starts_with prefix text

unfoldable pub signature_prefix : BlockAnchor → Text
signature_prefix anchor =
    lpad 10 (digits 39 anchor.block_number)
    ++ codes "-"
    ++ to_ascii_lowercase (take 5 (strip_hex_prefix anchor.block_hash))
    ++ codes "-"

-- The anchors that go, of one chain and dataset.
abbrev pub anchor_goes : ℕ → Text → ℕ → AnchorKey → Bool
anchor_goes chain_id dataset rollback_block (anchor_chain_id, (anchor_dataset, block_number)) =
    (anchor_chain_id == chain_id)
    && (text_eq anchor_dataset dataset && leb rollback_block block_number)

-- The join of a signature with an anchor that goes.
unfoldable pub signed_in :
    ℕ → Text → ℕ → SignaturePubSignatureSubmittionRow → AnchorKey × BlockAnchor → Bool
signed_in chain_id dataset rollback_block row (k, anchor) =
    anchor_goes chain_id dataset rollback_block k
    && ((row.block_number == anchor.block_number) && starts_with (signature_prefix anchor) row.id)

unfoldable pub delete_signature_submittions : ℕ → Text → ℕ → Tables → Tables
delete_signature_submittions chain_id dataset rollback_block t = record t {
  signature_pub_signature_submittion =
      filter
        (λ e. not (any (signed_in chain_id dataset rollback_block e.1) t.ormp_indexer_block_anchor))
        t.signature_pub_signature_submittion;
}

-- The `DELETE` of each of the `LEGACY_ROLLBACK_TABLES`, in their order.
module _ (chain_id rollback_block : ℕ) where
  unfoldable pub legacy_rollback_tables : List (Tables → Tables)
  legacy_rollback_tables =
      (λ t. record t {
        ormp_hash_imported =
            filter (λ e. not (rolled_back chain_id rollback_block e.1.chain_id e.1.block_number))
              t.ormp_hash_imported;
      })
      ∷ (λ t. record t {
        ormp_message_accepted =
            filter (λ e. not (rolled_back chain_id rollback_block e.1.chain_id e.1.block_number))
              t.ormp_message_accepted;
      })
      ∷ (λ t. record t {
        ormp_message_assigned =
            filter (λ e. not (rolled_back chain_id rollback_block e.1.chain_id e.1.block_number))
              t.ormp_message_assigned;
      })
      ∷ (λ t. record t {
        ormp_message_dispatched =
            filter (λ e. not (rolled_back chain_id rollback_block e.1.chain_id e.1.block_number))
              t.ormp_message_dispatched;
      })
      ∷ (λ t. record t {
        msgport_message_recv =
            filter (λ e. not (rolled_back chain_id rollback_block e.1.chain_id e.1.block_number))
              t.msgport_message_recv;
      })
      ∷ (λ t. record t {
        msgport_message_sent =
            filter (λ e. not (rolled_back chain_id rollback_block e.1.chain_id e.1.block_number))
              t.msgport_message_sent;
      })
      ∷ (λ t. record t {
        signature_pub_signature_submittion =
            filter (λ e. not (rolled_back chain_id rollback_block e.1.chain_id e.1.block_number))
              t.signature_pub_signature_submittion;
      })
      ∷ []

-- The first statement of `recompute_accepted_assignments_tx`: the columns of the messages are cleared.
unfoldable pub cleared : List Text → Tables → Tables
unfolding fresh
cleared msg_hashes t = record t {
  ormp_message_accepted =
      map (λ e. (e.0, if any (text_eq e.1.msg_hash) msg_hashes then fresh e.1 else e.1))
        t.ormp_message_accepted;
}

unfoldable pub assignments_left : List Text → Tables → List OrmpMessageAssignedRow
assignments_left msg_hashes t =
    order_by_block
      (filter (λ row. any (text_eq row.msg_hash) msg_hashes) (values t.ormp_message_assigned))

unfoldable pub without_anchors : ℕ → Text → ℕ → Tables → Tables
without_anchors chain_id dataset rollback_block t = record t {
  ormp_indexer_block_anchor =
      retain (λ k. not (anchor_goes chain_id dataset rollback_block k)) t.ormp_indexer_block_anchor;
}

module _ (engine : Engine) (config : AssignmentConfig) where
  unfoldable pub recompute_accepted_assignments_tx : List Text → Action Tables (Unit {0})
  recompute_accepted_assignments_tx msg_hashes =
      let all = do
        statement engine (cleared msg_hashes)
        assignments ← query engine (assignments_left msg_hashes)
        for_each (backfill_message_assignment engine config) assignments
      in if is_empty msg_hashes then pure tt else all

  -- The body of the transaction.
  unfoldable pub roll_back : ℕ → Text → ℕ → Action Tables (Unit {0})
  roll_back chain_id dataset rollback_block = do
    assignment_msg_hashes ← query engine (rolled_back_assignment_msg_hashes chain_id rollback_block)
    statement engine (delete_signature_submittions chain_id dataset rollback_block)
    for_each (statement engine) (legacy_rollback_tables chain_id rollback_block)
    recompute_accepted_assignments_tx assignment_msg_hashes
    statement engine (without_anchors chain_id dataset rollback_block)
    upsert_checkpoint_tx engine chain_id dataset rollback_block

  unfoldable pub rollback_legacy_from : ℕ → Text → ℕ → Action Tables (Unit {0})
  rollback_legacy_from chain_id dataset rollback_block =
      transaction engine (roll_back chain_id dataset rollback_block)

  -- `INSERT … ON CONFLICT DO NOTHING`, then the `SELECT`; `fetch_one` fails where no row is there.
  unfoldable pub read_or_create : ℕ → Text → ℕ → Action Tables Checkpoint
  read_or_create chain_id dataset start_block = do
    statement engine (λ t. record t {
      ormp_indexer_checkpoint = or_insert (chain_id, dataset) start_block t.ormp_indexer_checkpoint;
    })
    row ← query engine (λ t. get (chain_id, dataset) t.ormp_indexer_checkpoint)
    next_block ← lift (context row Error.remote)
    pure (record { chain_id = chain_id; dataset = dataset; next_block = next_block })

  unfoldable pub advance : ℕ → Text → ℕ → Action Tables (Unit {0})
  advance chain_id dataset next_block = statement engine λ t. record t {
    ormp_indexer_checkpoint =
        update (chain_id, dataset) (λ _. next_block) t.ormp_indexer_checkpoint;
  }

  unfoldable pub upsert_block_anchors : List BlockAnchor → Action Tables (Unit {0})
  upsert_block_anchors anchors =
      if is_empty anchors
      then pure tt
      else transaction engine (upsert_block_anchors_tx engine anchors)

  -- The map's order is that of the block numbers within a chain and dataset.
  unfoldable pub read_block_anchors : ℕ → Text → ℕ → ℕ → Action Tables (List BlockAnchor)
  read_block_anchors chain_id dataset from_block to_block = query engine λ t. values (
      retain (λ k. anchor_goes chain_id dataset from_block k && leb k.1.1 to_block)
        t.ormp_indexer_block_anchor)

  -- The store as the runner sees it.
  abbrev pub postgres_store : CheckpointStore Tables
  postgres_store = record {
    read_or_create = read_or_create;
    advance = advance;
    upsert_block_anchors = upsert_block_anchors;
    read_block_anchors = read_block_anchors;
    rollback_legacy_from = rollback_legacy_from;
  }
