-- ===== src/Database/Inserts.antt =====
-- The upserts of the rows (`insert_*` of src/database.rs).
use ormpindexer.Base.{none, some}
use ormpindexer.Base.Order.{text_order}
use ormpindexer.Base.BTreeMap.{get, insert}
use ormpindexer.Base.Action.{Action}
use ormpindexer.Schema.Rows.{
  OrmpHashImportedRow, OrmpMessageAcceptedRow, OrmpMessageAssignedRow, OrmpMessageDispatchedRow,
  MsgportMessageRecvRow, MsgportMessageSentRow, SignaturePubSignatureSubmittionRow,
}
use ormpindexer.Database.{Tables, Engine, statement}

-- The columns that `insert_message_accepted` does not name: NULL in a new row, and kept where there is
-- a row with the id.
unfoldable pub merged : OrmpMessageAcceptedRow → OrmpMessageAcceptedRow → OrmpMessageAcceptedRow
merged row old = record row {
  oracle = old.oracle;
  oracle_assigned = old.oracle_assigned;
  oracle_assigned_fee = old.oracle_assigned_fee;
  relayer = old.relayer;
  relayer_assigned = old.relayer_assigned;
  relayer_assigned_fee = old.relayer_assigned_fee;
}

unfoldable pub fresh : OrmpMessageAcceptedRow → OrmpMessageAcceptedRow
fresh row = record row {
  oracle = none;
  oracle_assigned = none;
  oracle_assigned_fee = none;
  relayer = none;
  relayer_assigned = none;
  relayer_assigned_fee = none;
}

unfoldable pub upserted_accepted : OrmpMessageAcceptedRow → Tables → Tables
upserted_accepted row t =
    let stored : OrmpMessageAcceptedRow = elim (get row.id t.ormp_message_accepted) [
      | none ↦ fresh row
      | some old ↦ merged row old
    ] in
    record t { ormp_message_accepted = insert row.id stored t.ormp_message_accepted }

module _ (engine : Engine) where
  unfoldable pub insert_hash_imported : OrmpHashImportedRow → Action Tables (Unit {0})
  insert_hash_imported row =
      statement engine λ t. record t { ormp_hash_imported = insert row.id row t.ormp_hash_imported }

  unfoldable pub insert_message_accepted : OrmpMessageAcceptedRow → Action Tables (Unit {0})
  insert_message_accepted row = statement engine (upserted_accepted row)

  unfoldable pub insert_message_assigned : OrmpMessageAssignedRow → Action Tables (Unit {0})
  insert_message_assigned row =
      statement engine
        λ t. record t { ormp_message_assigned = insert row.id row t.ormp_message_assigned }

  unfoldable pub insert_message_dispatched : OrmpMessageDispatchedRow → Action Tables (Unit {0})
  insert_message_dispatched row =
      statement engine
        λ t. record t { ormp_message_dispatched = insert row.id row t.ormp_message_dispatched }

  unfoldable pub insert_msgport_message_recv : MsgportMessageRecvRow → Action Tables (Unit {0})
  insert_msgport_message_recv row =
      statement engine
        λ t. record t { msgport_message_recv = insert row.id row t.msgport_message_recv }

  unfoldable pub insert_msgport_message_sent : MsgportMessageSentRow → Action Tables (Unit {0})
  insert_msgport_message_sent row =
      statement engine
        λ t. record t { msgport_message_sent = insert row.id row t.msgport_message_sent }

  unfoldable pub insert_signature_submittion :
      SignaturePubSignatureSubmittionRow → Action Tables (Unit {0})
  insert_signature_submittion row = statement engine λ t. record t {
    signature_pub_signature_submittion = insert row.id row t.signature_pub_signature_submittion;
  }
