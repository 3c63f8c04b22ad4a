-- ===== src/Database/Tests.antt =====
-- Runs of the statements on small tables, and the theorems of the database at one of them.
use ormpindexer.Base.{
  ◌≡◌, refl, ap, ◌∙◌, sym, none, [], ◌∷◌, Text, codes, ok, text_eq, eq_ignore_ascii_case, Among,
  here, later, to_ascii_lowercase,
}
use ormpindexer.Base.Order.{text_order}
use ormpindexer.Base.BTreeMap.{get, Among-of_get}
use ormpindexer.Checkpoint.{BlockAnchor}
use ormpindexer.Base.{arith}
use ormpindexer.Checkpoint.InMemory as InMemory
use ormpindexer.Database.Store as Store
use ormpindexer.Database.Store.Refines.{Refines, postgres_store-Refines}
use ormpindexer.Config.Types.{safe}
use ormpindexer.Schema.Rows.{OrmpMessageAcceptedRow, OrmpMessageAssignedRow}
use ormpindexer.Schema.Assignments.{
  legacy_defaults, apply_assignment_to_accepted, accepted_oracle_value,
}
use ormpindexer.Database.{Tables, Engine, statement, update}
use ormpindexer.Database.Backfill.{
  backfill_message_assignment, backfill_tables, backfilled, has_address, case_b49e,
}
use ormpindexer.Database.Backfill.Agrees.{IsFiled, changed, backfill_message_assignment_lem}
use ormpindexer.Database.Store.{rollback_legacy_from}

abbrev willing : Engine
willing = record { refuses = λ t. none }

abbrev accepted_row : OrmpMessageAcceptedRow
accepted_row = record {
  id = codes "0x01";
  block_number = 20_100_000;
  transaction_hash = [];
  block_timestamp = 0;
  chain_id = 1;
  log_index = 0;
  msg_hash = codes "0x01";
  channel = [];
  index = 0;
  from_chain_id = 1;
  from = [];
  to_chain_id = 46;
  to = [];
  gas_limit = 0;
  encoded = [];
  oracle = none;
  oracle_assigned = none;
  oracle_assigned_fee = none;
  relayer = none;
  relayer_assigned = none;
  relayer_assigned_fee = none;
}

abbrev assigned_row : OrmpMessageAssignedRow
assigned_row = record {
  id = codes "a";
  block_number = 20_100_000;
  transaction_hash = [];
  block_timestamp = 0;
  chain_id = 1;
  msg_hash = codes "0x01";
  oracle = codes "0x8D8a2bd991c1d900c59a82a2eeb0df44e0671aab";
  relayer = [];
  oracle_fee = 7;
  relayer_fee = 8;
  params = [];
}

abbrev one_message : Tables
one_message = record {
  ormp_hash_imported = [];
  ormp_message_accepted = (codes "0x01", accepted_row) ∷ [];
  ormp_message_assigned = [];
  ormp_message_dispatched = [];
  msgport_message_recv = [];
  msgport_message_sent = [];
  signature_pub_signature_submittion = [];
  ormp_indexer_checkpoint = [];
  ormp_indexer_block_anchor = [];
}

filed_entry :
    (k : Text) (a : OrmpMessageAcceptedRow)
    → Among {A = Text × OrmpMessageAcceptedRow} (k, a) ((codes "0x01", accepted_row) ∷ [])
    → a.id ≡ k
filed_entry k a (here e) = ap (λ p. p.1.id) e ∙ sym (ap (λ p. p.0) e)
filed_entry k a (later m) = elim m [ ]

one_message-IsFiled : IsFiled one_message
one_message-IsFiled k a found =
    filed_entry k a (Among-of_get k a one_message.ormp_message_accepted found)

oracle_entered :
    backfill_message_assignment willing legacy_defaults assigned_row one_message
    ≡ (ok tt, backfill_tables legacy_defaults assigned_row one_message)
unfolding backfill_message_assignment statement update backfilled has_address case_b49e text_eq
    eq_ignore_ascii_case to_ascii_lowercase accepted_oracle_value
oracle_entered = refl

backfill_message_assignment_lem_example :
    get
      (codes "0x01")
      (backfill_tables legacy_defaults assigned_row one_message).ormp_message_accepted
    ≡ changed
        (λ a. (apply_assignment_to_accepted a assigned_row legacy_defaults).0)
        (get (codes "0x01") one_message.ormp_message_accepted)
backfill_message_assignment_lem_example =
    backfill_message_assignment_lem willing legacy_defaults assigned_row one_message
      one_message-IsFiled (backfill_tables legacy_defaults assigned_row one_message) oracle_entered
      (codes "0x01")

abbrev anchor : BlockAnchor
anchor = record {
  chain_id = 1;
  dataset = codes "evm.logs";
  block_number = 5;
  block_hash = codes "0xab";
  parent_hash = none;
  finality = safe;
}

-- A checkpoint at block 6, with the anchor of block 5.
abbrev with_anchor : Tables
with_anchor = record one_message {
  ormp_indexer_checkpoint = ((1, codes "evm.logs"), 6) ∷ [];
  ormp_indexer_block_anchor = ((1, (codes "evm.logs", 5)), anchor) ∷ [];
}

postgres_store-Refines_example :
    Refines
      (Store.read_or_create willing legacy_defaults 1 (codes "evm.logs") 4)
      (InMemory.read_or_create 1 (codes "evm.logs") 4)
      with_anchor
    × Refines
        (Store.advance willing legacy_defaults 1 (codes "evm.logs") 7)
        (InMemory.advance 1 (codes "evm.logs") 7)
        with_anchor
    × Refines
        (Store.upsert_block_anchors willing legacy_defaults (anchor ∷ []))
        (InMemory.upsert_block_anchors (anchor ∷ []))
        with_anchor
    × Refines
        (Store.read_block_anchors willing legacy_defaults 1 (codes "evm.logs") 3 8)
        (InMemory.read_block_anchors 1 (codes "evm.logs") 3 8)
        with_anchor
    × Refines
        (Store.rollback_legacy_from willing legacy_defaults 1 (codes "evm.logs") 5)
        (InMemory.rollback_legacy_from 1 (codes "evm.logs") 5)
        with_anchor
postgres_store-Refines_example =
    postgres_store-Refines willing legacy_defaults 1 (codes "evm.logs") 4 7 6 5 3 8 (anchor ∷ [])
      with_anchor refl (omega arith)
