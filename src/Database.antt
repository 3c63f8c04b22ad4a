-- ===== src/Database.antt =====
-- The database (src/database.rs): the tables, and the engine that runs statements on them. What a
-- statement of SQL means is written as a function on the tables; a table is a map over its primary
-- key. The columns `updated_at`, which nothing reads, are left out. Numbers are `NUMERIC` columns;
-- reading them back as text and parsing it, which gives the number that was stored, is left out.
pub mod Inserts
pub mod Backfill
pub mod Writer
pub mod Store
pub mod Effects
mod Tests
use ormpindexer.Base.{ℕ, Option, none, some, List, [], ◌∷◌, Text, ok, err, Error}
use ormpindexer.Base.BTreeMap.{BTreeMap, get, insert}
use ormpindexer.Base.Order.{Order}
use ormpindexer.Base.Action.{Action, ◌>>=◌, ◌>>◌, pure}
use ormpindexer.Checkpoint.{BlockAnchor}
use ormpindexer.Checkpoint.InMemory.{CheckpointKey, AnchorKey}
use ormpindexer.Schema.Rows.{
  OrmpHashImportedRow, OrmpMessageAcceptedRow, OrmpMessageAssignedRow, OrmpMessageDispatchedRow,
  MsgportMessageRecvRow, MsgportMessageSentRow, SignaturePubSignatureSubmittionRow,
}

pub record Tables : Type 0 where
  pub ormp_hash_imported : BTreeMap Text OrmpHashImportedRow
  pub ormp_message_accepted : BTreeMap Text OrmpMessageAcceptedRow
  pub ormp_message_assigned : BTreeMap Text OrmpMessageAssignedRow
  pub ormp_message_dispatched : BTreeMap Text OrmpMessageDispatchedRow
  pub msgport_message_recv : BTreeMap Text MsgportMessageRecvRow
  pub msgport_message_sent : BTreeMap Text MsgportMessageSentRow
  pub signature_pub_signature_submittion : BTreeMap Text SignaturePubSignatureSubmittionRow
  pub ormp_indexer_checkpoint : BTreeMap CheckpointKey ℕ
  pub ormp_indexer_block_anchor : BTreeMap AnchorKey BlockAnchor

-- The engine is a package that may refuse any statement, in any state of the tables.
pub record Engine : Type 0 where
  pub refuses : Tables → Option Error

module _ (engine : Engine) where
  -- A statement that is refused changes nothing.
  unfoldable pub statement : (Tables → Tables) → Action Tables (Unit {0})
  statement change t = elim (engine.refuses t) [ none ↦ (ok tt, change t) | some e ↦ (err e, t) ]

  unfoldable pub query : {A : Type 0} → (Tables → A) → Action Tables A
  query read t = elim (engine.refuses t) [ none ↦ (ok (read t), t) | some e ↦ (err e, t) ]

  -- `pool.begin()`, the statements, and `tx.commit()`: a transaction that is dropped before a commit
  -- that succeeds leaves the tables as they were.
  unfoldable pub transaction : {A : Type 0} → Action Tables A → Action Tables A
  transaction body t =
      let (r, t') = (query (λ t₀. tt) >>= λ begun. body >>= λ a. query (λ t₀. a)) t in
      elim r [ ok a ↦ (ok a, t') | err e ↦ (err e, t) ]

-- `for a in list { f(a).await?; }`
unfoldable pub for_each : {W A : Type 0} → (A → Action W (Unit {0})) → List A → Action W (Unit {0})
for_each f [] = pure tt
for_each f (a ∷ list) = f a >> for_each f list

-- `UPDATE … WHERE` the primary key has a value.
unfoldable pub update {ℓ κ} :
    {K : Type ℓ} {V : Type κ} ⦃o : Order K⦄ → K → (V → V) → BTreeMap K V → BTreeMap K V
update k change m = elim (get k m) [ none ↦ m | some v ↦ insert k (change v) m ]
