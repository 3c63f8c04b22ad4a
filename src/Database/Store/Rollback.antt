-- ===== src/Database/Store/Rollback.antt =====
-- What a rollback of the database leaves behind.
use ormpindexer.Base.{
  is_empty, ℕ, ◌≡◌, refl, ap, ◌∙◌, Bool, true, false, not, inl, inr, Option-cases, List, [], ◌∷◌,
  Text, filter, filter-passes, map, All, All-Among, any, text_eq, if◌then◌else◌,
}
use ormpindexer.Base.Order.{nat_order, text_order, pair_order}
use ormpindexer.Base.BTreeMap.{BTreeMap, get, insert, retain, All-insert, Among-of_get}
use ormpindexer.Base.Action.{
  Ensures, Ensures-pure, Ensures-imp, Ensures-if, Ensures-then, Keeps, Keeps-pure, Keeps-if,
  Keeps-bind, Leaves,
}
use ormpindexer.Schema.Rows.{OrmpMessageAcceptedRow, OrmpMessageAssignedRow}
use ormpindexer.Schema.Assignments.{AssignmentConfig}
use ormpindexer.Database.{Tables, Engine, update}
use ormpindexer.Database.Inserts.{fresh}
use ormpindexer.Database.Backfill.{backfilled, backfill_tables, backfill_message_assignment}
use ormpindexer.Database.Effects.{
  for_each-Ensures, run_all, statements-Ensures, statement-Keeps, statement-Ensures, query-Ensures,
  query-Keeps, for_each-Keeps, transaction-Leaves, Committed,
}
use ormpindexer.Database.Writer.{upsert_checkpoint_tx, put_checkpoint}
use ormpindexer.Database.Store.{
  rolled_back, anchor_goes, signed_in, delete_signature_submittions, legacy_rollback_tables,
  cleared, without_anchors, recompute_accepted_assignments_tx, roll_back, rollback_legacy_from,
}

-- Everything but the accepted messages.
abbrev pub rest : Tables → Tables
rest t = record t { ormp_message_accepted = [] }

module _ (chain_id rollback_block : ℕ) where
  -- The row of an accepted message does not belong to what is rolled back.
  abbrev pub Remains : Text × OrmpMessageAcceptedRow → Type 0
  Remains e = not (rolled_back chain_id rollback_block e.1.chain_id e.1.block_number) ≡ true

  abbrev pub AllRemain : Tables → Type 0
  AllRemain t = All Remains t.ormp_message_accepted

  clear_row-Remains :
      (b : Bool) (e : Text × OrmpMessageAcceptedRow)
      → Remains e
      → Remains (e.0, if b then fresh e.1 else e.1)
  unfolding fresh
  clear_row-Remains true e h = h
  clear_row-Remains false e h = h

  clear-Remains :
      (msg_hashes : List Text) (m : BTreeMap Text OrmpMessageAcceptedRow)
      → All Remains m
      → All Remains
          (map (λ e. (e.0, if any (text_eq e.1.msg_hash) msg_hashes then fresh e.1 else e.1)) m)
  clear-Remains msg_hashes [] h = tt
  clear-Remains msg_hashes (e ∷ m) (p, h) =
      (clear_row-Remains (any (text_eq e.1.msg_hash) msg_hashes) e p, clear-Remains msg_hashes m h)

  update-Remains :
      (config : AssignmentConfig) (row : OrmpMessageAssignedRow)
      (m : BTreeMap Text OrmpMessageAcceptedRow)
      → All Remains m
      → All Remains (update row.msg_hash (backfilled config row) m)
  unfolding update backfilled
  update-Remains config row m h = elim (Option-cases (get row.msg_hash m)) [
    | inl absent ↦ rw (absent, update) h
    | inr (a, found) ↦
        rw (found, update)
          (All-insert Remains row.msg_hash (backfilled config row a) m
            (All-Among Remains (row.msg_hash, a) m h (Among-of_get row.msg_hash a m found)) h)
  ]

module _ (engine : Engine) (config : AssignmentConfig) (chain_id rollback_block : ℕ) where
  backfill-AllRemain :
      (row : OrmpMessageAssignedRow) (t : Tables)
      → AllRemain chain_id rollback_block t
      → Ensures
          (λ u t'. AllRemain chain_id rollback_block t')
          (backfill_message_assignment engine config row)
          t
  unfolding backfill_message_assignment
  backfill-AllRemain row t h =
      Ensures-if _ _ _ t (λ nothing. Ensures-pure tt t h)
        λ some_match.
          Ensures-imp
            (λ u t' put.
              rw put (update-Remains chain_id rollback_block config row t.ormp_message_accepted h))
            (statement-Ensures engine (backfill_tables config row) t)

  recompute-AllRemain :
      (msg_hashes : List Text) (t : Tables)
      → AllRemain chain_id rollback_block t
      → Ensures
          (λ u t'. AllRemain chain_id rollback_block t')
          (recompute_accepted_assignments_tx engine config msg_hashes)
          t
  unfolding recompute_accepted_assignments_tx cleared
  recompute-AllRemain msg_hashes t h =
      Ensures-if (is_empty msg_hashes) _ _ t (λ nothing. Ensures-pure tt t h)
        λ hashes. Ensures-then (statement-Ensures engine (cleared msg_hashes) t) λ u t₁ put.
          Ensures-then (query-Ensures engine _ t₁) λ assignments t₂ read.
            for_each-Ensures (AllRemain chain_id rollback_block)
              (backfill_message_assignment engine config) assignments t₂ backfill-AllRemain
              (rw (read.1, put)
                (clear-Remains chain_id rollback_block msg_hashes t.ormp_message_accepted h))

  recompute-Keeps :
      (msg_hashes : List Text)
      → Keeps rest (recompute_accepted_assignments_tx engine config msg_hashes)
  unfolding recompute_accepted_assignments_tx cleared backfill_message_assignment
  recompute-Keeps msg_hashes = Keeps-if _ _ _ (Keeps-pure tt) (
      Keeps-bind _ _ (statement-Keeps engine rest _ λ t. refl) λ u.
        Keeps-bind _ _ (query-Keeps engine rest _) λ assignments.
          for_each-Keeps rest _ assignments
            λ row. Keeps-if _ _ _ (Keeps-pure tt) (statement-Keeps engine rest _ λ t. refl))

  recompute_both :
      (msg_hashes : List Text) (t : Tables)
      → AllRemain chain_id rollback_block t
      → Ensures
          (λ u t'. AllRemain chain_id rollback_block t' × (rest t' ≡ rest t))
          (recompute_accepted_assignments_tx engine config msg_hashes)
          t
  recompute_both msg_hashes t h = record {
    holds = λ u done.
        ((recompute-AllRemain msg_hashes t h).holds u done, (recompute-Keeps msg_hashes).at t);
  }

  module _ (dataset : Text) where
    -- The tables but the accepted messages, without what is rolled back.
    abbrev pub without : Tables → Tables
    without t = record {
      ormp_hash_imported =
          filter (λ e. not (rolled_back chain_id rollback_block e.1.chain_id e.1.block_number))
            t.ormp_hash_imported;
      ormp_message_accepted = [];
      ormp_message_assigned =
          filter (λ e. not (rolled_back chain_id rollback_block e.1.chain_id e.1.block_number))
            t.ormp_message_assigned;
      ormp_message_dispatched =
          filter (λ e. not (rolled_back chain_id rollback_block e.1.chain_id e.1.block_number))
            t.ormp_message_dispatched;
      msgport_message_recv =
          filter (λ e. not (rolled_back chain_id rollback_block e.1.chain_id e.1.block_number))
            t.msgport_message_recv;
      msgport_message_sent =
          filter (λ e. not (rolled_back chain_id rollback_block e.1.chain_id e.1.block_number))
            t.msgport_message_sent;
      signature_pub_signature_submittion =
          filter (λ e. not (rolled_back chain_id rollback_block e.1.chain_id e.1.block_number))
            (filter
              (λ e.
                not
                  (any (signed_in chain_id dataset rollback_block e.1) t.ormp_indexer_block_anchor))
              t.signature_pub_signature_submittion);
      ormp_indexer_checkpoint = insert (chain_id, dataset) rollback_block t.ormp_indexer_checkpoint;
      ormp_indexer_block_anchor =
          retain (λ k. not (anchor_goes chain_id dataset rollback_block k))
            t.ormp_indexer_block_anchor;
    }

    abbrev end_of_roll_back : Tables → Tables
    end_of_roll_back t =
        put_checkpoint engine chain_id dataset rollback_block
          (without_anchors chain_id dataset rollback_block t)

    swept-AllRemain :
        (t : Tables)
        → AllRemain chain_id rollback_block
            (run_all (legacy_rollback_tables chain_id rollback_block) t)
    unfolding legacy_rollback_tables
    swept-AllRemain t =
        filter-passes (λ e. not (rolled_back chain_id rollback_block e.1.chain_id e.1.block_number))
          t.ormp_message_accepted

    roll_back-Ensures :
        (t : Tables)
        → Ensures
            (λ u t'. (rest t' ≡ without t) × AllRemain chain_id rollback_block t')
            (roll_back engine config chain_id dataset rollback_block)
            t
    unfolding roll_back upsert_checkpoint_tx without_anchors legacy_rollback_tables
        delete_signature_submittions
    roll_back-Ensures t =
        let sweep = run_all (legacy_rollback_tables chain_id rollback_block) in
        let sign = delete_signature_submittions chain_id dataset rollback_block in
        Ensures-then (query-Ensures engine _ t) λ hashes t₀ asked.
          Ensures-then (statement-Ensures engine _ t₀) λ u t₁ signed.
            Ensures-then (statements-Ensures engine _ t₁) λ v t₂ swept.
              let remain : AllRemain chain_id rollback_block t₂ = rw swept (swept-AllRemain t₁) in
              Ensures-then (recompute_both hashes t₂ remain) λ x t₃ computed.
                Ensures-then (statement-Ensures engine _ t₃) λ y t₄ unanchored.
                  Ensures-imp
                    (λ z t₅ moved. (
                      ap rest moved
                          ∙ ap (λ s. rest (put_checkpoint engine chain_id dataset rollback_block s))
                              unanchored
                          ∙ ap end_of_roll_back computed.1
                          ∙ ap (λ s. end_of_roll_back (rest s)) swept
                          ∙ ap (λ s. end_of_roll_back (rest (sweep s))) signed
                          ∙ ap (λ s. end_of_roll_back (rest (sweep (sign s)))) asked.1,
                      (let kept : AllRemain chain_id rollback_block t₄ = rw unanchored computed.0 in
                          rw moved kept),
                    ))
                    (statement-Ensures engine _ t₄)

    pub rollback_legacy_from_outcome :
        (t : Tables)
        → Leaves
            (Committed engine
              (λ u t'. (rest t' ≡ without t) × AllRemain chain_id rollback_block t')
              t)
            (rollback_legacy_from engine config chain_id dataset rollback_block)
            t
    unfolding rollback_legacy_from
    rollback_legacy_from_outcome t = transaction-Leaves engine _ _ t (roll_back-Ensures t)
