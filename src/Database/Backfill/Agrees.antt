-- ===== src/Database/Backfill/Agrees.antt =====
-- The statement that backfills an accepted message (src/database.rs), and the rule
-- `apply_assignment_to_accepted` of src/schema/assignments.rs.
use ormpindexer.Base.{
  ◌∙◌, ◌≢◌, text_eq→≡, Option, none, some, Option-cases, ok, true, false, not, ◌&&◌, ◌≡◌, refl, sym,
  ap, List, [], ◌∷◌, Text, text_eq, text_eq_refl, eq_ignore_ascii_case_lower, arith, inl, inr,
  Bool-cases,
}
use ormpindexer.Base.Order.{text_order}
use ormpindexer.Base.BTreeMap.{BTreeMap, get, get-insert_self, get-insert_ne}
use ormpindexer.Database.{Tables, Engine, statement, update}
use ormpindexer.Schema.Rows.{OrmpMessageAcceptedRow, OrmpMessageAssignedRow}
use ormpindexer.Schema.Assignments.{
  AssignmentConfig, contains_address, legacy_b49e_from, is_oracle_assignment_for_accepted,
  apply_assignment_to_accepted, assign_oracle, assign_relayer,
}
use ormpindexer.Database.Backfill.{
  has_address, case_b49e, backfilled, backfill_message_assignment, backfill_tables, oracle_match,
  relayer_match, legacy_b49e_oracle_match,
}

-- The two tests of an address agree: one lowers the candidate before it compares, ignoring the case.
has_address-contains_address :
    (addresses : List Text) (candidate : Text)
    → has_address addresses candidate ≡ contains_address addresses candidate
unfolding has_address contains_address
has_address-contains_address [] candidate = refl
has_address-contains_address (a ∷ addresses) candidate =
    let same = eq_ignore_ascii_case_lower a candidate in
    let rest = has_address-contains_address addresses candidate in cc

module _ (config : AssignmentConfig) (assigned : OrmpMessageAssignedRow)
    (accepted : OrmpMessageAcceptedRow) where
  -- For an accepted message and an assignment of its hash: what the statement makes of the row is what
  -- the rule of the schema makes of it, also for the oracle with conditions of its own.
  pub backfilled-apply :
      accepted.id ≡ assigned.msg_hash
      → backfilled config assigned accepted
        ≡ (apply_assignment_to_accepted accepted assigned config).0
  unfolding backfilled apply_assignment_to_accepted is_oracle_assignment_for_accepted case_b49e
      legacy_b49e_from assign_oracle assign_relayer
  backfilled-apply same =
      let relayers = has_address-contains_address config.relayer_addresses assigned.relayer in
      let oracles = has_address-contains_address config.oracle_addresses assigned.oracle in
      let hit : text_eq accepted.id assigned.msg_hash ≡ true =
        rw same (text_eq_refl assigned.msg_hash) in
      rw (relayers, oracles, hit, ← same)
        (elim (Bool-cases (contains_address config.relayer_addresses assigned.relayer)) [
          | inl r ↦
              rw r (elim (Bool-cases (is_oracle_assignment_for_accepted accepted assigned config)) [
                | inl o ↦ rw o refl
                | inr o ↦ rw o refl
              ])
          | inr r ↦
              rw r (elim (Bool-cases (is_oracle_assignment_for_accepted accepted assigned config)) [
                | inl o ↦ rw o refl
                | inr o ↦ rw o refl
              ])
        ])

  -- Without a match of the addresses the rule changes nothing.
  no_match :
      accepted.id ≡ assigned.msg_hash
      → (not (oracle_match config assigned)
          && (not (legacy_b49e_oracle_match config assigned)
              && not (relayer_match config assigned)))
        ≡ true
      → (apply_assignment_to_accepted accepted assigned config).0 ≡ accepted
  unfolding backfilled
  no_match same none_match =
      let oracle : oracle_match config assigned ≡ false = ground arith in
      let legacy : legacy_b49e_oracle_match config assigned ≡ false = ground arith in
      let relayer : relayer_match config assigned ≡ false = ground arith in
      sym (backfilled-apply same) ∙ rw (oracle, legacy, relayer) refl

  -- An assignment of another message changes nothing.
  other_message :
      accepted.id ≢ assigned.msg_hash
      → (apply_assignment_to_accepted accepted assigned config).0 ≡ accepted
  unfolding apply_assignment_to_accepted
  other_message other = elim (Bool-cases (text_eq accepted.id assigned.msg_hash)) [
    | inl e ↦ absurd (other (text_eq→≡ accepted.id assigned.msg_hash e))
    | inr e ↦ rw e refl
  ]

-- A row of an `UPDATE`.
abbrev pub changed {ℓ} : {V : Type ℓ} → (V → V) → Option V → Option V
changed f none = none
changed f (some v) = some (f v)

module _ {V : Type 0} (j : Text) (f : V → V) (m : BTreeMap Text V) where
  get-update_self : get j (update j f m) ≡ changed f (get j m)
  unfolding update
  get-update_self = elim (Option-cases (get j m)) [
    | inl absent ↦ ground (arith, absent)
    | inr (v, found) ↦ rw (found, update) (get-insert_self j (f v) m)
  ]

  get-update_ne : (k : Text) → k ≢ j → get k (update j f m) ≡ get k m
  unfolding update
  get-update_ne k ne = elim (Option-cases (get j m)) [
    | inl absent ↦ rw (absent, update) refl
    | inr (v, found) ↦ rw (found, update) (get-insert_ne j k (f v) m ne)
  ]

-- Every accepted message stands under its own id.
abbrev pub IsFiled : Tables → Type 0
IsFiled t =
    (k : Text) (a : OrmpMessageAcceptedRow) → get k t.ormp_message_accepted ≡ some a → a.id ≡ k

module _ (engine : Engine) (config : AssignmentConfig) (row : OrmpMessageAssignedRow) (t : Tables)
    (filed : IsFiled t) where
  abbrev rule : OrmpMessageAcceptedRow → OrmpMessageAcceptedRow
  rule accepted = (apply_assignment_to_accepted accepted row config).0

  -- By whether the key is the message's.
  rule_keeps :
      (k : Text)
      → ((a : OrmpMessageAcceptedRow) → get k t.ormp_message_accepted ≡ some a → rule a ≡ a)
      → get k t.ormp_message_accepted ≡ changed rule (get k t.ormp_message_accepted)
  rule_keeps k same = elim (Option-cases (get k t.ormp_message_accepted)) [
    | inl absent ↦ rw absent refl
    | inr (a, found) ↦ rw found (sym (ap some (same a found)))
  ]

  statement_rule :
      (k : Text)
      → get k (update row.msg_hash (backfilled config row) t.ormp_message_accepted)
        ≡ changed rule (get k t.ormp_message_accepted)
  statement_rule k = elim (Bool-cases (text_eq k row.msg_hash)) [
    | inl e ↦
        let here : k ≡ row.msg_hash = text_eq→≡ k row.msg_hash e in
        rw here (
          get-update_self row.msg_hash (backfilled config row) t.ormp_message_accepted
          ∙ elim (Option-cases (get row.msg_hash t.ormp_message_accepted)) [
            | inl absent ↦ rw absent refl
            | inr (a, found) ↦
                rw found (ap some (backfilled-apply config row a (filed row.msg_hash a found)))
          ])
    | inr e ↦
        let away : k ≢ row.msg_hash = λ p. ground (arith, e, p, text_eq_refl row.msg_hash) in
        get-update_ne row.msg_hash (backfilled config row) t.ormp_message_accepted k away
        ∙ rule_keeps k
            (λ a found. other_message config row a (λ p. away (sym (filed k a found) ∙ p)))
  ]

  -- A backfill that succeeds, on tables in which every accepted message stands under its id, acts on
  -- every row of the accepted messages as `apply_assignment_to_accepted` does: the message of the
  -- assignment's hash takes the oracle and the relayer by the rule, every other row stays.
  pub backfill_message_assignment_lem :
      (t' : Tables)
      → backfill_message_assignment engine config row t ≡ (ok tt, t')
      → (k : Text) → get k t'.ormp_message_accepted ≡ changed rule (get k t.ormp_message_accepted)
  unfolding backfill_message_assignment statement
  backfill_message_assignment_lem t' done k =
      elim (Bool-cases (
        not (oracle_match config row)
        && (not (legacy_b49e_oracle_match config row) && not (relayer_match config row)))) [
          | inl nothing ↦
              let same : t ≡ t' = ap (λ p. p.1) (rw nothing at done) in
              rw (← same) (
                rule_keeps k λ a found. elim (Bool-cases (text_eq a.id row.msg_hash)) [
                  | inl e ↦ no_match config row a (text_eq→≡ a.id row.msg_hash e) nothing
                  | inr e ↦
                      other_message config row a
                        λ p. ground (arith, e, p, text_eq_refl row.msg_hash)
                ])
          | inr some_match ↦ elim (Option-cases (engine.refuses t)) [
            | inr (e, refused) ↦ absurd (ground (arith, some_match, refused, done))
            | inl accepts ↦
                let same : backfill_tables config row t ≡ t' =
                  ap (λ p. p.1) (rw (some_match, accepts, statement) at done) in
                rw (← same) (statement_rule k)
          ]
        ]
