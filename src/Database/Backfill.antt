-- ===== src/Database/Backfill.antt =====
-- How assignments reach the accepted messages (`backfill_message_assignment`,
-- `backfill_accepted_assignment` of src/database.rs).
pub mod Agrees
use Prim.Native.Nat.Ordering.{lt, eq, gt}
use ormpindexer.Base.{
  ℕ, Bool, true, not, ◌&&◌, ◌||◌, some, List, [], ◌∷◌, Text, text_eq, eq_ignore_ascii_case, any,
  filter, leb, ◌==◌, if◌then◌else◌,
}
use ormpindexer.Base.Order.{nat_order, text_order, pair_order, pair_cmp}
use ormpindexer.Base.BTreeMap.{values}
use ormpindexer.Base.Action.{Action, ◌>>=◌, pure}
use ormpindexer.Schema.Rows.{OrmpMessageAcceptedRow, OrmpMessageAssignedRow}
use ormpindexer.Schema.Assignments.{
  AssignmentConfig, legacy_b49e_oracle, legacy_b49e_oracle_from_block,
  legacy_b49e_darwinia_from_block, legacy_b49e_arbitrum_from_block, accepted_oracle_value,
}
use ormpindexer.Database.{Tables, Engine, statement, query, for_each, update}

-- `contains_address` of src/database.rs, which does not lower the candidate.
unfoldable pub has_address : List Text → Text → Bool
has_address addresses candidate = any (λ address. eq_ignore_ascii_case address candidate) addresses

-- The condition `$8 AND (…)` of the statement, without `$8`.
unfoldable pub case_b49e : OrmpMessageAcceptedRow → Bool
case_b49e row =
    (row.chain_id == 1
      && (row.from_chain_id == 1
          && (row.to_chain_id == 46 && leb legacy_b49e_oracle_from_block row.block_number)))
    || ((row.chain_id == 46
          && (row.from_chain_id == 46 && leb legacy_b49e_darwinia_from_block row.block_number))
        || (row.chain_id == 42161
            && (row.from_chain_id == 42161
                && leb legacy_b49e_arbitrum_from_block row.block_number)))

module _ (config : AssignmentConfig) (row : OrmpMessageAssignedRow) where
  abbrev pub legacy_b49e_oracle_match : Bool
  legacy_b49e_oracle_match = eq_ignore_ascii_case row.oracle legacy_b49e_oracle

  abbrev pub oracle_match : Bool
  oracle_match = has_address config.oracle_addresses row.oracle && not legacy_b49e_oracle_match

  abbrev pub relayer_match : Bool
  relayer_match = has_address config.relayer_addresses row.relayer

  -- The `SET` part of the statement on the row that it updates.
  unfoldable pub backfilled : OrmpMessageAcceptedRow → OrmpMessageAcceptedRow
  backfilled accepted =
      let takes_oracle = oracle_match || (legacy_b49e_oracle_match && case_b49e accepted) in
      record accepted {
        oracle =
            if takes_oracle
            then some (accepted_oracle_value row.msg_hash row.oracle)
            else accepted.oracle;
        oracle_assigned = if takes_oracle then some true else accepted.oracle_assigned;
        oracle_assigned_fee =
            if takes_oracle then some row.oracle_fee else accepted.oracle_assigned_fee;
        relayer = if relayer_match then some row.relayer else accepted.relayer;
        relayer_assigned = if relayer_match then some true else accepted.relayer_assigned;
        relayer_assigned_fee =
            if relayer_match then some row.relayer_fee else accepted.relayer_assigned_fee;
      }

  abbrev pub backfill_tables : Tables → Tables
  backfill_tables t = record t {
    ormp_message_accepted = update row.msg_hash backfilled t.ormp_message_accepted;
  }

-- `ORDER BY block_number ASC, id ASC`. The ids are compared by their bytes, as the
-- collation C does.
abbrev place : OrmpMessageAssignedRow → List OrmpMessageAssignedRow → List OrmpMessageAssignedRow
place row [] = row ∷ []
place row (next ∷ rows) = elim (pair_cmp (row.block_number, row.id) (next.block_number, next.id)) [
  | lt ↦ row ∷ next ∷ rows
  | eq ↦ row ∷ next ∷ rows
  | gt ↦ next ∷ place row rows
]

abbrev pub order_by_block : List OrmpMessageAssignedRow → List OrmpMessageAssignedRow
order_by_block [] = []
order_by_block (row ∷ rows) = place row (order_by_block rows)

-- The `SELECT` of the assignments of a message.
unfoldable pub assignments_of : Text → Tables → List OrmpMessageAssignedRow
assignments_of msg_hash t =
    order_by_block (filter (λ row. text_eq row.msg_hash msg_hash) (values t.ormp_message_assigned))

module _ (engine : Engine) (config : AssignmentConfig) where
  unfoldable pub backfill_message_assignment : OrmpMessageAssignedRow → Action Tables (Unit {0})
  backfill_message_assignment row =
      if not (oracle_match config row)
        && (not (legacy_b49e_oracle_match config row) && not (relayer_match config row))
      then pure tt
      else statement engine (backfill_tables config row)

  unfoldable pub backfill_accepted_assignment : OrmpMessageAcceptedRow → Action Tables (Unit {0})
  backfill_accepted_assignment row = do
    assignments ← query engine (assignments_of row.msg_hash)
    for_each (backfill_message_assignment) assignments
