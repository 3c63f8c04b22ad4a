-- ===== src/Schema/Assignments.antt =====
-- Which assignments of an oracle and a relayer are entered into the accepted message
-- (src/schema/assignments.rs). An update in place returns the row with the flags of what was updated.
use ormpindexer.Base.{
  ℕ, Bool, true, false, not, ◌&&◌, ◌||◌, some, List, [], ◌∷◌, Text, codes, text_eq,
  eq_ignore_ascii_case, to_ascii_lowercase, any, leb, ◌==◌, if◌then◌else◌,
}
use ormpindexer.Schema.Rows.{OrmpMessageAcceptedRow, OrmpMessageAssignedRow}

abbrev pub address_relayer : List Text
address_relayer =
    codes "0x114890eb7386f94eae410186f20968bfaf66142a"
    ∷ codes "0xb607762f43f1a72593715497d4a7ddd754c62a6a"
    ∷ []

abbrev pub address_oracle : List Text
address_oracle =
    codes "0x8d8a2bd991c1d900c59a82a2eeb0df44e0671aab"
    ∷ codes "0x2cdc7178013de451ed99607ac15def6bab8c37e6"
    ∷ []

abbrev pub legacy_b49e_oracle : Text
legacy_b49e_oracle = codes "0xb49e82067a54b3e8c5d9db2f378fdb6892c04d2e"

abbrev pub legacy_b49e_oracle_from_block : ℕ
legacy_b49e_oracle_from_block = 22_474_070

abbrev pub legacy_b49e_darwinia_from_block : ℕ
legacy_b49e_darwinia_from_block = 6_634_860

abbrev pub legacy_b49e_arbitrum_from_block : ℕ
legacy_b49e_arbitrum_from_block = 334_644_126

abbrev pub legacy_mixed_case_accepted_id : Text
legacy_mixed_case_accepted_id =
    codes "0x5e6f833385d1a3041e8033e64c32c7c931104bc56881ef155fcb6032e87617df"

abbrev pub legacy_mixed_case_accepted_oracle : Text
legacy_mixed_case_accepted_oracle = codes "0x8d8a2Bd991c1d900C59a82a2EEb0DF44e0671aaB"

pub record AssignmentConfig : Type 0 where
  pub oracle_addresses : List Text
  pub relayer_addresses : List Text

abbrev pub legacy_defaults : AssignmentConfig
legacy_defaults = record { oracle_addresses = address_oracle; relayer_addresses = address_relayer }

pub record AssignmentUpdate : Type 0 where
  pub oracle : Bool
  pub relayer : Bool

unfoldable pub contains_address : List Text → Text → Bool
contains_address addresses candidate =
    let lowered = to_ascii_lowercase candidate in
    any (λ address. eq_ignore_ascii_case address lowered) addresses

unfoldable pub accepted_oracle_value : Text → Text → Text
accepted_oracle_value accepted_id oracle =
    if text_eq accepted_id legacy_mixed_case_accepted_id
      && eq_ignore_ascii_case oracle legacy_mixed_case_accepted_oracle
    then legacy_mixed_case_accepted_oracle
    else oracle

-- The chains and blocks from which the oracle 0xb49e… counts.
unfoldable pub legacy_b49e_from : OrmpMessageAcceptedRow → Bool
legacy_b49e_from accepted =
    (accepted.chain_id == 1
      && (accepted.from_chain_id == 1
          && (accepted.to_chain_id == 46
              && leb legacy_b49e_oracle_from_block accepted.block_number)))
    || ((accepted.chain_id == 46
          && (accepted.from_chain_id == 46
              && leb legacy_b49e_darwinia_from_block accepted.block_number))
        || (accepted.chain_id == 42161
            && (accepted.from_chain_id == 42161
                && leb legacy_b49e_arbitrum_from_block accepted.block_number)))

unfoldable pub is_oracle_assignment_for_accepted :
    OrmpMessageAcceptedRow → OrmpMessageAssignedRow → AssignmentConfig → Bool
is_oracle_assignment_for_accepted accepted assigned config =
    (contains_address config.oracle_addresses assigned.oracle
      && not (eq_ignore_ascii_case assigned.oracle legacy_b49e_oracle))
    || (eq_ignore_ascii_case assigned.oracle legacy_b49e_oracle && legacy_b49e_from accepted)

-- The two blocks of `apply_assignment_to_accepted` behind its test of the ids.
unfoldable pub assign_relayer :
    OrmpMessageAcceptedRow → OrmpMessageAssignedRow → OrmpMessageAcceptedRow
assign_relayer accepted assigned = record accepted {
  relayer = some assigned.relayer;
  relayer_assigned = some true;
  relayer_assigned_fee = some assigned.relayer_fee;
}

unfoldable pub assign_oracle :
    OrmpMessageAcceptedRow → OrmpMessageAssignedRow → OrmpMessageAcceptedRow
assign_oracle accepted assigned = record accepted {
  oracle = some (accepted_oracle_value accepted.id assigned.oracle);
  oracle_assigned = some true;
  oracle_assigned_fee = some assigned.oracle_fee;
}

unfoldable pub apply_assignment_to_accepted :
    OrmpMessageAcceptedRow
    → OrmpMessageAssignedRow
    → AssignmentConfig
    → OrmpMessageAcceptedRow × AssignmentUpdate
apply_assignment_to_accepted accepted assigned config =
    let relayer = contains_address config.relayer_addresses assigned.relayer in
    let accepted₁ = if relayer then assign_relayer accepted assigned else accepted in
    let oracle = is_oracle_assignment_for_accepted accepted₁ assigned config in
    let accepted₂ = if oracle then assign_oracle accepted₁ assigned else accepted₁ in
    if text_eq accepted.id assigned.msg_hash
    then (accepted₂, record { oracle = oracle; relayer = relayer })
    else (accepted, record { oracle = false; relayer = false })
