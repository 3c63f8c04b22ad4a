-- ===== src/Runner/Tests.antt =====
-- A runner over the in-memory store, and the runner's theorems at concrete inputs.
use ormpindexer.Base.{
  ℕ, ◌+◌, ◌*◌, min, Option, List, ◌++◌, err, Error, ◌≤◌, max, ◌≡◌, refl, ◌⊎◌, none, some, [], ◌∷◌,
  map, Text, codes, Result, ok, arith, true, text_eq,
}
use ormpindexer.Base.Action.{◌>>=◌, pure}
use ormpindexer.Base.Order.{nat_order, text_order, pair_order}
use ormpindexer.Config.Types.{safe, ChainConfig, uses_reorg_protection}
use ormpindexer.Checkpoint.{BlockRange, BlockAnchor}
use ormpindexer.Checkpoint.InMemory.{
  read_block_anchors, rollback_legacy_from, InMemoryCheckpointStore, empty_store, in_memory,
  advance, upsert_block_anchors,
}
use ormpindexer.Checkpoint.InMemory.Reads.{recorded, start_of}
use ormpindexer.Datalens.Types.{DatalensBlock, DatalensLog, DatalensLogQueryResult, covers}
use ormpindexer.Runner.Interfaces.{DatalensLogReader, IndexerRunner, dry_run, write_then_advance}
use ormpindexer.Runner.Anchors.{block_anchors_for_range, block_anchors_from_blocks, header_anchors}
use mathlib.Core.List.Perm
use ormpindexer.Runner.Anchors.{blocks_by_number}
use ormpindexer.Runner.Anchors.Exact.{ExactOrMissing, block_anchors_from_blocks_exact}
use ormpindexer.Runner.Reports.{RunnerReport, no_totals, failure_backoff, collect_reports}
use ormpindexer.Runner.Reports.Backoff.{failure_backoff_lem}
use ormpindexer.Runner.Reports.Totals.{collect_reports_lem}
use ormpindexer.Runner.Range.{
  process_served, write_served, write_found, decode_logs, ProcessedRangeReport,
  process_successful_range,
}
use ormpindexer.Runner.Range.Outcome.{NotServed, Served, process_successful_range_outcome}
use ormpindexer.Runner.Pass.{
  check_below, check_window, compare_window, roll_back_to, find_block, is_reorged, ChainRunReport,
  no_report, run_chain_once, rollback_reorged_anchors,
}
use ormpindexer.Runner.Pass.Total.{run_chain_once_total}
use ormpindexer.Runner.Pass.Reorg.{Window, rollback_reorged_anchors_checked}

abbrev logs : Text
logs = codes "evm.logs"

abbrev header : ℕ → DatalensBlock
header n = record { chain_id = 1; block_number = n; block_hash = n ∷ []; parent_hash = none }

abbrev log_at : ℕ → DatalensLog
log_at n = record {
  id = none;
  chain_id = 1;
  block_number = n;
  block_hash = some (n ∷ []);
  parent_hash = none;
  block_timestamp = none;
  transaction_hash = [];
  transaction_index = none;
  log_index = 0;
  address = [];
  transaction_from = none;
  topics = [];
  payload = [];
}

-- A service that serves every block and log that it is asked for, with the head at block 12 and the
-- finalized head at block 3.
abbrev serving : DatalensLogReader InMemoryCheckpointStore
serving = record {
  latest_block = λ c f. pure 12;
  finalized_head = λ c. pure 3;
  query_blocks = λ q. pure (record {
    blocks = map header (4 ∷ 5 ∷ 6 ∷ 7 ∷ 8 ∷ 9 ∷ 10 ∷ 11 ∷ 12 ∷ []);
    served_start = some q.from_block;
    served_end = some q.to_block;
    incomplete_reason = none;
  });
  query_logs = λ q. pure (record {
    logs = log_at q.from_block ∷ [];
    served_start = some q.from_block;
    served_end = some (max q.from_block q.to_block);
    incomplete_reason = none;
  });
}

abbrev demo : IndexerRunner InMemoryCheckpointStore
demo = record {
  head_buffer_blocks = 2;
  reorg_window_blocks = 4;
  reader = serving;
  checkpoints = in_memory;
  decoder = record { decode = λ log. pure [] };
  writer = dry_run;
}

abbrev chain : ChainConfig
chain = record {
  chain_id = 1;
  start_block = 4;
  batch_size = 4;
  contracts = [] ∷ [];
  topics = [] ∷ [];
  finality_mode = safe;
}

abbrev range : BlockRange
range = record { from_block = 4; to_block = 7 }

abbrev answer : DatalensLogQueryResult
answer = record {
  logs = log_at 5 ∷ [];
  served_start = some 4;
  served_end = some 6;
  incomplete_reason = none;
}

-- The service has served up to block 6, and the pass stops there.
abbrev report : ProcessedRangeReport
report = record {
  next_block = 7;
  ranges_queried = 1;
  records_read = 1;
  records_decoded = 0;
  records_written = 0;
  checkpoints_advanced = 1;
  stop_poll = true;
}

served_range : (process_successful_range demo chain logs range answer empty_store).0 ≡ ok report
unfolding process_successful_range process_served write_served write_found decode_logs
    block_anchors_for_range block_anchors_from_blocks header_anchors uses_reorg_protection covers
    write_then_advance advance upsert_block_anchors ◌>>=◌
served_range = refl

process_successful_range_outcome_example :
    let w' = (process_successful_range demo chain logs range answer empty_store).1 in
    NotServed demo chain logs range answer empty_store report w'
    ⊎ Served demo chain logs range answer empty_store report w'
process_successful_range_outcome_example =
    process_successful_range_outcome demo chain logs range answer empty_store report served_range

-- The anchor of block 6 is no longer what the chain has.
abbrev anchor : ℕ → Text → BlockAnchor
anchor n hash = record {
  chain_id = 1;
  dataset = logs;
  block_number = n;
  block_hash = hash;
  parent_hash = none;
  finality = safe;
}

abbrev stale : InMemoryCheckpointStore
stale = record {
  checkpoints = ((1, logs), 8) ∷ [];
  anchors =
      ((1, (logs, 4)), anchor 4 (4 ∷ []))
      ∷ ((1, (logs, 5)), anchor 5 (5 ∷ []))
      ∷ ((1, (logs, 6)), anchor 6 (66 ∷ []))
      ∷ ((1, (logs, 7)), anchor 7 (7 ∷ []))
      ∷ [];
}

rolls_back : (rollback_reorged_anchors demo chain logs 8 stale).0 ≡ ok (some 6)
unfolding rollback_reorged_anchors check_below check_window compare_window roll_back_to find_block
    is_reorged covers read_block_anchors rollback_legacy_from advance text_eq ◌>>=◌
rolls_back = refl

rollback_reorged_anchors_checked_example :
    let w' = (rollback_reorged_anchors demo chain logs 8 stale).1 in
    (◌≡◌ {A = ℕ} 8 0 × ◌≡◌ {A = Option ℕ} (some 6) none × (w' ≡ stale))
    ⊎ Window demo chain logs 8 stale (some 6) w'
rollback_reorged_anchors_checked_example =
    rollback_reorged_anchors_checked demo chain logs 8 stale (some 6) rolls_back

run_chain_once_total_example :
    (r : Result ChainRunReport) × (w' : InMemoryCheckpointStore) × (run_chain_once demo chain stale
      ≡ (some r, w'))
run_chain_once_total_example = run_chain_once_total demo chain stale

abbrev next_of : InMemoryCheckpointStore → ℕ
next_of s = start_of (recorded 1 logs s) 0

abbrev two_headers : List DatalensBlock
two_headers = header 6 ∷ header 5 ∷ []

block_anchors_from_blocks_exact_example :
    ExactOrMissing 1 logs safe
      (blocks_by_number two_headers)
      2
      5
      (block_anchors_from_blocks 1 logs safe (record { from_block = 5; to_block = 6 }) two_headers)
block_anchors_from_blocks_exact_example =
    block_anchors_from_blocks_exact 1 logs safe (record { from_block = 5; to_block = 6 })
      two_headers

failure_backoff_lem_example :
    (1 ≤ failure_backoff 3000 2)
    × (failure_backoff 3000 2 ≤ 60000)
    × (min 3000 60000 ≤ failure_backoff 3000 2)
    × (failure_backoff 3000 1 ≡ min (max 3000 1) 60000)
    × (((2 ≤ 10) × (failure_backoff 3000 (2 + 1) ≡ min (2 * failure_backoff 3000 2) 60000))
        ⊎ ((11 ≤ 2) × (failure_backoff 3000 (2 + 1) ≡ failure_backoff 3000 2)))
failure_backoff_lem_example = failure_backoff_lem 3000 2 (omega arith)

abbrev one_range : ChainRunReport
one_range = record no_report { chains_processed = 1; ranges_queried = 1; records_read = 5 }

abbrev in_order : List ChainRunReport
in_order = one_range ∷ no_report ∷ []

abbrev other_order : List ChainRunReport
other_order = no_report ∷ one_range ∷ []

collect_reports_lem_example :
    ((totals : RunnerReport) × (collect_reports no_totals (map ok in_order) ≡ ok totals)
      × (collect_reports no_totals (map ok other_order) ≡ ok totals))
    × ((e : Error) (rest : List (Result ChainRunReport))
        → collect_reports no_totals (map ok in_order ++ err e ∷ rest) ≡ err e)
collect_reports_lem_example =
    collect_reports_lem in_order other_order (Perm.swap no_report one_range [])
