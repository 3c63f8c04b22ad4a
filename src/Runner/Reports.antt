-- ===== src/Runner/Reports.antt =====
-- The reports of passes, and what the loops do with them (`RunnerReport::add_chain_report`,
-- `run_once`, `run_chain_loop`, `batch_progress`, `should_sleep_after_report`, `failure_backoff` of
-- src/runner.rs).
pub mod Backoff
pub mod Totals
use ormpindexer.Base.{
  ℕ, ◌+◌, ◌-◌, ◌*◌, ◌%◌, ◌^◌, min, max, Bool, ◌||◌, List, [], ◌∷◌, Result, ok, err, ltb, ◌==◌,
  if◌then◌else◌, u64_max, u128_max, wrapping_add, saturating_add,
}
use ormpindexer.Checkpoint.{BlockRange}
use ormpindexer.Runner.Pass.{ChainRunReport}

pub record RunnerReport : Type 0 where
  pub chains_processed : ℕ
  pub ranges_queried : ℕ
  pub records_read : ℕ
  pub records_decoded : ℕ
  pub records_written : ℕ
  pub checkpoints_advanced : ℕ

-- `RunnerReport::default()`
abbrev pub no_totals : RunnerReport
no_totals = record {
  chains_processed = 0;
  ranges_queried = 0;
  records_read = 0;
  records_decoded = 0;
  records_written = 0;
  checkpoints_advanced = 0;
}

unfoldable pub add_chain_report : RunnerReport → ChainRunReport → RunnerReport
add_chain_report report chain_report = record {
  chains_processed = wrapping_add report.chains_processed chain_report.chains_processed;
  ranges_queried = wrapping_add report.ranges_queried chain_report.ranges_queried;
  records_read = wrapping_add report.records_read chain_report.records_read;
  records_decoded = wrapping_add report.records_decoded chain_report.records_decoded;
  records_written = wrapping_add report.records_written chain_report.records_written;
  checkpoints_advanced = wrapping_add report.checkpoints_advanced chain_report.checkpoints_advanced;
}

-- The loop of `run_once` over the results of the chains, in the order in which the chains end: the
-- first failure is returned at once.
unfoldable pub collect_reports : RunnerReport → List (Result ChainRunReport) → Result RunnerReport
collect_reports report [] = ok report
collect_reports report (err e ∷ results) = err e
collect_reports report (ok chain_report ∷ results) =
    collect_reports (add_chain_report report chain_report) results

-- `should_sleep_after_run`, the trait's own body and that of `ChainRunReport`.
abbrev runner_should_sleep : RunnerReport → Bool
runner_should_sleep report = report.ranges_queried == 0

unfoldable pub should_sleep_after_report : ChainRunReport → Bool
should_sleep_after_report report = report.caught_up || (report.ranges_queried == 0)

-- A `Duration` in whole milliseconds.
unfoldable pub failure_backoff : ℕ → ℕ → ℕ
failure_backoff poll_interval consecutive_failures =
    let multiplier = 2 ^ min (consecutive_failures - 1) 10 in
    let millis = min (max poll_interval 1 * multiplier) u128_max in min millis 60000 % 2 ^ 64

-- How long a chain's loop sleeps behind a pass, and how many passes in a row have failed then.
pub record Pause : Type 0 where
  pub consecutive_failures : ℕ
  pub sleeps : ℕ

unfoldable pub after_pass : ℕ → ℕ → Result ChainRunReport → Pause
after_pass poll_interval consecutive_failures (ok report) = record {
  consecutive_failures = 0;
  sleeps = if should_sleep_after_report report then poll_interval else 0;
}
after_pass poll_interval consecutive_failures (err e) =
    let failures = wrapping_add consecutive_failures 1 in
    record { consecutive_failures = failures; sleeps = failure_backoff poll_interval failures }

-- `run_chain_loop` over the results of its passes, the first one first.
unfoldable pub run_chain_loop : ℕ → ℕ → List (Result ChainRunReport) → List Pause
run_chain_loop poll_interval consecutive_failures [] = []
run_chain_loop poll_interval consecutive_failures (result ∷ results) =
    let pause = after_pass poll_interval consecutive_failures result in
    pause ∷ run_chain_loop poll_interval pause.consecutive_failures results

-- The counts of `BatchProgress`. Its rate and its estimate are floating-point numbers for the log.
pub record BatchProgress : Type 0 where
  pub batch_blocks : ℕ
  pub remaining_blocks : ℕ

unfoldable pub batch_progress : BlockRange → ℕ → ℕ → BatchProgress
batch_progress range target_block next_block = record {
  batch_blocks = saturating_add (range.to_block - range.from_block) 1;
  remaining_blocks =
      if ltb target_block next_block then 0 else saturating_add (target_block - next_block) 1;
}
