-- ===== src/Runner/Pass/Total.antt =====
-- The end of the loop of a pass, `run_chain_once` (src/runner.rs).
use ormpindexer.Base.{
  ℕ, zero, suc, ◌+◌, ◌-◌, ◌≤◌, ◌<◌, min, ◌≡◌, refl, ◌⊎◌, inl, inr, Bool, true, false, not, ◌&&◌,
  Bool-cases, some, Text, Result, ok, err, Result-cases, arith, leb, ltb,
}
use ormpindexer.Base.Action.{Ensures, Ensures-bind, Ensures-imp}
use ormpindexer.Config.Types.{ChainConfig}
use ormpindexer.Checkpoint.{BlockRange}
use ormpindexer.Checkpoint.Plan.{plan_next_range_ok}
use ormpindexer.Runner.Interfaces.{IndexerRunner}
use ormpindexer.Runner.Range.{ProcessedRangeReport, process_range}
use ormpindexer.Runner.Range.Outcome.{process_range_outcome}
use ormpindexer.Runner.Pass.{
  ChainRunReport, run_range, run_ranges, add_range, no_report, finish, finish_result, continue_pass,
  begin_pass, run_chain_once,
}

-- A round from `next` has stopped the pass, or has moved on.
abbrev pub MovesOn : ℕ → ℕ → ProcessedRangeReport → Type 0
MovesOn next target report =
    ((report.stop_poll ≡ true) ⊎ (next < report.next_block)) × (report.next_block ≤ target + 1)

module _ {W : Type 0} (runner : IndexerRunner W) (chain : ChainConfig) (dataset : Text) where
  process_range_moves :
      (range : BlockRange) (target : ℕ) (w : W)
      → range.from_block ≤ range.to_block
      → range.to_block ≤ target
      → Ensures
          (λ report w'. MovesOn range.from_block target report)
          (process_range runner chain dataset range)
          w
  process_range_moves range target w h k =
      Ensures-imp
        (λ report w' outcome. elim outcome.2 [
          | inl nothing ↦ let waits = nothing.waits in ground arith
          | inr served ↦ elim served.outcome [
            | inl waits ↦ let waits = waits.waits in ground arith
            | inr written ↦ let next = written.next in let stop = written.stop in ground arith
          ]
        ])
        (process_range_outcome runner chain dataset range w)

  pub run_range_moves :
      (target next : ℕ) (w : W)
      → next ≤ target
      → Ensures
          (λ report w'. MovesOn next target report)
          (run_range runner chain dataset target next)
          w
  unfolding run_range
  run_range_moves target next w h = Ensures-bind _ _ w λ range planned.
      let (start, size, forward, bound) =
        plan_next_range_ok
          (record { chain_id = chain.chain_id; dataset = dataset; next_block = next })
          chain.batch_size range planned in
      Ensures-imp (λ report w' moved. ground (arith, moved, start))
        (process_range_moves (record range { to_block = min range.to_block target }) target w
          (omega arith) (omega arith))

  -- With fuel for the blocks that are left, the loop ends: in a report or in a failure.
  pub run_ranges_total :
      (fuel target next : ℕ) (report : ChainRunReport) (stop : Bool) (w : W)
      → 0 < fuel
      → (stop ≡ true) ⊎ (target + 1 < next + fuel)
      → (r : Result ChainRunReport) × (w' : W) × (run_ranges runner chain dataset fuel target next
            report stop w
          ≡ (some r, w'))
  unfolding run_ranges
  run_ranges_total zero target next report stop w pos enough = absurd (omega arith)
  run_ranges_total (suc fuel) target next report stop w pos enough =
      elim (Bool-cases (leb next target && not stop)) [
        | inr over ↦ (ok report, w, rw over)
        | inl more ↦ elim (Result-cases (run_range runner chain dataset target next w).0) [
          | inr (e, failed) ↦
              (err e, (run_range runner chain dataset target next w).1, rw (more, failed))
          | inl (found, done) ↦
              let inside : next ≤ target = ground arith in
              let (moved, bound) = (run_range_moves target next w inside).holds found done in
              let (r, w', returns) =
                run_ranges_total fuel target found.next_block (add_range report found)
                  found.stop_poll (run_range runner chain dataset target next w).1 (ground arith)
                  (ground arith) in
              (r, w', rw (more, done) returns)
        ]
      ]

module _ {W : Type 0} (runner : IndexerRunner W) (chain : ChainConfig) where
  finish_total :
      (r : Result ChainRunReport)
      → (r' : Result ChainRunReport) × (finish_result (some r) ≡ some r')
  finish_total (ok report) = (ok (finish report), refl)
  finish_total (err e) = (err e, refl)

  continue_pass_total :
      (dataset : Text) (next target : ℕ) (w : W)
      → (r : Result ChainRunReport) × (w' : W) × (continue_pass runner chain dataset next target w
          ≡ (some r, w'))
  unfolding continue_pass
  continue_pass_total dataset next target w = elim (Bool-cases (ltb target next)) [
    | inl ahead ↦ (ok (record no_report { caught_up = true }), w, rw ahead)
    | inr behind ↦
        let (r, w', returns) =
          run_ranges_total runner chain dataset (suc (suc (target - next))) target next no_report
            false w (omega arith) (inr (ground arith)) in
        let (r', done) = finish_total r in (r', w', rw (behind, returns, done))
  ]

  -- Whatever the service, the store, the decoder and the writer answer, one pass over a chain ends,
  -- in a report or in a failure: its loop never runs out of the rounds that it is given.
  pub run_chain_once_total :
      (w : W)
      → (r : Result ChainRunReport) × (w' : W) × (run_chain_once runner chain w ≡ (some r, w'))
  unfolding run_chain_once
  run_chain_once_total w = elim (Result-cases (begin_pass runner chain w).0) [
    | inr (e, failed) ↦ (err e, (begin_pass runner chain w).1, rw (failed, run_chain_once))
    | inl ((dataset, next, target), begun) ↦
        let (r, w', returns) =
          continue_pass_total dataset next target (begin_pass runner chain w).1 in
        (r, w', rw (begun, run_chain_once) returns)
  ]
