-- ===== src/Runner/Range/Outcome.antt =====
-- What a range that was processed without a failure has done.
use ormpindexer.Base.{
  ℕ, ◌+◌, min, ◌≡◌, refl, ◌⊎◌, inl, inr, not, ◌||◌, Option, none, some, List, Text, Result, ok,
  arith, ltb, length, ◌==◌, context, ensure, Error,
}
use ormpindexer.Base.Action.{Ensures, Ensures-pure, Ensures-imp, Ensures-bind}
use ormpindexer.Config.Types.{ChainConfig}
use ormpindexer.Checkpoint.{BlockRange, BlockAnchor}
use ormpindexer.Datalens.Types.{DatalensLogQueryResult, is_none}
use ormpindexer.Schema.Types.{LegacyEvent}
use ormpindexer.Runner.Interfaces.{IndexerRunner}
use ormpindexer.Runner.Anchors.{block_anchors_for_range}
use ormpindexer.Runner.Range.{
  ProcessedRangeReport, waiting, decode_logs, query_range_once, write_found, write_served,
  process_served, process_successful_range, process_range,
}

module _ {W : Type 0} (runner : IndexerRunner W) (chain : ChainConfig) (dataset : Text)
    (range : BlockRange) where
  -- What is called for the answer of the service from the state `start` on, up to `served_end`.
  module _ (served_end : ℕ) (result : DatalensLogQueryResult) (start : W) where
    abbrev decoding : Result (List LegacyEvent) × W
    decoding = decode_logs runner chain dataset range result.logs start

    abbrev anchoring : Result (Option (List BlockAnchor)) × W
    anchoring =
        block_anchors_for_range runner chain dataset
          (record { from_block = range.from_block; to_block = served_end }) result.logs decoding.1

    -- The range was decoded and written: the state is what the one call of the writer leaves, and
    -- that call has the events, the anchors and the next block of the report.
    pub record Written (report : ProcessedRangeReport) (w' : W) : Type 0 where
      pub events : List LegacyEvent
      pub decodes : decoding.0 ≡ ok events
      pub anchors : List BlockAnchor
      pub finds : anchoring.0 ≡ ok (some anchors)
      pub call :
          runner.writer.write_events_and_advance_checkpoint runner.checkpoints events anchors
            chain.chain_id dataset
            (served_end + 1)
            anchoring.1
          ≡ (ok report.records_written, w')
      pub next : report.next_block ≡ served_end + 1
      pub stop :
          report.stop_poll
          ≡ (not (is_none result.incomplete_reason) || ltb served_end range.to_block)
      pub read : report.records_read ≡ length result.logs
      pub decoded : report.records_decoded ≡ length events
      pub advanced : report.checkpoints_advanced ≡ 1
      pub queried : report.ranges_queried ≡ 1

    -- The range waits: its headers are not all served, and the writer is not called.
    pub record Waits (report : ProcessedRangeReport) (w' : W) : Type 0 where
      pub missing : anchoring.0 ≡ ok none
      pub state : w' ≡ anchoring.1
      pub waits : report ≡ waiting range (length result.logs)

    abbrev Outcome : ProcessedRangeReport → W → Type 0
    Outcome report w' = Waits report w' ⊎ Written report w'

    write_found-Outcome :
        (events : List LegacyEvent) (next_block : ℕ) (found : Option (List BlockAnchor))
        → decoding.0 ≡ ok events
        → anchoring.0 ≡ ok found
        → next_block ≡ served_end + 1
        → Ensures Outcome
            (write_found runner chain dataset range served_end result events next_block found)
            anchoring.1
    unfolding write_found
    write_found-Outcome events next_block none d a fits =
        Ensures-pure _ _ (inl (record { missing = a; state = refl; waits = refl }))
    write_found-Outcome events next_block (some anchors) d a fits =
        Ensures-bind _ _ _ λ written called. Ensures-pure _ _ (
          inr (record {
            events = events;
            decodes = d;
            anchors = anchors;
            finds = a;
            call = ground (arith, called, fits);
            next = fits;
            stop = refl;
            read = refl;
            decoded = refl;
            advanced = refl;
            queried = refl;
          }))

    write_served-Outcome :
        Ensures Outcome (write_served runner chain dataset range served_end result) start
    unfolding write_served
    write_served-Outcome = Ensures-bind _ _ start λ events d. Ensures-bind _ _ _ λ next_block fits.
        Ensures-bind _ _ _
          λ found a. write_found-Outcome events next_block found d a (ground (arith, fits))

  -- The service said that it served from the range's first block up to `end` or further.
  pub record Served (result : DatalensLogQueryResult) (w : W) (report : ProcessedRangeReport)
      (w' : W) : Type 0 where
    pub end : ℕ
    pub served_start : result.served_start ≡ some range.from_block
    pub served_end : result.served_end ≡ some end
    pub outcome : Outcome (min end range.to_block) result w report w'

  -- The service served nothing: the range waits, and nothing else is called.
  pub record NotServed (result : DatalensLogQueryResult) (w : W) (report : ProcessedRangeReport)
      (w' : W) : Type 0 where
    pub nothing : result.served_end ≡ none
    pub state : w' ≡ w
    pub waits : report ≡ waiting range (length result.logs)

  served_first :
      (start : Option ℕ) {n : ℕ} {u : Unit {0}}
      → context start Error.served_end_without_start ≡ ok n
      → ensure (n == range.from_block) Error.served_start_mismatch ≡ ok u
      → start ≡ some range.from_block
  served_first start h k = ground arith

  process_served_outcome :
      (served_end : Option ℕ) (result : DatalensLogQueryResult) (w : W)
      → result.served_end ≡ served_end
      → Ensures
          (λ report w'. NotServed result w report w' ⊎ Served result w report w')
          (process_served runner chain dataset range served_end result)
          w
  unfolding process_served
  process_served_outcome none result w e =
      Ensures-pure _ _ (inl (record { nothing = e; state = refl; waits = refl }))
  process_served_outcome (some end) result w e = Ensures-bind _ _ w λ start known.
      Ensures-bind _ _ _ λ u first.
        Ensures-imp
          (λ report w' outcome. inr (record {
            end = end;
            served_start = served_first result.served_start known first;
            served_end = e;
            outcome = outcome;
          }))
          (write_served-Outcome (min end range.to_block) result w)

  -- An answer that is processed without a failure: the service served nothing, then the range waits
  -- and nothing changes; or it served from the first block of the range on. Then its logs are decoded
  -- and the anchors of what was served are made. Without anchors the range waits. With them one call
  -- of the writer, the last thing done, is given exactly those events and anchors, and the block
  -- behind what was served and lies in the range as the new checkpoint and the report's next block.
  pub process_successful_range_outcome :
      (result : DatalensLogQueryResult) (w : W) (report : ProcessedRangeReport)
      → (process_successful_range runner chain dataset range result w).0 ≡ ok report
      → let w' = (process_successful_range runner chain dataset range result w).1 in
        NotServed result w report w' ⊎ Served result w report w'
  unfolding process_successful_range
  process_successful_range_outcome result w report h =
      (process_served_outcome result.served_end result w refl).holds report h

  -- The same, of a range that is queried and then processed.
  pub process_range_outcome :
      (w : W)
      → Ensures
          (λ report w'.
            (result : DatalensLogQueryResult) × ((query_range_once runner chain dataset range w).0
              ≡ ok result)
            × (let w₁ = (query_range_once runner chain dataset range w).1 in
                NotServed result w₁ report w' ⊎ Served result w₁ report w'))
          (process_range runner chain dataset range)
          w
  unfolding process_range process_successful_range
  process_range_outcome w = Ensures-bind _ _ w λ result answered.
      Ensures-imp (λ report w' outcome. (result, answered, outcome))
        (process_served_outcome result.served_end result _ refl)
