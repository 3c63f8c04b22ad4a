-- ===== src/Checkpoint/Plan.antt =====
-- The results of `plan_next_range` (src/checkpoint.rs).
use ormpindexer.Base.{ℕ, ◌+◌, ◌≤◌, ◌<◌, ◌≡◌, Result, ok, err, Error, arith, u64_max}
use ormpindexer.Checkpoint.{Checkpoint, BlockRange, plan_next_range}

-- What the result says of the checkpoint and the batch size.
abbrev pub Plans : ℕ → ℕ → Result BlockRange → Type 0
Plans next batch_size (ok range) =
    (range.from_block ≡ next)
    × (range.to_block + 1 ≡ range.from_block + batch_size)
    × (range.from_block ≤ range.to_block)
    × (range.to_block ≤ u64_max)
Plans next batch_size (err Error.batch_size_zero) = batch_size ≡ 0
Plans next batch_size (err Error.range_overflow) =
    (0 < batch_size) × (u64_max + 1 < next + batch_size)
Plans next batch_size (err _) = ⊥

-- For every checkpoint and batch size `plan_next_range` returns a range that starts at the
-- checkpoint, holds exactly `batch_size` blocks and ends at or below the largest `u64`; or it fails
-- for a batch size of zero; or it fails because such a range would end above the largest `u64`.
pub plan_next_range-Plans :
    (checkpoint : Checkpoint) (batch_size : ℕ)
    → Plans checkpoint.next_block batch_size (plan_next_range checkpoint batch_size)
unfolding plan_next_range
plan_next_range-Plans checkpoint batch_size = ground arith

-- Of a range that was planned: it starts at the checkpoint and is not empty.
pub plan_next_range_ok :
    (checkpoint : Checkpoint) (batch_size : ℕ) (range : BlockRange)
    → plan_next_range checkpoint batch_size ≡ ok range
    → Plans checkpoint.next_block batch_size (ok range)
plan_next_range_ok checkpoint batch_size range e =
    rw e at (plan_next_range-Plans checkpoint batch_size)
