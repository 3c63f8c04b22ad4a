-- ===== src/Checkpoint.antt =====
-- Checkpoints and block anchors (src/checkpoint.rs): the next range to fetch, and what the runner
-- asks of a store of checkpoints.
pub mod InMemory
pub mod Plan
mod Tests
use ormpindexer.Base.{
  ℕ, ◌-◌, Option, List, Text, Result, ok, Error, ◌>>=◌, ◌>>◌, ensure, not, context, checked_add,
  ◌==◌,
}
use ormpindexer.Base.Action.{Action}
use ormpindexer.Config.Types.{FinalityMode}

pub record Checkpoint : Type 0 where
  pub chain_id : ℕ
  pub dataset : Text
  pub next_block : ℕ

pub record BlockRange : Type 0 where
  pub from_block : ℕ
  pub to_block : ℕ

pub record BlockAnchor : Type 0 where
  pub chain_id : ℕ
  pub dataset : Text
  pub block_number : ℕ
  pub block_hash : Text
  pub parent_hash : Option Text
  pub finality : FinalityMode

unfoldable pub plan_next_range : Checkpoint → ℕ → Result BlockRange
plan_next_range checkpoint batch_size = do
  ensure (not (batch_size == 0)) Error.batch_size_zero
  to_block ← context (checked_add checkpoint.next_block (batch_size - 1)) Error.range_overflow
  ok (record { from_block = checkpoint.next_block; to_block = to_block })

-- `trait CheckpointStore`, over the state `W` of everything outside the program's own variables.
pub record CheckpointStore (W : Type 0) : Type 0 where
  pub read_or_create : ℕ → Text → ℕ → Action W Checkpoint
  pub advance : ℕ → Text → ℕ → Action W (Unit {0})
  pub upsert_block_anchors : List BlockAnchor → Action W (Unit {0})
  pub read_block_anchors : ℕ → Text → ℕ → ℕ → Action W (List BlockAnchor)
  pub rollback_legacy_from : ℕ → Text → ℕ → Action W (Unit {0})
