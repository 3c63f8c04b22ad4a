-- ===== src/Checkpoint/Tests.antt =====
-- Runs of the planned range and of the in-memory store, and their theorems at concrete inputs.
use ormpindexer.Base.{
  ℕ, ◌≤◌, ◌<◌, ◌≡◌, refl, ◌≢◌, ◌↔◌, ◌⊎◌, none, some, List, [], ◌∷◌, Text, codes, ok, err, Error,
  arith, Among, u64_max,
}
use ormpindexer.Base.Order.{nat_order, text_order, pair_order}
use ormpindexer.Base.BTreeMap.{get}
use ormpindexer.Config.Types.{safe}
use ormpindexer.Checkpoint.{Checkpoint, BlockAnchor, plan_next_range}
use ormpindexer.Checkpoint.Plan.{Plans, plan_next_range-Plans}
use ormpindexer.Checkpoint.InMemory.{
  InMemoryCheckpointStore, CheckpointKey, AnchorKey, read_or_create, read_block_anchors,
  rollback_legacy_from, key_of,
}
use ormpindexer.Checkpoint.InMemory.Valid.{IsValid}
use ormpindexer.Checkpoint.InMemory.Reads.{
  InRange, recorded, start_of, read_block_anchors_exact, read_or_create_lem,
  rollback_legacy_from_lem,
}

abbrev logs : Text
logs = codes "evm.logs"

abbrev start : Checkpoint
start = record { chain_id = 1; dataset = logs; next_block = 10 }

abbrev at_end : Checkpoint
at_end = record { chain_id = 1; dataset = logs; next_block = u64_max }

first_range : plan_next_range start 5 ≡ ok (record { from_block = 10; to_block = 14 })
unfolding plan_next_range
first_range = refl

no_range : plan_next_range at_end 2 ≡ err Error.range_overflow
unfolding plan_next_range
no_range = refl

plan_next_range-Plans_example : Plans 10 5 (plan_next_range start 5)
plan_next_range-Plans_example = plan_next_range-Plans start 5

abbrev anchor : ℕ → BlockAnchor
anchor n = record {
  chain_id = 1;
  dataset = logs;
  block_number = n;
  block_hash = n ∷ [];
  parent_hash = none;
  finality = safe;
}

-- A store with three anchors and the checkpoint behind them.
abbrev filled : InMemoryCheckpointStore
filled = record {
  checkpoints = ((1, logs), 8) ∷ [];
  anchors =
      (key_of (anchor 5), anchor 5)
      ∷ (key_of (anchor 6), anchor 6)
      ∷ (key_of (anchor 7), anchor 7)
      ∷ [];
}

filled-IsValid : IsValid filled
filled-IsValid = record {
  checkpoints_sorted = ground arith;
  anchors_sorted = ground arith;
  keyed = ground arith;
}

read_two : (read_block_anchors 1 logs 6 9 filled).0 ≡ ok (anchor 6 ∷ anchor 7 ∷ [])
unfolding read_block_anchors
read_two = refl

read_block_anchors_exact_example :
    (anchors : List BlockAnchor) × (read_block_anchors 1 logs 6 9 filled ≡ (ok anchors, filled))
    × ((a : BlockAnchor)
        → Among a anchors ↔ (InRange 1 logs 6 9 a × (get (key_of a) filled.anchors ≡ some a)))
read_block_anchors_exact_example =
    read_block_anchors_exact 1 logs 6 9 filled filled-IsValid (omega arith)

read_or_create_lem_example :
    let (r, s') = read_or_create 1 logs 3 filled in
    let next = start_of (recorded 1 logs filled) 3 in
    (r ≡ ok (record { chain_id = 1; dataset = logs; next_block = next }))
    × (recorded 1 logs s' ≡ some next)
    × ((c' : ℕ) (d' : Text)
        → ◌≢◌ {A = CheckpointKey} (c', d') (1, logs)
        → recorded c' d' s' ≡ recorded c' d' filled)
    × (s'.anchors ≡ filled.anchors)
read_or_create_lem_example = read_or_create_lem 1 logs 3 filled

rollback_legacy_from_lem_example :
    let (r, s') = rollback_legacy_from 1 logs 6 filled in
    (r ≡ ok tt)
    × (recorded 1 logs s' ≡ some 6)
    × ((c' : ℕ) (d' : Text)
        → ◌≢◌ {A = CheckpointKey} (c', d') (1, logs)
        → recorded c' d' s' ≡ recorded c' d' filled)
    × ((n : ℕ) → 6 ≤ n → get {K = AnchorKey} (1, (logs, n)) s'.anchors ≡ none)
    × ((c' : ℕ) (d' : Text) (n : ℕ)
        → ◌≢◌ {A = CheckpointKey} (c', d') (1, logs) ⊎ (n < 6)
        → get {K = AnchorKey} (c', (d', n)) s'.anchors
          ≡ get {K = AnchorKey} (c', (d', n)) filled.anchors)
rollback_legacy_from_lem_example = rollback_legacy_from_lem 1 logs 6 filled
