-- ===== src/Checkpoint/InMemory/Valid.antt =====
-- The invariant of the in-memory store: both maps are in the order of their keys, and every anchor
-- stands under its own key.
use ormpindexer.Base.{ℕ, ◌≡◌, Text, arith, All}
use ormpindexer.Base.Order.{nat_order, text_order, pair_order}
use ormpindexer.Base.BTreeMap.{BTreeMap, IsSorted, insert-IsSorted}
use ormpindexer.Checkpoint.{BlockAnchor}
use ormpindexer.Checkpoint.InMemory.{
  AnchorKey, InMemoryCheckpointStore, read_or_create, advance, key_of,
}

-- Every anchor stands under its own key.
abbrev pub IsKeyed : BTreeMap AnchorKey BlockAnchor → Type 0
IsKeyed = All (λ e. e.0 ≡ key_of e.1)

pub record IsValid (s : InMemoryCheckpointStore) : Type 0 where
  pub checkpoints_sorted : IsSorted s.checkpoints
  pub anchors_sorted : IsSorted s.anchors
  pub keyed : IsKeyed s.anchors

-- Reading or creating a checkpoint keeps the maps ordered and every anchor under its key.
pub read_or_create-IsValid :
    (c : ℕ) (d : Text) (start : ℕ) (s : InMemoryCheckpointStore)
    → IsValid s
    → IsValid (read_or_create c d start s).1
unfolding read_or_create
read_or_create-IsValid c d start s v =
    ground (arith, insert-IsSorted (c, d) start s.checkpoints v.checkpoints_sorted)

-- Moving a checkpoint keeps the maps ordered and every anchor under its key.
pub advance-IsValid :
    (c : ℕ) (d : Text) (next : ℕ) (s : InMemoryCheckpointStore)
    → IsValid s
    → IsValid (advance c d next s).1
unfolding advance
advance-IsValid c d next s v = record {
  checkpoints_sorted = insert-IsSorted (c, d) next s.checkpoints v.checkpoints_sorted;
  anchors_sorted = v.anchors_sorted;
  keyed = v.keyed;
}
