-- ===== src/Checkpoint/InMemory.antt =====
-- `InMemoryCheckpointStore` (src/checkpoint.rs): two ordered maps behind locks. What a lock
-- gives behind a panic that happened while it was held is left out.
pub mod Valid
pub mod Reads
use Prim.Native.Nat.Ordering.{lt, eq, gt}
use ormpindexer.Base.{
  ℕ, Bool, true, false, not, ◌||◌, ◌&&◌, none, some, List, [], ◌∷◌, Text, text_eq, ok, err, Error,
  ltb, ◌==◌, if◌then◌else◌,
}
use ormpindexer.Base.Order.{nat_order, text_order, pair_order, pair_cmp}
use ormpindexer.Base.BTreeMap.{BTreeMap, get, insert, or_insert, retain, values}
use ormpindexer.Base.Action.{Action}
use ormpindexer.Checkpoint.{Checkpoint, BlockAnchor, CheckpointStore}

-- Tuples of Rust compare from the left, as nested pairs do.
abbrev pub CheckpointKey : Type 0
CheckpointKey = ℕ × Text

abbrev pub AnchorKey : Type 0
AnchorKey = ℕ × (Text × ℕ)

pub record InMemoryCheckpointStore : Type 0 where
  pub checkpoints : BTreeMap CheckpointKey ℕ
  pub anchors : BTreeMap AnchorKey BlockAnchor

-- `Default`
abbrev pub empty_store : InMemoryCheckpointStore
empty_store = record { checkpoints = []; anchors = [] }

unfoldable pub read_or_create : ℕ → Text → ℕ → Action InMemoryCheckpointStore Checkpoint
read_or_create chain_id dataset start_block s =
    let checkpoints = or_insert (chain_id, dataset) start_block s.checkpoints in
    elim (get (chain_id, dataset) checkpoints) [
      | none ↦ (err Error.panic, s)
      | some next_block ↦ (
        ok (record { chain_id = chain_id; dataset = dataset; next_block = next_block }),
        record s { checkpoints = checkpoints },
      )
    ]

unfoldable pub advance : ℕ → Text → ℕ → Action InMemoryCheckpointStore (Unit {0})
advance chain_id dataset next_block s =
    (ok tt, record s { checkpoints = insert (chain_id, dataset) next_block s.checkpoints })

abbrev pub key_of : BlockAnchor → AnchorKey
key_of anchor = (anchor.chain_id, (anchor.dataset, anchor.block_number))

-- The loop over the anchors.
abbrev pub insert_all :
    List BlockAnchor → BTreeMap AnchorKey BlockAnchor → BTreeMap AnchorKey BlockAnchor
insert_all [] stored = stored
insert_all (anchor ∷ anchors) stored = insert_all anchors (insert (key_of anchor) anchor stored)

unfoldable pub upsert_block_anchors : List BlockAnchor → Action InMemoryCheckpointStore (Unit {0})
upsert_block_anchors anchors s = (ok tt, record s { anchors = insert_all anchors s.anchors })

abbrev pub le_key : AnchorKey → AnchorKey → Bool
le_key a b = elim (pair_cmp a b) [ lt ↦ true | eq ↦ true | gt ↦ false ]

-- `BTreeMap::range` panics where the first bound is the larger one.
unfoldable pub read_block_anchors :
    ℕ → Text → ℕ → ℕ → Action InMemoryCheckpointStore (List BlockAnchor)
read_block_anchors chain_id dataset from_block to_block s =
    if ltb to_block from_block then (err Error.panic, s) else (
      ok (
          values (
            retain
              (λ k.
                le_key (chain_id, (dataset, from_block)) k
                && le_key k (chain_id, (dataset, to_block)))
              s.anchors)),
      s,
    )

-- What `rollback_legacy_from` retains: other chains, other datasets and earlier blocks.
abbrev pub stays : ℕ → Text → ℕ → AnchorKey → Bool
stays chain_id dataset rollback_block (anchor_chain_id, (anchor_dataset, block_number)) =
    not (anchor_chain_id == chain_id)
    || not (text_eq anchor_dataset dataset)
    || ltb block_number rollback_block

unfoldable pub rollback_legacy_from : ℕ → Text → ℕ → Action InMemoryCheckpointStore (Unit {0})
unfolding advance
rollback_legacy_from chain_id dataset rollback_block s =
    advance chain_id dataset rollback_block
      (record s { anchors = retain (stays chain_id dataset rollback_block) s.anchors })

-- `InMemoryCheckpointStore::next_block`
unfoldable pub next_block : ℕ → Text → Action InMemoryCheckpointStore ℕ
unfolding read_or_create
next_block chain_id dataset s =
    let (r, s') = read_or_create chain_id dataset 0 s in
    (elim r [ ok checkpoint ↦ ok checkpoint.next_block | err e ↦ err e ], s')

-- The store as the runner sees it.
abbrev pub in_memory : CheckpointStore InMemoryCheckpointStore
in_memory = record {
  read_or_create = read_or_create;
  advance = advance;
  upsert_block_anchors = upsert_block_anchors;
  read_block_anchors = read_block_anchors;
  rollback_legacy_from = rollback_legacy_from;
}
