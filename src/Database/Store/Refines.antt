-- ===== src/Database/Store/Refines.antt =====
-- `PostgresCheckpointStore` (src/database.rs) against `InMemoryCheckpointStore` (src/checkpoint.rs).
use ormpindexer.Base.{
  ℕ, ◌≤◌, ◌≡◌, refl, sym, ◌∙◌, ap, Bool, true, false, not, ◌&&◌, some, List, [], ◌∷◌, Text, text_eq,
  text_eq_refl, text_eq→≡, filter, leb, le→leb, ltb, ok, Error, arith, context-ok,
}
use ormpindexer.Base.BTreeMap.{get}
use ormpindexer.Base.Order.{nat_order, text_order, pair_order}
use ormpindexer.Base.Action.{Action, Ensures, Ensures-pure, Ensures-bind, Ensures-then, Ensures-imp}
use ormpindexer.Checkpoint.{BlockAnchor}
use ormpindexer.Checkpoint.InMemory as InMemory
use ormpindexer.Checkpoint.InMemory.{
  InMemoryCheckpointStore, AnchorKey, key_of, insert_all, le_key, stays,
}
use ormpindexer.Checkpoint.InMemory.Reads.{le_key-range, range-le_key}
use ormpindexer.Database.{Tables, Engine, for_each, update}
use ormpindexer.Database.Effects.{statement-Ensures, query-Ensures, transaction-Leaves}
use ormpindexer.Database.Store.{
  read_or_create, advance, upsert_block_anchors, read_block_anchors, rollback_legacy_from,
  anchor_goes,
}
use ormpindexer.Database.Store.Rollback.{rollback_legacy_from_outcome}
use ormpindexer.Database.Writer.{upsert_block_anchors_tx}
use ormpindexer.Schema.Assignments.{AssignmentConfig}

-- The store in memory that the tables stand for.
abbrev pub store_of : Tables → InMemoryCheckpointStore
store_of t = record {
  checkpoints = t.ormp_indexer_checkpoint;
  anchors = t.ormp_indexer_block_anchor;
}

-- A call on the tables that succeeds returns and leaves what the call on the store in memory does.
abbrev pub Refines :
    {A : Type 0} → Action Tables A → Action InMemoryCheckpointStore A → Tables → Type 0
Refines m s t = Ensures (λ a t'. s (store_of t) ≡ (ok a, store_of t')) m t

filter_same :
    {A : Type 0} (p q : A → Bool)
    → ((a : A) → p a ≡ q a)
    → (xs : List A) → filter p xs ≡ filter q xs
filter_same p q h [] = refl
filter_same p q h (x ∷ xs) = rw (h x, filter_same p q h xs) refl

same_test : (x y : Bool) → (x ≡ true → y ≡ true) → (y ≡ true → x ≡ true) → x ≡ y
same_test true y h k = sym (h refl)
same_test false true h k = k refl
same_test false false h k = refl

goes_stays : (c : ℕ) (d : Text) (b : ℕ) (k : AnchorKey) → stays c d b k ≡ not (anchor_goes c d b k)
goes_stays c d b (i, (e, n)) = ground arith

goes_reads :
    (c : ℕ) (d : Text) (f t : ℕ) (k : AnchorKey)
    → (le_key (c, (d, f)) k && le_key k (c, (d, t))) ≡ (anchor_goes c d f k && leb k.1.1 t)
goes_reads c d f t (i, (e, n)) =
    same_test _ _
      (λ inside.
        let (ec, ed, lo, hi) = le_key-range c d f t (i, (e, n)) inside in
        let same : text_eq e d ≡ true = rw ed (text_eq_refl d) in
        ground (arith, le→leb f n lo, le→leb n t hi, ec, same))
      λ goes.
        let parts : (i ≡ c) × (text_eq e d ≡ true) × f ≤ n × n ≤ t = ground arith in
        let same = text_eq→≡ e d parts.1 in
        rw (parts.0, same) (range-le_key c d f t n parts.2 parts.3)

module _ (engine : Engine) (config : AssignmentConfig) where
  read_or_create-Refines :
      (c : ℕ) (d : Text) (start : ℕ) (t : Tables)
      → Refines (read_or_create engine config c d start) (InMemory.read_or_create c d start) t
  unfolding read_or_create InMemory.read_or_create
  read_or_create-Refines c d start t = Ensures-then (statement-Ensures engine _ t) λ u t1 inserted.
      Ensures-then (query-Ensures engine _ t1) λ row t2 (asked, same).
        Ensures-bind _ _ t2 λ next found.
          let there : row ≡ some next = context-ok row Error.remote next found in
          Ensures-pure _ t2 (
            rw same (
              rw inserted (
                rw
                  (ap (λ x. get (c, d) x.ormp_indexer_checkpoint) (sym inserted)
                    ∙ (sym asked ∙ there))
                  refl)))

  advance-Refines :
      (c : ℕ) (d : Text) (next stored : ℕ) (t : Tables)
      → get (c, d) t.ormp_indexer_checkpoint ≡ some stored
      → Refines (advance engine config c d next) (InMemory.advance c d next) t
  unfolding advance InMemory.advance update
  advance-Refines c d next stored t there =
      Ensures-imp (λ u t' moved. rw moved (rw (there, update) refl)) (statement-Ensures engine _ t)

  anchors_put :
      (anchors : List BlockAnchor) (t : Tables)
      → Ensures
          (λ u t'. store_of t' ≡ record {
            checkpoints = t.ormp_indexer_checkpoint;
            anchors = insert_all anchors t.ormp_indexer_block_anchor;
          })
          (upsert_block_anchors_tx engine anchors)
          t
  unfolding upsert_block_anchors_tx for_each
  anchors_put [] t = Ensures-pure tt t refl
  anchors_put (anchor ∷ anchors) t =
      Ensures-then (statement-Ensures engine _ t)
        λ u t1 put. Ensures-imp (λ v t2 rest. rw put at rest) (anchors_put anchors t1)

  upsert_block_anchors-Refines :
      (anchors : List BlockAnchor) (t : Tables)
      → Refines
          (upsert_block_anchors engine config anchors)
          (InMemory.upsert_block_anchors anchors)
          t
  unfolding upsert_block_anchors InMemory.upsert_block_anchors
  upsert_block_anchors-Refines [] t = Ensures-pure tt t refl
  upsert_block_anchors-Refines (anchor ∷ anchors) t = record {
    holds = λ u done.
        let all = (transaction-Leaves engine _ _ t (anchors_put (anchor ∷ anchors) t)).holds in
        let e : store_of (upsert_block_anchors engine config (anchor ∷ anchors) t).1 ≡ record {
          checkpoints = t.ormp_indexer_checkpoint;
          anchors = insert_all (anchor ∷ anchors) t.ormp_indexer_block_anchor;
        } =
          rw done at all in
        rw e refl;
  }

  read_block_anchors-Refines :
      (c : ℕ) (d : Text) (from_block to_block : ℕ) (t : Tables)
      → from_block ≤ to_block
      → Refines
          (read_block_anchors engine config c d from_block to_block)
          (InMemory.read_block_anchors c d from_block to_block)
          t
  unfolding read_block_anchors InMemory.read_block_anchors
  read_block_anchors-Refines c d f l t h =
      Ensures-imp
        (λ list t' (asked, same).
          let inside = filter_same _ _ (λ e. goes_reads c d f l e.0) t.ormp_indexer_block_anchor in
          let forward : ltb l f ≡ false = ground arith in
          rw (forward, same) (rw inside (rw (← asked) refl)))
        (query-Ensures engine _ t)

  rollback_legacy_from-Refines :
      (c : ℕ) (d : Text) (block : ℕ) (t : Tables)
      → Refines
          (rollback_legacy_from engine config c d block)
          (InMemory.rollback_legacy_from c d block)
          t
  unfolding InMemory.rollback_legacy_from InMemory.advance
  rollback_legacy_from-Refines c d block t = record {
    holds = λ u done.
        let all = (rollback_legacy_from_outcome engine config c block d t).holds in
        let (rest, remain) = rw done at all in
        let moved = ap (λ x. x.ormp_indexer_checkpoint) rest in
        let left = ap (λ x. x.ormp_indexer_block_anchor) rest in
        let same = filter_same _ _ (λ e. goes_stays c d block e.0) t.ormp_indexer_block_anchor in
        rw same (rw (← moved) (rw (← left) refl));
  }

  -- The store on the database implements the store in memory: every call that succeeds returns what
  -- the store in memory returns on the same checkpoints and anchors, and leaves what it leaves. Two
  -- conditions are asked for: a checkpoint exists before it is advanced, and the bounds of a range of
  -- anchors are in order.
  pub postgres_store-Refines :
      (c : ℕ) (d : Text) (start next stored block from_block to_block : ℕ)
      (anchors : List BlockAnchor) (t : Tables)
      → get (c, d) t.ormp_indexer_checkpoint ≡ some stored
      → from_block ≤ to_block
      → Refines (read_or_create engine config c d start) (InMemory.read_or_create c d start) t
        × Refines (advance engine config c d next) (InMemory.advance c d next) t
        × Refines
            (upsert_block_anchors engine config anchors)
            (InMemory.upsert_block_anchors anchors)
            t
        × Refines
            (read_block_anchors engine config c d from_block to_block)
            (InMemory.read_block_anchors c d from_block to_block)
            t
        × Refines
            (rollback_legacy_from engine config c d block)
            (InMemory.rollback_legacy_from c d block)
            t
  postgres_store-Refines c d start next stored block from_block to_block anchors t there order = (
    read_or_create-Refines c d start t,
    advance-Refines c d next stored t there,
    upsert_block_anchors-Refines anchors t,
    read_block_anchors-Refines c d from_block to_block t order,
    rollback_legacy_from-Refines c d block t,
  )
