-- ===== src/Checkpoint/InMemory/Reads.antt =====
-- What the in-memory store answers: the next block of a chain and dataset, the anchors of a range of
-- blocks, and both after a rollback.
use ormpindexer.Base.{
  ℕ, ◌≤◌, ◌<◌, ◌≡◌, refl, ◌≢◌, ◌↔◌, ◌⊎◌, inl, inr, subst, ◌∙◌, Bool, true, ◌&&◌, Option, none, some,
  Option-cases, List, Text, text_eq→≡, text_eq_refl, ok, arith, Among, Among-filter,
  Among-of_filter, Among-map, Among-of_map, All-Among,
}
use ormpindexer.Base.Order.{
  nat_order, text_order, pair_order, eq_of_text_cmp, text_cmp_self, text_cmp-flip,
}
use ormpindexer.Base.BTreeMap.{
  get, values, retain, get-insert_ne, get-insert_self, get-retain, get-Among, Among-of_get,
}
use ormpindexer.Checkpoint.{BlockAnchor}
use ormpindexer.Checkpoint.InMemory.{
  CheckpointKey, AnchorKey, InMemoryCheckpointStore, read_or_create, key_of, le_key,
  read_block_anchors, stays, rollback_legacy_from,
}
use ormpindexer.Checkpoint.InMemory.Valid.{IsValid}

-- What a range of keys of one chain and dataset holds.
pub le_key-range :
    (c : ℕ) (d : Text) (f t : ℕ) (k : AnchorKey)
    → (le_key (c, (d, f)) k && le_key k (c, (d, t))) ≡ true
    → (k.0 ≡ c) × (k.1.0 ≡ d) × (f ≤ k.1.1) × (k.1.1 ≤ t)
le_key-range c d f t (i, (e, n)) h =
    ground (arith, text_cmp-flip d e, eq_of_text_cmp d e, text_cmp_self d)

pub range-le_key :
    (c : ℕ) (d : Text) (f t n : ℕ)
    → f ≤ n
    → n ≤ t
    → (le_key (c, (d, f)) (c, (d, n)) && le_key (c, (d, n)) (c, (d, t))) ≡ true
range-le_key c d f t n h k = ground (arith, text_cmp_self d)

-- An anchor lies in a range of blocks of one chain and dataset.
abbrev pub InRange : ℕ → Text → ℕ → ℕ → BlockAnchor → Type 0
InRange c d f t a = (a.chain_id ≡ c) × (a.dataset ≡ d) × (f ≤ a.block_number) × (a.block_number ≤ t)

module _ (c : ℕ) (d : Text) (f t : ℕ) (s : InMemoryCheckpointStore) (v : IsValid s) where
  abbrev inside : AnchorKey → Bool
  inside k = le_key (c, (d, f)) k && le_key k (c, (d, t))

  stored_entry :
      (k : AnchorKey) (a b : BlockAnchor)
      → a ≡ b
      → k ≡ key_of b
      → Among (k, b) s.anchors
      → Among (key_of a, a) s.anchors
  stored_entry k a b same key stored =
      let e : Path (AnchorKey × BlockAnchor) (k, b) (key_of a, a) = cc in
      subst (λ (p : AnchorKey × BlockAnchor). Among p s.anchors) e stored

  read_sound :
      (a : BlockAnchor)
      → Among a (values (retain inside s.anchors))
      → InRange c d f t a × (get (key_of a) s.anchors ≡ some a)
  read_sound a m =
      let ((k, b), kept, same) = Among-of_map (λ e. e.1) a (retain inside s.anchors) m in
      let (stored, test) = Among-of_filter (λ e. inside e.0) (k, b) s.anchors kept in
      let key = All-Among (λ e. e.0 ≡ key_of e.1) (k, b) s.anchors v.keyed stored in
      (
        ground (arith, le_key-range c d f t k test, key, same),
        get-Among (key_of a) a s.anchors v.anchors_sorted (stored_entry k a b same key stored),
      )

  read_complete :
      (a : BlockAnchor)
      → InRange c d f t a
      → get (key_of a) s.anchors ≡ some a
      → Among a (values (retain inside s.anchors))
  read_complete a (ec, ed, lo, hi) g =
      Among-map (λ e. e.1) (key_of a, a) (retain inside s.anchors)
        (Among-filter (λ e. inside e.0) (key_of a, a) s.anchors
          (Among-of_get (key_of a) a s.anchors g)
          (rw (ec, ed) (range-le_key c d f t a.block_number lo hi)))

-- With bounds in order, on a valid store, `read_block_anchors` succeeds and changes nothing; what it
-- returns are exactly the stored anchors of the chain and the dataset whose block lies between the
-- bounds, both included.
pub read_block_anchors_exact :
    (c : ℕ) (d : Text) (f t : ℕ) (s : InMemoryCheckpointStore)
    → IsValid s
    → f ≤ t
    → (anchors : List BlockAnchor) × (read_block_anchors c d f t s ≡ (ok anchors, s))
      × ((a : BlockAnchor)
          → Among a anchors ↔ (InRange c d f t a × (get (key_of a) s.anchors ≡ some a)))
unfolding read_block_anchors
read_block_anchors_exact c d f t s v h = (
  values (retain (inside c d f t s v) s.anchors),
  ground arith,
  λ a. (read_sound c d f t s v a, λ r. read_complete c d f t s v a r.0 r.1),
)

-- What the store says of a chain and a dataset: the recorded next block, if there is one.
abbrev pub recorded : ℕ → Text → InMemoryCheckpointStore → Option ℕ
recorded c d s = get (c, d) s.checkpoints

abbrev pub start_of : Option ℕ → ℕ → ℕ
start_of none start = start
start_of (some next) start = next

-- A chain and dataset that has a checkpoint keeps it, whatever start block is offered; one that has
-- none starts at the start block; the answer is what the store then records; no other chain and
-- dataset and no anchor changes.
pub read_or_create_lem :
    (c : ℕ) (d : Text) (start : ℕ) (s : InMemoryCheckpointStore)
    → let (r, s') = read_or_create c d start s in
      let next = start_of (recorded c d s) start in
      (r ≡ ok (record { chain_id = c; dataset = d; next_block = next }))
      × (recorded c d s' ≡ some next)
      × ((c' : ℕ) (d' : Text)
          → ◌≢◌ {A = CheckpointKey} (c', d') (c, d)
          → recorded c' d' s' ≡ recorded c' d' s)
      × (s'.anchors ≡ s.anchors)
unfolding read_or_create
read_or_create_lem c d start s = elim (Option-cases (recorded c d s)) [
  | inr (next, known) ↦ (ground arith, ground arith, λ c' d' ne. ground arith, ground arith)
  | inl fresh ↦
      let kept = get-insert_self {K = CheckpointKey} (c, d) start s.checkpoints in
      (
        ground (arith, kept),
        ground (arith, kept),
        λ c' d' ne.
            let other = get-insert_ne {K = CheckpointKey} (c, d) (c', d') start s.checkpoints ne in
            ground (arith, kept, other),
        ground (arith, kept),
      )
]

-- After a rollback the chain and dataset continue at the rollback block, every anchor of them at or
-- above that block is gone, and every other anchor and checkpoint is what it was.
pub rollback_legacy_from_lem :
    (c : ℕ) (d : Text) (b : ℕ) (s : InMemoryCheckpointStore)
    → let (r, s') = rollback_legacy_from c d b s in
      (r ≡ ok tt)
      × (recorded c d s' ≡ some b)
      × ((c' : ℕ) (d' : Text)
          → ◌≢◌ {A = CheckpointKey} (c', d') (c, d)
          → recorded c' d' s' ≡ recorded c' d' s)
      × ((n : ℕ) → b ≤ n → get {K = AnchorKey} (c, (d, n)) s'.anchors ≡ none)
      × ((c' : ℕ) (d' : Text) (n : ℕ)
          → ◌≢◌ {A = CheckpointKey} (c', d') (c, d) ⊎ (n < b)
          → get {K = AnchorKey} (c', (d', n)) s'.anchors
            ≡ get {K = AnchorKey} (c', (d', n)) s.anchors)
unfolding rollback_legacy_from
rollback_legacy_from_lem c d b s = (
  refl,
  get-insert_self {K = CheckpointKey} (c, d) b s.checkpoints,
  λ c' d' ne. get-insert_ne {K = CheckpointKey} (c, d) (c', d') b s.checkpoints ne,
  λ n h.
      get-retain {K = AnchorKey} (stays c d b) (c, (d, n)) s.anchors
      ∙ ground (arith, text_eq_refl d),
  λ c' d' n other.
      get-retain {K = AnchorKey} (stays c d b) (c', (d', n)) s.anchors
      ∙ ground (arith, other, text_eq→≡ d' d),
)
