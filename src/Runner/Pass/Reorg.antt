-- ===== src/Runner/Pass/Reorg.antt =====
-- What the reorg check, `rollback_reorged_anchors` (src/runner.rs), asks for and does.
use ormpindexer.Base.{
  ℕ, checked_sub, zero, suc, ◌+◌, ◌-◌, ◌≤◌, ◌<◌, ◌≡◌, refl, Bool, true, false, ◌⊎◌, inl, inr,
  Option, none, some, Bool-cases, dec_le, le_refl, List, Text, Result, text_eq→≡, text_eq_refl, ok,
  arith,
}
use ormpindexer.Base.Action.{Ensures, Ensures-bind, Ensures-pure, Ensures-if, Ensures-imp}
use ormpindexer.Base.Order.{nat_order}
use ormpindexer.Base.BTreeMap.{get}
use ormpindexer.Config.Types.{ChainConfig}
use ormpindexer.Checkpoint.{BlockAnchor}
use ormpindexer.Datalens.Types.{DatalensBlock, DatalensBlockQueryResult, covers}
use ormpindexer.Runner.Interfaces.{IndexerRunner}
use ormpindexer.Runner.Anchors.{blocks_by_number}
use ormpindexer.Runner.Pass.{
  find_block, is_reorged, anchors_by_number, roll_back_to, compare_window, window_start,
  check_window, check_below, rollback_reorged_anchors,
}

-- What `find` means: the first block of the range that passes, or none passes.
abbrev pub Finds : (ℕ → Bool) → ℕ → ℕ → Option ℕ → Type 0
Finds p from len none = (k : ℕ) → from ≤ k → k < from + len → p k ≡ false
Finds p from len (some b) =
    (from ≤ b) × (b < from + len) × (p b ≡ true) × ((k : ℕ) → from ≤ k → k < b → p k ≡ false)

find_block-Finds : (p : ℕ → Bool) (len from : ℕ) → Finds p from len (find_block p len from)
unfolding find_block
find_block-Finds p zero from = λ k lo hi. absurd (omega arith)
find_block-Finds p (suc len) from = elim (Bool-cases (p from)) [
  | inl hit ↦ rw hit (le_refl from, omega arith, hit, λ k lo hi. absurd (omega arith))
  | inr miss ↦ rw miss (skip (find_block p len (from + 1)) (find_block-Finds p len (from + 1)) miss)
]
  where
    step : p from ≡ false → (k : ℕ) → from ≤ k → (from + 1 ≤ k → p k ≡ false) → p k ≡ false
    step miss k lo rest = elim (dec_le (from + 1) k) [
      | yes h ↦ rest h
      | no h ↦ let e : k ≡ from = omega arith in rw e miss
    ]

    skip : (r : Option ℕ) → Finds p (from + 1) len r → p from ≡ false → Finds p from (suc len) r
    skip none all miss = λ k lo hi. step miss k lo (λ h. all k h (omega arith))
    skip (some b) (lo, hi, at, below) miss =
        (omega arith, omega arith, at, λ k lo' hi'. step miss k lo' (λ h. below k h hi'))

-- The stored anchor of a block and the chain's header of it have the same hash.
pub record Fits (anchors : List BlockAnchor) (blocks : List DatalensBlock) (k : ℕ) : Type 0 where
  pub anchor : BlockAnchor
  pub block : DatalensBlock
  pub stored : get k (anchors_by_number anchors) ≡ some anchor
  pub current : get k (blocks_by_number blocks) ≡ some block
  pub same : block.block_hash ≡ anchor.block_hash

module _ (anchors : List BlockAnchor) (blocks : List DatalensBlock) (k : ℕ) where
  abbrev reorged : Bool
  reorged = is_reorged (anchors_by_number anchors) (blocks_by_number blocks) k

  reorged_of_Fits : Fits anchors blocks k → reorged ≡ false
  unfolding is_reorged
  reorged_of_Fits f = ground (arith, f.stored, f.current, f.same, text_eq_refl f.anchor.block_hash)

  Fits-found :
      (a : Option BlockAnchor) (b : Option DatalensBlock)
      → get k (anchors_by_number anchors) ≡ a
      → get k (blocks_by_number blocks) ≡ b
      → reorged ≡ false
      → Fits anchors blocks k
  unfolding is_reorged
  Fits-found none b ea eb h = absurd (ground (arith, ea, h))
  Fits-found (some a) none ea eb h = absurd (ground (arith, ea, eb, h))
  Fits-found (some a) (some b) ea eb h = record {
    anchor = a;
    block = b;
    stored = ea;
    current = eb;
    same = text_eq→≡ b.block_hash a.block_hash (ground (arith, ea, eb, h));
  }

  Fits-of_reorged : reorged ≡ false → Fits anchors blocks k
  Fits-of_reorged h =
      Fits-found (get k (anchors_by_number anchors)) (get k (blocks_by_number blocks)) refl refl h

module _ {W : Type 0} (runner : IndexerRunner W) (chain : ChainConfig) (dataset : Text) where
  -- What is asked from the state `w` on, for a window of blocks: its stored anchors, then its
  -- headers.
  module _ (from_block to_block : ℕ) (w : W) where
    abbrev reading : Result (List BlockAnchor) × W
    reading = runner.checkpoints.read_block_anchors chain.chain_id dataset from_block to_block w

    abbrev querying : Result DatalensBlockQueryResult × W
    querying =
        runner.reader.query_blocks
          (record {
            chain_id = chain.chain_id;
            from_block = from_block;
            to_block = to_block;
            finality_mode = chain.finality_mode;
          })
          reading.1

    -- The answers, where the headers of the whole window are served.
    pub record Compared : Type 0 where
      pub anchors : List BlockAnchor
      pub reads : reading.0 ≡ ok anchors
      pub current : DatalensBlockQueryResult
      pub queries : querying.0 ≡ ok current
      pub covered : covers current from_block to_block ≡ true

    -- The stored anchor of a block fits the chain's header of it.
    abbrev pub Match : Compared → ℕ → Type 0
    Match c k = Fits c.anchors c.current.blocks k

    -- The store was rolled back, as the last thing done, to the first block of the window that does
    -- not fit.
    pub record RolledBack (rollback_block : ℕ) (w' : W) : Type 0 where
      pub compared : Compared
      pub above : from_block ≤ rollback_block
      pub below : rollback_block ≤ to_block
      pub misfit : ¬ Match compared rollback_block
      pub earlier : (k : ℕ) → from_block ≤ k → k < rollback_block → Match compared k
      pub call :
          runner.checkpoints.rollback_legacy_from chain.chain_id dataset rollback_block querying.1
          ≡ (ok tt, w')

    -- Nothing was rolled back: the window is empty, the service has not served all its headers, or
    -- every block of it fits.
    pub data Kept (w' : W) : Type 0 where
      empty_window : to_block < from_block → w' ≡ w → Kept w'
      not_covered :
          (current : DatalensBlockQueryResult)
          → querying.0 ≡ ok current
          → covers current from_block to_block ≡ false
          → w' ≡ querying.1
          → Kept w'
      all_fit :
          (c : Compared)
          → ((k : ℕ) → from_block ≤ k → k ≤ to_block → Match c k)
          → w' ≡ querying.1
          → Kept w'

    -- What the check of the window has found and done.
    abbrev pub Checked : Option ℕ → W → Type 0
    Checked none w' = Kept w'
    Checked (some b) w' = RolledBack b w'

    roll_back_to-Checked :
        (c : Compared) (len : ℕ) (found : Option ℕ)
        → len ≡ to_block + 1 - from_block
        → Finds (reorged c.anchors c.current.blocks) from_block len found
        → Ensures Checked (roll_back_to runner chain dataset found) querying.1
    unfolding roll_back_to
    roll_back_to-Checked c len none size fits = Ensures-pure none _ (
        all_fit c
          (λ k from until. Fits-of_reorged c.anchors c.current.blocks k (fits k from (omega arith)))
          refl)
    roll_back_to-Checked c len (some b) size (lo, hi, hit, miss) = Ensures-bind _ _ _ λ u done.
        Ensures-pure (some b) _ (record {
          compared = c;
          above = lo;
          below = omega arith;
          misfit = λ f. cc (reorged_of_Fits c.anchors c.current.blocks b f, hit);
          earlier =
              λ k from until. Fits-of_reorged c.anchors c.current.blocks k (miss k from until);
          call = ground (arith, done);
        })

    compare_window-Checked :
        Ensures Checked (compare_window runner chain dataset from_block to_block) w
    unfolding compare_window
    compare_window-Checked = Ensures-bind _ _ w λ anchors read.
        Ensures-bind _ _ _ λ current queried.
          let len = to_block + 1 - from_block in
          Ensures-if (covers current from_block to_block) _ _ _
            (λ covered.
              roll_back_to-Checked
                (record {
                  anchors = anchors;
                  reads = read;
                  current = current;
                  queries = queried;
                  covered = covered;
                })
                len _ refl (find_block-Finds (reorged anchors current.blocks) len from_block))
            (λ waits. Ensures-pure none _ (not_covered current queried waits refl))

  -- The window of a check: it ends below the checkpoint and starts above the finalized head, not
  -- below the start of the chain.
  pub record Window (checkpoint_next_block : ℕ) (w : W) (rollback : Option ℕ) (w' : W)
      : Type 0 where
    pub finalized : ℕ
    pub head : (runner.reader.finalized_head chain.chain_id w).0 ≡ ok finalized
    pub checked :
        Checked
          (window_start runner chain dataset checkpoint_next_block finalized)
          (checkpoint_next_block - 1)
          (runner.reader.finalized_head chain.chain_id w).1
          rollback
          w'

  check_window_Checked :
      (next to_block : ℕ) (w : W)
      → to_block ≡ next - 1
      → Ensures (Window next w) (check_window runner chain dataset next to_block) w
  unfolding check_window
  check_window_Checked next to_block w e = Ensures-bind _ _ w λ finalized called.
      Ensures-imp
        (λ rollback w' c. record { finalized = finalized; head = called; checked = rw (← e) c })
        (Ensures-if _ _ _ _ (λ empty. Ensures-pure none _ (empty_window (ground arith) refl))
          (λ nonempty.
            compare_window-Checked (window_start runner chain dataset next finalized) to_block _))

  check_below_Checked :
      (next : ℕ) (to_block : Option ℕ) (w : W)
      → checked_sub next 1 ≡ to_block
      → Ensures
          (λ rollback w'. ((next ≡ 0) × (rollback ≡ none) × (w' ≡ w)) ⊎ Window next w rollback w')
          (check_below runner chain dataset next to_block)
          w
  unfolding check_below
  check_below_Checked next none w e = Ensures-pure none w (inl (ground arith, refl, refl))
  check_below_Checked next (some to_block) w e =
      Ensures-imp (λ rollback w' h. inr h) (check_window_Checked next to_block w (ground arith))

  -- A check without a failure, of a checkpoint that is not 0, asks for the finalized head, then for
  -- the stored anchors and the headers of the window, which lies above that head, not below the
  -- chain's start, and below the checkpoint. Either it rolls the store back, as the last thing done,
  -- to the first block of the window whose stored anchor and current header do not have the same
  -- hash, while all earlier blocks of the window fit. Or nothing is rolled back, since the window is
  -- empty, its headers are not all served, or all of its blocks fit.
  pub rollback_reorged_anchors_checked :
      (checkpoint_next_block : ℕ) (w : W) (rollback : Option ℕ)
      → (rollback_reorged_anchors runner chain dataset checkpoint_next_block w).0 ≡ ok rollback
      → let w' = (rollback_reorged_anchors runner chain dataset checkpoint_next_block w).1 in
        ((checkpoint_next_block ≡ 0) × (rollback ≡ none) × (w' ≡ w))
        ⊎ Window checkpoint_next_block w rollback w'
  unfolding rollback_reorged_anchors
  rollback_reorged_anchors_checked checkpoint_next_block w rollback h =
      (check_below_Checked checkpoint_next_block (checked_sub checkpoint_next_block 1) w refl).holds
        rollback h
