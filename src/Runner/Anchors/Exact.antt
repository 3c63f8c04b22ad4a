-- ===== src/Runner/Anchors/Exact.antt =====
-- What `block_anchors_from_blocks` (src/runner.rs) makes of the headers that it is given.
use ormpindexer.Base.{
  ◌⊎◌, Result, ℕ, zero, suc, ◌+◌, ◌-◌, ◌<◌, ◌≡◌, refl, inl, inr, none, some, Option-cases, List, [],
  ◌∷◌, Text, ok, err, Error, arith, length, get_elem?,
}
use ormpindexer.Base.Order.{nat_order}
use ormpindexer.Base.BTreeMap.{BTreeMap, get}
use ormpindexer.Config.Types.{FinalityMode}
use ormpindexer.Checkpoint.{BlockRange, BlockAnchor}
use ormpindexer.Datalens.Types.{DatalensBlock}
use ormpindexer.Runner.Anchors.{
  anchor_of, header_anchors, block_anchors_from_blocks, blocks_by_number,
}

module _ (chain_id : ℕ) (dataset : Text) (finality : FinalityMode)
    (headers : BTreeMap ℕ DatalensBlock) where
  abbrev Holds : ℕ → ℕ → List BlockAnchor → Type 0
  Holds start i anchors =
      (block : DatalensBlock) × (get (start + i) headers ≡ some block)
      × (get_elem? anchors i ≡ some (anchor_of chain_id dataset finality (start + i) block))

  -- One anchor for each of `left` blocks from `start` on, in order, with the block's header.
  abbrev pub Exact : ℕ → ℕ → List BlockAnchor → Type 0
  Exact left start anchors = (length anchors ≡ left) × ((i : ℕ) → i < left → Holds start i anchors)

  cons-Holds :
      (left start i : ℕ) (block : DatalensBlock) (anchors : List BlockAnchor)
      → get start headers ≡ some block
      → Exact left (start + 1) anchors
      → i < suc left
      → Holds start i (anchor_of chain_id dataset finality start block ∷ anchors)
  cons-Holds left start zero block anchors found (len, each) h =
      let same : start + 0 ≡ start = omega arith in (block, rw same found, rw same refl)
  cons-Holds left start (suc i) block anchors found (len, each) h =
      let same : start + suc i ≡ start + 1 + i = omega arith in
      let (other, got, placed) = each i (omega arith) in (other, rw same got, rw same placed)

  -- All headers are there and make one anchor each, or the first one that is missing fails the call.
  abbrev pub ExactOrMissing : ℕ → ℕ → Result (List BlockAnchor) → Type 0
  ExactOrMissing left start result =
      ((anchors : List BlockAnchor) × (result ≡ ok anchors) × Exact left start anchors)
      ⊎ ((result ≡ err Error.missing_block_header)
          × (i : ℕ) × (i < left)
          × (get (start + i) headers ≡ none))

  header_anchors_cases :
      (left start : ℕ)
      → ExactOrMissing left start (header_anchors chain_id dataset finality left start headers)
  unfolding header_anchors
  header_anchors_cases zero start = inl ([], refl, (refl, λ i h. absurd (omega arith)))
  header_anchors_cases (suc left) start = elim (Option-cases (get start headers)) [
    | inl missing ↦
        let same : start + 0 ≡ start = omega arith in
        inr (rw (missing, header_anchors) refl, 0, omega arith, rw same missing)
    | inr (block, found) ↦ elim (header_anchors_cases left (start + 1)) [
      | inl (rest, more, exact) ↦ inl (
        anchor_of chain_id dataset finality start block ∷ rest,
        rw (found, more, header_anchors) refl,
        (omega (arith, exact.0), λ i. cons-Holds left start i block rest found exact),
      )
      | inr (failed, i, h, missing) ↦
          let same : start + suc i ≡ start + 1 + i = omega arith in
          inr (rw (found, failed, header_anchors) refl, suc i, omega arith, rw same missing)
    ]
  ]

-- Of the headers of a range, in whatever order they were served: either there is one for every block
-- of the range, and the anchors are one for each block, in the order of the blocks, with the chain's
-- header of that block; or a block of the range has no header, and the call fails with no anchors.
pub block_anchors_from_blocks_exact :
    (chain_id : ℕ) (dataset : Text) (finality : FinalityMode) (range : BlockRange)
    (blocks : List DatalensBlock)
    → ExactOrMissing chain_id dataset finality
        (blocks_by_number blocks)
        (range.to_block + 1 - range.from_block)
        range.from_block
        (block_anchors_from_blocks chain_id dataset finality range blocks)
unfolding block_anchors_from_blocks
block_anchors_from_blocks_exact chain_id dataset finality range blocks =
    header_anchors_cases chain_id dataset finality (blocks_by_number blocks)
      (range.to_block + 1 - range.from_block) range.from_block
