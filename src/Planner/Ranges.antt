-- ===== src/Planner/Ranges.antt =====
-- The blocks that the plan of `plan_evm_log_queries` (src/planner.rs) covers.
use ormpindexer.Base.{
  ℕ, zero, suc, ◌+◌, ◌-◌, ◌≤◌, ◌<◌, min, ◌≡◌, refl, ◌≢◌, ◌⊎◌, inl, inr, Bool-cases, List, [], ◌∷◌,
  ok, arith, leb, leb→le, ◌==◌, u64_max, saturating_add, Text,
}
use ormpindexer.Config.Types.{FinalityMode, ChainConfig}
use ormpindexer.Planner.{
  PlannedDatalensLogQuery, evm_logs_dataset, planned, plan_loop, plan_evm_log_queries,
}

module _ (chain : ChainConfig) (to_block max_range_len : ℕ) (finality_mode : FinalityMode) where
  -- One query from `next` on, for the chain's contracts and topics.
  pub record IsPlanned (next : ℕ) (plan : PlannedDatalensLogQuery) : Type 0 where
    pub dataset : plan.dataset ≡ evm_logs_dataset
    pub chain_id : plan.query.chain_id ≡ chain.chain_id
    pub contracts : plan.query.contracts ≡ chain.contracts
    pub topics : plan.query.topics ≡ chain.topics
    pub finality : plan.query.finality_mode ≡ finality_mode
    pub starts : plan.query.from_block ≡ next
    pub nonempty : next ≤ plan.query.to_block
    pub inside : plan.query.to_block ≤ to_block
    pub short : plan.query.to_block < next + max_range_len
    pub full : (plan.query.to_block + 1 ≡ next + max_range_len) ⊎ (plan.query.to_block ≡ to_block)

  -- The queries lie one behind the other from `next` to the end of the range.
  abbrev pub Tiles : ℕ → List PlannedDatalensLogQuery → Type 0
  Tiles next [] = next ≡ to_block + 1
  Tiles next (plan ∷ plans) = IsPlanned next plan × Tiles (plan.query.to_block + 1) plans

  abbrev end_of : ℕ → ℕ
  end_of next = min (saturating_add next (max_range_len - 1)) to_block

  planned-IsPlanned :
      (next : ℕ)
      → to_block ≤ u64_max
      → 0 < max_range_len
      → next ≤ to_block
      → IsPlanned next (planned chain to_block max_range_len finality_mode next (end_of next))
  planned-IsPlanned next bound pos h = record {
    dataset = refl;
    chain_id = refl;
    contracts = refl;
    topics = refl;
    finality = refl;
    starts = refl;
    nonempty = omega arith;
    inside = omega arith;
    short = omega arith;
    full = omega arith;
  }

  -- With fuel for the blocks that are left, the loop returns queries that tile the rest.
  plan_loop-Tiles :
      (fuel next : ℕ)
      → to_block ≤ u64_max
      → 0 < max_range_len
      → next ≤ to_block + 1
      → to_block + 1 < next + fuel
      → (plans : List PlannedDatalensLogQuery) × (plan_loop chain to_block max_range_len
            finality_mode fuel next
          ≡ ok plans)
        × Tiles next plans
  unfolding plan_loop
  plan_loop-Tiles zero next bound pos h enough = absurd (omega arith)
  plan_loop-Tiles (suc fuel) next bound pos h enough = elim (Bool-cases (leb next to_block)) [
    | inr over ↦ ([], rw over, ground arith)
    | inl more ↦
        let le = leb→le next to_block more in
        let first = planned-IsPlanned next bound pos le in
        elim (Bool-cases (end_of next == u64_max)) [
          | inl last ↦ (
            planned chain to_block max_range_len finality_mode next (end_of next) ∷ [],
            rw (more, last),
            (first, ground arith),
          )
          | inr next_round ↦
              let (plans, returns, tiles) =
                plan_loop-Tiles fuel (end_of next + 1) bound pos (omega arith) (omega arith) in
              (
                planned chain to_block max_range_len finality_mode next (end_of next) ∷ plans,
                rw (more, next_round, returns),
                (first, tiles),
              )
        ]
  ]

module _ (dataset : Text) (chain : ChainConfig) (from_block to_block max_range_len : ℕ)
    (finality_mode : FinalityMode) where
  -- For a range of `u64` blocks, a positive span and a chain with contracts and topics, the planner
  -- returns queries that follow each other without gap or overlap from the first block to the last;
  -- each asks for the chain's contracts and topics, spans at most the limit, and is shorter than
  -- the limit only at the end of the range.
  pub plan_evm_log_queries-Tiles :
      to_block ≤ u64_max
      → 0 < max_range_len
      → from_block ≤ to_block
      → chain.contracts ≢ []
      → chain.topics ≢ []
      → (plans : List PlannedDatalensLogQuery) × (plan_evm_log_queries dataset chain from_block
            to_block max_range_len finality_mode
          ≡ ok plans)
        × Tiles chain to_block max_range_len finality_mode from_block plans
  unfolding plan_evm_log_queries
  plan_evm_log_queries-Tiles bound pos h contracts topics =
      let (plans, returns, tiles) =
        plan_loop-Tiles chain to_block max_range_len finality_mode
          (suc (suc (to_block - from_block))) from_block bound pos (omega arith) (omega arith) in
      (plans, ground (arith, returns), tiles)
