-- ===== src/Recovery/Scan/Keeps.antt =====
-- Which calls of the scan leave the recorded checkpoint alone (src/tron_recovery/scan.rs).
use ormpindexer.Base.{
  ◌/◌, ◌==◌, ℕ, zero, suc, ◌+◌, ◌-◌, ◌≡◌, refl, ◌∙◌, Option, none, some, List, [], ◌∷◌, Text,
  Bool-cases, Result, ok, err, Error, inl, inr,
}
use ormpindexer.Base.BTreeMap.{BTreeMap, get}
use ormpindexer.Base.Order.{nat_order, text_order}
use ormpindexer.Base.Action.{Action, pure, Keeps, Keeps-pure, Keeps-lift, Keeps-bind}
use ormpindexer.Decoder.Abi.{Packages}
use ormpindexer.Recovery.Rpc.{RpcLog, RpcBlock, RpcTransaction, TronRpc}
use ormpindexer.Recovery.Decode.{
  Scanned, position_of, fetch_block, block_of, transaction_of, check_transaction, normalized,
  decode_log, decode_logs, decode_range,
}
use ormpindexer.Recovery.Scan.{logs, find_logs, after_logs}
use ormpindexer.Schema.Types.{LegacyEvent}

-- What the scan relies on, seen through the next block that the store has recorded: the service's
-- calls leave it alone, and a commit moves it to the block that it is given, if it succeeds.
pub record IsCommitting {W : Type 0} (rpc : TronRpc W)
    (commit : List LegacyEvent → ℕ → Action W (Unit {0})) (recorded : W → ℕ) : Type 0 where
  pub logs_keep : (start end : ℕ) → Keeps recorded (rpc.get_logs start end)
  pub block_keeps : (number : ℕ) → Keeps recorded (rpc.block number)
  pub transaction_keeps : (hash : Text) → Keeps recorded (rpc.transaction hash)
  pub commit_records :
      (events : List LegacyEvent) (next : ℕ) (u : Unit {0}) (w : W)
      → (commit events next w).0 ≡ ok u
      → recorded (commit events next w).1 ≡ next
  pub failed_commit_keeps :
      (events : List LegacyEvent) (next : ℕ) (e : Error) (w : W)
      → (commit events next w).0 ≡ err e
      → recorded (commit events next w).1 ≡ recorded w

Keeps-cached :
    {W A : Type 0} {view : W → ℕ} (o : Option A) (m : Action W A)
    → Keeps view m
    → Keeps view (elim o [ none ↦ m | some a ↦ pure a ])
Keeps-cached none m h = h
Keeps-cached (some a) m h = Keeps-pure a

module _ {W : Type 0} (p : Packages) (rpc : TronRpc W)
    (commit : List LegacyEvent → ℕ → Action W (Unit {0})) (recorded : W → ℕ)
    (laws : IsCommitting rpc commit recorded) where
  logs-Keeps : (start end : ℕ) → Keeps recorded (logs p rpc start end)
  unfolding logs
  logs-Keeps start end =
      Keeps-bind _ _ (laws.logs_keep start end)
        λ found. Keeps-bind _ _ (Keeps-lift _) λ _. Keeps-pure found

  position_of-Keeps :
      (start end : ℕ) (seen : List (ℕ × ℕ)) (log : RpcLog)
      → Keeps recorded (position_of p rpc start end seen log)
  unfolding position_of
  position_of-Keeps start end seen log = Keeps-bind _ _ (Keeps-lift _) λ _.
      Keeps-bind _ _ (Keeps-lift _) λ _. Keeps-bind _ _ (Keeps-lift _) λ _.
        Keeps-bind _ _ (Keeps-lift _)
          λ _. Keeps-bind _ _ (Keeps-lift _) λ _. Keeps-bind _ _ (Keeps-lift _) λ _. Keeps-pure _

  block_of-Keeps :
      (number : ℕ) (blocks : BTreeMap ℕ RpcBlock) → Keeps recorded (block_of p rpc number blocks)
  unfolding block_of fetch_block
  block_of-Keeps number blocks = Keeps-cached (get number blocks) _ (
      Keeps-bind _ _ (laws.block_keeps number)
        λ _. Keeps-bind _ _ (Keeps-lift _) λ _. Keeps-bind _ _ (Keeps-lift _) λ _. Keeps-pure _)

  transaction_of-Keeps :
      (hash : Text) (transactions : BTreeMap Text RpcTransaction)
      → Keeps recorded (transaction_of p rpc hash transactions)
  unfolding transaction_of
  transaction_of-Keeps hash transactions =
      Keeps-cached (get hash transactions) _ (laws.transaction_keeps hash)

  check_transaction-Keeps :
      (number : ℕ) (log : RpcLog) (tx : RpcTransaction)
      → Keeps recorded (check_transaction p rpc number log tx)
  unfolding check_transaction
  check_transaction-Keeps number log tx = Keeps-bind _ _ (Keeps-lift _) λ _.
      Keeps-bind _ _ (Keeps-lift _) λ _. Keeps-bind _ _ (Keeps-lift _) λ _.
        Keeps-bind _ _ (Keeps-lift _) λ _. Keeps-bind _ _ (Keeps-lift _) λ _.
          Keeps-bind _ _ (Keeps-lift _)
            λ _. Keeps-bind _ _ (Keeps-lift _) λ _. Keeps-bind _ _ (Keeps-lift _) λ _. Keeps-lift _

  normalized-Keeps :
      (number index : ℕ) (log : RpcLog) (block : RpcBlock) (tx : RpcTransaction)
      → Keeps recorded (normalized p rpc number index log block tx)
  unfolding normalized
  normalized-Keeps number index log block tx = Keeps-bind _ _ (Keeps-lift _) λ _.
      Keeps-bind _ _ (Keeps-lift _) λ _.
        Keeps-bind _ _ (Keeps-lift _)
          λ _. Keeps-bind _ _ (Keeps-lift _) λ _. Keeps-bind _ _ (Keeps-lift _) λ _. Keeps-pure _

  decode_log-Keeps :
      (start end : ℕ) (s : Scanned) (log : RpcLog)
      → Keeps recorded (decode_log p rpc start end s log)
  unfolding decode_log
  decode_log-Keeps start end s log = Keeps-bind _ _ (position_of-Keeps start end s.seen log) λ at.
      Keeps-bind _ _ (block_of-Keeps at.0 s.blocks) λ block. Keeps-bind _ _ (Keeps-lift _) λ _.
        Keeps-bind _ _ (Keeps-lift _) λ _.
          Keeps-bind _ _ (transaction_of-Keeps log.transaction_hash s.transactions) λ tx.
            Keeps-bind _ _ (check_transaction-Keeps at.0 log tx) λ _.
              Keeps-bind _ _ (normalized-Keeps at.0 at.1 log block tx) λ _.
                Keeps-bind _ _ (Keeps-lift _) λ _. Keeps-bind _ _ (Keeps-lift _) λ _. Keeps-pure _

  decode_logs-Keeps :
      (start end : ℕ) (s : Scanned) (list : List RpcLog)
      → Keeps recorded (decode_logs p rpc start end s list)
  unfolding decode_logs
  decode_logs-Keeps start end s [] = Keeps-pure _
  decode_logs-Keeps start end s (log ∷ rest) =
      Keeps-bind _ _ (decode_log-Keeps start end s log) λ s'. decode_logs-Keeps start end s' rest

  pub decode_range-Keeps :
      (list : List RpcLog) (start end : ℕ) → Keeps recorded (decode_range p rpc list start end)
  unfolding decode_range
  decode_range-Keeps list start end = decode_logs-Keeps start end _ list

  after_logs-kept :
      (cursor last : ℕ) (smaller : Result (ℕ × List RpcLog) × W) (found : Result (List RpcLog))
      (w : W) (next : ℕ)
      → recorded w ≡ next
      → recorded smaller.1 ≡ next
      → recorded (after_logs cursor last smaller found w).1 ≡ next
  unfolding after_logs
  after_logs-kept cursor last smaller (ok found) w next h k = h
  after_logs-kept cursor last smaller (err e) w next h k = elim (Bool-cases (last == cursor)) [
    | inl single ↦ rw single h
    | inr more ↦ rw more k
  ]

  find_logs_kept :
      (rounds cursor last : ℕ) (w : W)
      → recorded (find_logs p rpc rounds cursor last w).1 ≡ recorded w
  unfolding find_logs
  find_logs_kept zero cursor last w = refl
  find_logs_kept (suc rounds) cursor last w =
      let asked = (logs-Keeps cursor last).at w in
      after_logs-kept cursor last _ _ _ (recorded w) asked
        (find_logs_kept rounds cursor (cursor + (last - cursor) / 2) _ ∙ asked)

  pub find_logs-Keeps :
      (rounds cursor last : ℕ) → Keeps recorded (find_logs p rpc rounds cursor last)
  find_logs-Keeps rounds cursor last = record { at = find_logs_kept rounds cursor last }
