-- ===== src/Recovery/Command/DryRun.antt =====
-- A dry run of the recovery command (src/tron_recovery/command.rs) writes nothing.
use ormpindexer.Base.{
  ℕ, zero, suc, ◌≡◌, refl, Bool, true, false, Option, none, some, List, Text, leb, ltb,
  if◌then◌else◌, Error,
}
use ormpindexer.Base.Action.{Action, bail, Keeps, Keeps-pure, Keeps-lift, Keeps-if, Keeps-bind}
use ormpindexer.Decoder.Abi.{Packages}
use ormpindexer.Recovery.Rpc.{TronRpc}
use ormpindexer.Recovery.Command.{
  Args, RecoveryStore, ensure_mainnet, scan_from, without_store, with_pool, execute,
}
use ormpindexer.Recovery.Scan.{scan_range, scan, recover, commit_to, sort_logs}
use ormpindexer.Recovery.Scan.Keeps.{IsCommitting, find_logs-Keeps, decode_range-Keeps}
use ormpindexer.Schema.Types.{LegacyEvent}

-- Every call of the service leaves a part of the world alone.
pub record IsReading {W : Type 0} (rpc : TronRpc W) (recorded : W → ℕ) : Type 0 where
  pub chain_keeps : Keeps recorded rpc.chain_id
  pub head_keeps : Keeps recorded rpc.confirmed_head
  pub logs_keep : (start end : ℕ) → Keeps recorded (rpc.get_logs start end)
  pub block_keeps : (number : ℕ) → Keeps recorded (rpc.block number)
  pub transaction_keeps : (hash : Text) → Keeps recorded (rpc.transaction hash)

taken :
    {W A : Type 0} {view : W → ℕ} (b : Bool) (m n : Action W A)
    → b ≡ true
    → Keeps view m
    → Keeps view (if b then m else n)
taken true m n h k = k
taken false m n h k = cc

module _ {W : Type 0} (p : Packages) (rpc : TronRpc W) (recorded : W → ℕ)
    (laws : IsReading rpc recorded) where
  abbrev never : List LegacyEvent → ℕ → Action W (Unit {0})
  never events next = bail Error.panic

  never-IsCommitting : IsCommitting rpc never recorded
  never-IsCommitting = record {
    logs_keep = laws.logs_keep;
    block_keeps = laws.block_keeps;
    transaction_keeps = laws.transaction_keeps;
    commit_records = λ events next u w h. cc;
    failed_commit_keeps = λ events next e w h. refl;
  }

  scan_range-Keeps :
      (cursor end batch_size : ℕ) → Keeps recorded (scan_range p rpc none cursor end batch_size)
  unfolding scan_range commit_to
  scan_range-Keeps cursor end batch_size =
      Keeps-bind _ _ (find_logs-Keeps p rpc never recorded never-IsCommitting _ cursor _) λ found.
        Keeps-bind _ _
          (decode_range-Keeps p rpc never recorded never-IsCommitting (sort_logs found.1) cursor
            found.0)
          λ events.
            Keeps-bind _ _ (Keeps-lift _) λ next. Keeps-bind _ _ (Keeps-pure _) λ _. Keeps-pure _

  scan-Keeps :
      (rounds cursor end batch_size : ℕ)
      → Keeps recorded (scan p rpc none rounds cursor end batch_size)
  unfolding scan
  scan-Keeps zero cursor end batch_size = record { at = λ w. refl }
  scan-Keeps (suc rounds) cursor end batch_size =
      Keeps-if (leb cursor end) _ _
        (Keeps-bind _ _ (scan_range-Keeps cursor end batch_size)
          λ r. Keeps-bind _ _ (scan-Keeps rounds r.0 end batch_size) λ s. Keeps-pure _)
        (Keeps-pure _)

  scan_from-Keeps :
      (start end batch_size : ℕ) → Keeps recorded (scan_from p rpc none start end batch_size)
  unfolding scan_from recover
  scan_from-Keeps start end batch_size =
      Keeps-if (ltb end start) _ _ (Keeps-pure _)
        (Keeps-bind _ _ (scan-Keeps _ start end batch_size) λ counts. Keeps-pure _)

  without_store-Keeps : (args : Args) (end : ℕ) → Keeps recorded (without_store p rpc args end)
  unfolding without_store
  without_store-Keeps args end =
      Keeps-bind _ _ (Keeps-lift _) λ _. scan_from-Keeps args.from_block end args.batch_size

  with_pool-Keeps :
      (pool : Option (RecoveryStore W)) (args : Args) (end : ℕ)
      → args.dry_run ≡ true
      → Keeps recorded (with_pool p rpc pool args end)
  unfolding with_pool
  with_pool-Keeps none args end dry = without_store-Keeps args end
  with_pool-Keeps (some store) args end dry =
      taken args.dry_run _ _ dry (without_store-Keeps args end)

  -- Where the calls of the service leave what is recorded alone, a dry run of the command leaves it
  -- alone too, however it ends, and whatever the store would do that it is given.
  pub execute-Keeps :
      (args : Args) (pool : Option (RecoveryStore W))
      → args.dry_run ≡ true
      → Keeps recorded (execute p rpc args pool)
  unfolding execute ensure_mainnet
  execute-Keeps args pool dry = Keeps-bind _ _ (Keeps-lift _) λ _.
      Keeps-bind _ _
        (Keeps-bind _ _ laws.chain_keeps
          λ _. Keeps-bind _ _ (Keeps-lift _) λ _. Keeps-bind _ _ (Keeps-lift _) λ _. Keeps-lift _)
        λ _. Keeps-bind _ _ laws.head_keeps λ head. Keeps-bind _ _ (Keeps-lift _) λ _.
          Keeps-bind _ _ (Keeps-lift _)
            λ _. Keeps-bind _ _ (Keeps-lift _) λ _. with_pool-Keeps pool args _ dry
