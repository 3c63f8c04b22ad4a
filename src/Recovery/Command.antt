-- ===== src/Recovery/Command.antt =====
-- The recovery command (`execute` of src/tron_recovery/command.rs). The store is a parameter: its lock,
-- its check of the message before, its checkpoint and its commit. Log lines are left out.
pub mod DryRun
use ormpindexer.Base.{
  ℕ, ◌+◌, Bool, true, false, Option, none, some, List, Text, leb, ltb, ◌==◌, if◌then◌else◌, u64_max,
  Result, ok, err, Error, ensure, context,
}
use ormpindexer.Base.Action.{Action, pure, lift, ◌>>=◌, ◌>>◌}
use ormpindexer.Decoder.Abi.{Packages}
use ormpindexer.Recovery.Rpc.{tron_chain_id, TronRpc, hex_u64}
use ormpindexer.Recovery.Scan.{recover}
use ormpindexer.Schema.Types.{LegacyEvent}

pub record Args : Type 0 where
  pub from_block : ℕ
  pub to_block : Option ℕ
  pub batch_size : ℕ
  pub dry_run : Bool

-- `lock` says whether no other recovery is running.
pub record RecoveryStore (W : Type 0) : Type 0 where
  pub lock : Action W Bool
  pub check_preceding_message : Action W (Unit {0})
  pub next_block : ℕ → Action W ℕ
  pub commit : List LegacyEvent → ℕ → Action W (Unit {0})

pub data Ending : Type 0 where
  already_running : Ending
  caught_up : Ending
  recovered : ℕ → ℕ → Ending

abbrev pub end_of : Option ℕ → ℕ → ℕ
end_of none confirmed_head = confirmed_head
end_of (some end) confirmed_head = end

abbrev pub starts_before : Args → ℕ → Bool
starts_before args end = elim args.to_block [
  | none ↦ true
  | some to_block ↦ leb args.from_block end
]

module _ {W : Type 0} (p : Packages) (rpc : TronRpc W) where
  unfoldable pub ensure_mainnet : Action W (Unit {0})
  ensure_mainnet = do
    answer ← rpc.chain_id
    chain ← lift (context answer Error.missing_field)
    number ← lift (hex_u64 chain)
    lift (ensure (number == tron_chain_id) Error.unsupported_chain)

  unfoldable pub scan_from :
      Option (List LegacyEvent → ℕ → Action W (Unit {0})) → ℕ → ℕ → ℕ → Action W Ending
  scan_from commit start end batch_size =
      let all = do
        counts ← recover p rpc commit start end batch_size
        pure (recovered counts.0 counts.1)
      in if ltb end start then pure caught_up else all

  -- With the lock of the store.
  unfoldable pub locked_scan : RecoveryStore W → ℕ → ℕ → ℕ → Action W Ending
  unfolding scan_from
  locked_scan store from_block end batch_size = do
    store.check_preceding_message
    start ← store.next_block from_block
    scan_from (some store.commit) start end batch_size

  unfoldable pub with_store : RecoveryStore W → ℕ → ℕ → ℕ → Action W Ending
  unfolding locked_scan
  with_store store from_block end batch_size = do
    locked ← store.lock
    if locked then locked_scan store from_block end batch_size else pure already_running

  -- Without a store only a dry run goes on.
  unfoldable pub without_store : Args → ℕ → Action W Ending
  unfolding scan_from
  without_store args end = do
    lift (ensure args.dry_run Error.not_configured)
    scan_from none args.from_block end args.batch_size

  -- `pool.filter(|_| !args.dry_run)`
  unfoldable pub with_pool : Option (RecoveryStore W) → Args → ℕ → Action W Ending
  unfolding with_store without_store
  with_pool none args end = without_store args end
  with_pool (some store) args end =
      if args.dry_run
      then without_store args end
      else with_store store args.from_block end args.batch_size

  unfoldable pub execute : Args → Option (RecoveryStore W) → Action W Ending
  execute args pool = do
    lift (ensure (ltb 0 args.batch_size) Error.batch_size_zero)
    ensure_mainnet
    confirmed_head ← rpc.confirmed_head
    lift (ensure (ltb (end_of args.to_block confirmed_head) u64_max) Error.range_overflow)
    lift (ensure (leb (end_of args.to_block confirmed_head) confirmed_head) Error.unconfirmed_end)
    lift (ensure (starts_before args (end_of args.to_block confirmed_head)) Error.range_reversed)
    with_pool pool args (end_of args.to_block confirmed_head)
