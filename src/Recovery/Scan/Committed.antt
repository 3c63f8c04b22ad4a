-- ===== src/Recovery/Scan/Committed.antt =====
-- What the scan has committed when it ends (`recover` of src/tron_recovery/scan.rs).
use ormpindexer.Base.{ℕ, ◌+◌, ◌≤◌, ◌<◌, ◌≡◌, List, Result, ok, err}
use ormpindexer.Base.Action.{Action}
use ormpindexer.Decoder.Abi.{Packages}
use ormpindexer.Recovery.Rpc.{TronRpc}
use ormpindexer.Recovery.Scan.Keeps.{IsCommitting}
use ormpindexer.Schema.Types.{LegacyEvent}

module _ {W : Type 0} (p : Packages) (rpc : TronRpc W)
    (commit : List LegacyEvent → ℕ → Action W (Unit {0})) (recorded : W → ℕ)
    (laws : IsCommitting rpc commit recorded) where
  -- After a round: the next block is recorded, or the cursor is still.
  abbrev AfterRound : ℕ → ℕ → Result (ℕ × ℕ) → W → Type 0
  AfterRound cursor end (ok (next, count)) w' = recorded w' ≡ next × cursor < next × next ≤ end + 1
  AfterRound cursor end (err e) w' = recorded w' ≡ cursor

  -- After the scan: the block behind the end is recorded, or a block of the range, at which the scan
  -- has failed.
  abbrev pub Committed : ℕ → ℕ → Result (ℕ × ℕ) → W → Type 0
  Committed start end (ok counts) w' = recorded w' ≡ end + 1
  Committed start end (err e) w' = start ≤ recorded w' × recorded w' ≤ end
