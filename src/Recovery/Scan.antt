-- ===== src/Recovery/Scan.antt =====
-- The scan over the blocks (`recover` of src/tron_recovery/scan.rs): ranges of logs that shrink on a
-- failure, and the commit of each range before the next.
pub mod Progress
pub mod Keeps
pub mod Committed
use ormpindexer.Base.{
  ℕ, zero, suc, ◌+◌, ◌-◌, ◌/◌, min, ◌&&◌, ◌||◌, not, Bool, true, false, Option, none, some, List,
  [], ◌∷◌, ◌++◌, Text, codes, text_eq, to_ascii_lowercase, eq_ignore_ascii_case, leb, ltb, ◌==◌,
  if◌then◌else◌, any, length, u64_max, i32_max, saturating_add, checked_add, Result, ok, err, Error,
  ensure, context, get_elem?,
}
use ormpindexer.Base.Action.{Action, pure, lift, bail, ◌>>=◌, ◌>>◌}
use ormpindexer.Base.BTreeMap.{BTreeMap, get, insert}
use ormpindexer.Base.Order.{nat_order, text_order}
use ormpindexer.Datalens.Types.{DatalensLog}
use ormpindexer.Decoder.Abi.{Packages}
use ormpindexer.Decoder.Evm.{decode_evm_log}
use ormpindexer.Planner.{
  msgport_message_sent_topic, ormp_message_accepted_topic, ormp_message_assigned_topic,
}
use ormpindexer.Recovery.Rpc.{
  tron_chain_id, ormp, msgport, RpcLog, RpcBlock, RpcTransaction, hex_u64, quantity, text, TronRpc,
}
use ormpindexer.Schema.Ids.{digits}
use ormpindexer.Schema.Types.{LegacyEvent, message_accepted}
use ormpindexer.Recovery.Decode.{decode_range}

-- `unwrap_or(u64::MAX)`
abbrev pub or_max : Result ℕ → ℕ
or_max (ok n) = n
or_max (err e) = u64_max

abbrev pub sort_key : RpcLog → ℕ × ℕ × ℕ
sort_key log = (
  or_max (hex_u64 log.block_number),
  or_max (hex_u64 log.transaction_index),
  or_max (hex_u64 log.log_index),
)

abbrev pub key_le : ℕ × ℕ × ℕ → ℕ × ℕ × ℕ → Bool
key_le (a, b, c) (x, y, z) = ltb a x || (a == x && (ltb b y || (b == y && leb c z)))

-- `sort_by_key`, which is stable.
unfoldable pub place_log : RpcLog → List RpcLog → List RpcLog
place_log log [] = log ∷ []
place_log log (next ∷ rest) =
    let on = place_log log rest in
    if key_le (sort_key log) (sort_key next) then log ∷ next ∷ rest else next ∷ on

unfoldable pub sort_logs : List RpcLog → List RpcLog
sort_logs [] = []
sort_logs (log ∷ rest) = place_log log (sort_logs rest)

-- `if let Some(store) = store { store.commit(…) }`
unfoldable pub commit_to :
    {W : Type 0}
    → Option (List LegacyEvent → ℕ → Action W (Unit {0}))
    → List LegacyEvent
    → ℕ
    → Action W (Unit {0})
commit_to none events next = pure tt
commit_to (some commit) events next = commit events next

-- What follows the answer for a range: `smaller` is the loop on the first half of it.
unfoldable pub after_logs :
    {W : Type 0}
    → ℕ
    → ℕ
    → Result (ℕ × List RpcLog) × W
    → Result (List RpcLog)
    → W
    → Result (ℕ × List RpcLog) × W
after_logs cursor range_end smaller (ok found) w = (ok (range_end, found), w)
after_logs cursor range_end smaller (err e) w = if range_end == cursor then (err e, w) else smaller

module _ {W : Type 0} (p : Packages) (rpc : TronRpc W) where
  -- `TronRpc::logs`: an answer of 10,000 logs or more may have been cut off.
  unfoldable pub logs : ℕ → ℕ → Action W (List RpcLog)
  logs start end = do
    found ← rpc.get_logs start end
    lift (ensure (ltb (length found) 10000) Error.truncated)
    pure found

  -- The inner loop: a range that fails is halved, down to a single block, which fails the scan.
  unfoldable pub find_logs : ℕ → ℕ → ℕ → Action W (ℕ × List RpcLog)
  unfolding after_logs
  find_logs zero cursor range_end w = (err Error.out_of_fuel, w)
  find_logs (suc rounds) cursor range_end w =
      let (found, w') = logs cursor range_end w in
      let smaller = find_logs rounds cursor (cursor + (range_end - cursor) / 2) w' in
      after_logs cursor range_end smaller found w'

  -- One round of the scan: the next cursor and the number of events.
  unfoldable pub scan_range :
      Option (List LegacyEvent → ℕ → Action W (Unit {0})) → ℕ → ℕ → ℕ → Action W (ℕ × ℕ)
  scan_range store cursor end batch_size = do
    let last = min (saturating_add cursor (batch_size - 1)) end
    found ← find_logs (suc (last - cursor)) cursor last
    events ← decode_range p rpc (sort_logs found.1) cursor found.0
    next ← lift (context (checked_add found.0 1) Error.range_overflow)
    commit_to store events next
    pure (next, length events)

  -- The scan from a cursor on: how many ranges and events there are.
  unfoldable pub scan :
      Option (List LegacyEvent → ℕ → Action W (Unit {0})) → ℕ → ℕ → ℕ → ℕ → Action W (ℕ × ℕ)
  scan store zero cursor end batch_size = bail Error.out_of_fuel
  scan store (suc rounds) cursor end batch_size =
      if leb cursor end
      then (do
        (next, count) ← scan_range store cursor end batch_size
        (ranges, counted) ← scan store rounds next end batch_size
        pure (suc ranges, count + counted))
      else pure (0, 0)

  -- Every round moves the cursor up by one block or more.
  unfoldable pub recover :
      Option (List LegacyEvent → ℕ → Action W (Unit {0})) → ℕ → ℕ → ℕ → Action W (ℕ × ℕ)
  recover store start end batch_size = scan store (suc (suc end - start)) start end batch_size
