-- ===== src/Recovery/Scan/Progress.antt =====
-- How far the scan comes, and what it has committed then (`recover` of src/tron_recovery/scan.rs).
use ormpindexer.Base.{
  ℕ, zero, suc, ◌+◌, ◌-◌, ◌/◌, ◌≤◌, ◌<◌, ◌≡◌, ◌≢◌, refl, true, List, ◌==◌, ==→≡, ==→≢, Result, ok,
  err, is_ok, Bool-cases, Result-cases, inl, inr, arith,
}
use ormpindexer.Decoder.Abi.{Packages}
use ormpindexer.Recovery.Rpc.{RpcLog, TronRpc}
use native.Mathlib.Nat.{le_refl, le_trans}
use ormpindexer.Recovery.Scan.{after_logs, logs, find_logs}

-- The range of the logs that the inner loop returns.
abbrev pub Inside : ℕ → ℕ → Result (ℕ × List RpcLog) → Type 0
Inside cursor last (ok found) = cursor ≤ found.0 × found.0 ≤ last
Inside cursor last (err e) = Unit

Inside-le :
    (cursor mid last : ℕ) (r : Result (ℕ × List RpcLog))
    → mid ≤ last
    → Inside cursor mid r
    → Inside cursor last r
Inside-le cursor mid last (ok found) h k = (k.0, le_trans k.1 h)
Inside-le cursor mid last (err e) h k = tt

module _ {W : Type 0} (p : Packages) (rpc : TronRpc W) where
  after_logs-Inside :
      (cursor last : ℕ) (smaller : Result (ℕ × List RpcLog) × W) (found : Result (List RpcLog))
      (w : W)
      → cursor ≤ last
      → Inside cursor last smaller.0
      → Inside cursor last (after_logs cursor last smaller found w).0
  unfolding after_logs
  after_logs-Inside cursor last smaller (ok found) w h k = (h, le_refl last)
  after_logs-Inside cursor last smaller (err e) w h k = elim (Bool-cases (last == cursor)) [
    | inl single ↦ rw single tt
    | inr more ↦ rw more k
  ]

  pub find_logs-Inside :
      (rounds cursor last : ℕ) (w : W)
      → cursor ≤ last
      → Inside cursor last (find_logs p rpc rounds cursor last w).0
  unfolding find_logs
  find_logs-Inside zero cursor last w h = tt
  find_logs-Inside (suc rounds) cursor last w h = after_logs-Inside cursor last _ _ _ h (
      Inside-le cursor (cursor + (last - cursor) / 2) last _ (omega arith)
        (find_logs-Inside rounds cursor (cursor + (last - cursor) / 2) _ (omega arith)))

  after_logs-served :
      (cursor last : ℕ) (smaller : Result (ℕ × List RpcLog) × W) (found : Result (List RpcLog))
      (w : W)
      → (last ≡ cursor → is_ok found ≡ true)
      → (last ≢ cursor → is_ok smaller.0 ≡ true)
      → is_ok (after_logs cursor last smaller found w).0 ≡ true
  unfolding after_logs
  after_logs-served cursor last smaller (ok found) w h k = refl
  after_logs-served cursor last smaller (err e) w h k = elim (Bool-cases (last == cursor)) [
    | inl single ↦ let impossible = h (==→≡ last cursor single) in cc
    | inr more ↦ rw more (k (==→≢ last cursor more))
  ]

  find_logs-served :
      (rounds cursor last : ℕ) (w : W)
      → ((w : W) → is_ok (logs p rpc cursor cursor w).0 ≡ true)
      → cursor ≤ last
      → last - cursor < rounds
      → is_ok (find_logs p rpc rounds cursor last w).0 ≡ true
  unfolding find_logs
  find_logs-served zero cursor last w served h enough = absurd (omega arith)
  find_logs-served (suc rounds) cursor last w served h enough =
      after_logs-served cursor last _ _ _ (λ single. rw single (served w))
        λ more.
          find_logs-served rounds cursor (cursor + (last - cursor) / 2) _ served (omega arith)
            (omega arith)

  -- Where the service answers every request for a single block, whatever it does with longer ranges:
  -- the inner loop ends with the logs of a range that starts at the cursor and is not empty.
  pub find_logs_lem :
      (rounds cursor last : ℕ) (w : W)
      → ((w : W) → is_ok (logs p rpc cursor cursor w).0 ≡ true)
      → cursor ≤ last
      → last - cursor < rounds
      → (end : ℕ) × (list : List RpcLog) × ((find_logs p rpc rounds cursor last w).0
          ≡ ok (end, list))
        × cursor ≤ end
        × end ≤ last
  find_logs_lem rounds cursor last w served h enough =
      let done = find_logs-served rounds cursor last w served h enough in
      let inside = find_logs-Inside rounds cursor last w h in
      elim (Result-cases (find_logs p rpc rounds cursor last w).0) [
        | inl ((end, list), found) ↦
            let within : Inside cursor last (ok (end, list)) = rw found at inside in
            (end, list, found, within.0, within.1)
        | inr (e, failed) ↦
            let impossible : is_ok {A = ℕ × List RpcLog} (err e) ≡ true = rw failed at done in cc
      ]
