-- ===== src/Runner/Reports/Backoff.antt =====
-- The pauses of a chain's loop (`failure_backoff`, `run_chain_loop` of src/runner.rs).
use ormpindexer.Base.{
  ◌⊎◌, inl, inr, dec_le, ℕ, zero, suc, ◌+◌, ◌-◌, ◌*◌, ◌^◌, ◌≤◌, min, max, ◌≡◌, refl, arith,
}
use native.Mathlib.Nat.{le-mul_of_pos_right, mul_left_comm}
use ormpindexer.Runner.Reports.{failure_backoff}

pow_pos : (k : ℕ) → 1 ≤ 2 ^ k
pow_pos zero = omega arith
pow_pos (suc k) = omega (arith, pow_pos k)

pow_mono : (j k : ℕ) → j ≤ k → 2 ^ j ≤ 2 ^ k
pow_mono zero k h = pow_pos k
pow_mono (suc j) zero h = absurd (omega arith)
pow_mono (suc j) (suc k) h = omega (arith, pow_mono j k (omega arith))

-- The widths of the numbers do not matter: the pause is below them.
backoff_plain : (poll k : ℕ) → failure_backoff poll k ≡ min (max poll 1 * 2 ^ min (k - 1) 10) 60000
unfolding failure_backoff
backoff_plain poll k = omega arith

times_at_least : (m p : ℕ) → 1 ≤ p → m ≤ m * p
times_at_least m p h = le-mul_of_pos_right m h

-- One failure more, with the exponent `e` below the last.
backoff_doubles :
    (poll e : ℕ)
    → min (max poll 1 * 2 ^ suc e) 60000 ≡ min (2 * min (max poll 1 * 2 ^ e) 60000) 60000
backoff_doubles poll e =
    let step : 2 ^ suc e ≡ 2 * 2 ^ e = omega arith in
    let same : max poll 1 * 2 ^ suc e ≡ 2 * (max poll 1 * 2 ^ e) =
      rw step (mul_left_comm (max poll 1) 2 (2 ^ e)) in
    omega (arith, same)

-- The pause behind the `k`th failure in a row lies between a millisecond and a minute, and is a minute
-- or at least the poll interval; behind the first failure it is the poll interval, brought between
-- those bounds; with each further failure it doubles, up to the minute, and from the eleventh on it
-- stays the same.
pub failure_backoff_lem :
    (poll k : ℕ)
    → 1 ≤ k
    → (1 ≤ failure_backoff poll k)
      × (failure_backoff poll k ≤ 60000)
      × (min poll 60000 ≤ failure_backoff poll k)
      × (failure_backoff poll 1 ≡ min (max poll 1) 60000)
      × (((k ≤ 10) × (failure_backoff poll (k + 1) ≡ min (2 * failure_backoff poll k) 60000))
          ⊎ ((11 ≤ k) × (failure_backoff poll (k + 1) ≡ failure_backoff poll k)))
unfolding failure_backoff
failure_backoff_lem poll k pos =
    let least = times_at_least (max poll 1) (2 ^ min (k - 1) 10) (pow_pos (min (k - 1) 10)) in
    (
      rw (backoff_plain poll k) (omega (arith, least)),
      rw (backoff_plain poll k) (omega (arith, least)),
      rw (backoff_plain poll k) (omega (arith, least)),
      rw (backoff_plain poll 1) (omega arith),
      elim (dec_le k 10) [
        | yes few ↦
            let now : min (k - 1) 10 ≡ k - 1 = omega arith in
            let then : min (k + 1 - 1) 10 ≡ suc (k - 1) = omega arith in
            inl (
              few,
              rw (backoff_plain poll (k + 1), backoff_plain poll k, now, then)
                  (backoff_doubles poll (k - 1)),
            )
        | no many ↦
            let same : min (k + 1 - 1) 10 ≡ min (k - 1) 10 = omega arith in
            inr (omega arith, rw (backoff_plain poll (k + 1), backoff_plain poll k, same) refl)
      ],
    )
