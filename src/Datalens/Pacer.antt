-- ===== src/Datalens/Pacer.antt =====
-- The pacing of requests (`wait_for_request_slot` of src/datalens/client.rs). Several tasks share the
-- instant of the last request under a lock, so that their rounds of the loop are a sequence. The
-- clock never runs backwards. Instants are milliseconds.
use ormpindexer.Base.{
  le_refl, ℕ, ◌+◌, ◌-◌, ◌≤◌, ◌≡◌, refl, Bool, true, false, Option, none, some, List, [], ◌∷◌, leb,
  leb→le, if◌then◌else◌, arith,
}

-- One round of the loop: when it reads the clock, and when it stores the instant of its request.
pub record Round : Type 0 where
  pub looked : ℕ
  pub stored : ℕ

-- The delay that the round is left with, if any, and the instant of the last request then.
unfoldable pub take_slot : ℕ → Option ℕ → Round → Option ℕ × Option ℕ
take_slot min_interval none round = (none, some round.stored)
take_slot min_interval (some last_started_at) round =
    let elapsed = round.looked - last_started_at in
    if leb min_interval elapsed
    then (none, some round.stored)
    else (some (min_interval - elapsed), some last_started_at)

-- A round without a delay starts its request.
abbrev pub started : Option ℕ → ℕ → List ℕ → List ℕ
started none stored rest = stored ∷ rest
started (some delay) stored rest = rest

-- The instants at which requests start, for a sequence of rounds. Without an interval each call
-- returns at once.
unfoldable pub request_starts : ℕ → Option ℕ → List Round → List ℕ
unfolding take_slot
request_starts min_interval last [] = []
request_starts min_interval last (round ∷ rounds) =
    let (delay, last') = take_slot min_interval last round in
    started delay round.stored (request_starts min_interval last' rounds)

-- Each round stores after it looks, and before the next round looks.
abbrev pub InOrder : ℕ → List Round → Type 0
InOrder now [] = Unit
InOrder now (round ∷ rounds) =
    now ≤ round.looked × round.looked ≤ round.stored × InOrder round.stored rounds

-- Each start is at least the interval behind the one before.
abbrev pub Spaced : ℕ → Option ℕ → List ℕ → Type 0
Spaced min_interval last [] = Unit
Spaced min_interval none (start ∷ starts) = Spaced min_interval (some start) starts
Spaced min_interval (some last) (start ∷ starts) =
    last + min_interval ≤ start × Spaced min_interval (some start) starts

abbrev Before : ℕ → Option ℕ → Type 0
Before now none = Unit
Before now (some last) = last ≤ now

Spaced-step :
    (min_interval last delay : ℕ) (free : Bool) (round : Round) (rounds : List Round)
    → (free ≡ true
        → last + min_interval ≤ round.stored
          × Spaced min_interval
              (some round.stored)
              (request_starts min_interval (some round.stored) rounds))
    → (free ≡ false
        → Spaced min_interval (some last) (request_starts min_interval (some last) rounds))
    → (let slot : Option ℕ × Option ℕ =
          if free then (none, some round.stored) else (some delay, some last) in
        Spaced min_interval
          (some last)
          (started slot.0 round.stored (request_starts min_interval slot.1 rounds)))
Spaced-step min_interval last delay true round rounds h k = h refl
Spaced-step min_interval last delay false round rounds h k = k refl

starts-Spaced :
    (min_interval now : ℕ) (last : Option ℕ) (rounds : List Round)
    → Before now last
    → InOrder now rounds
    → Spaced min_interval last (request_starts min_interval last rounds)
unfolding request_starts take_slot
starts-Spaced min_interval now last [] b h = tt
starts-Spaced min_interval now none (round ∷ rounds) b (l, s, h) =
    starts-Spaced min_interval round.stored (some round.stored) rounds (le_refl round.stored) h
starts-Spaced min_interval now (some last) (round ∷ rounds) b (l, s, h) =
    Spaced-step min_interval last _ (leb min_interval (round.looked - last)) round rounds
      (λ free.
        let waited = leb→le min_interval (round.looked - last) free in
        (
          omega arith,
          starts-Spaced min_interval round.stored (some round.stored) rounds (le_refl round.stored)
              h,
        ))
      λ early. starts-Spaced min_interval round.stored (some last) rounds (omega arith) h

-- Whatever the tasks do: where their rounds follow each other in time, the requests start at least
-- the interval apart.
pub request_starts-Spaced :
    (min_interval now : ℕ) (rounds : List Round)
    → InOrder now rounds
    → Spaced min_interval none (request_starts min_interval none rounds)
request_starts-Spaced min_interval now rounds h = starts-Spaced min_interval now none rounds tt h
