-- ===== src/Datalens/Client/Cursors.antt =====
-- The loop over the pages of an answer and what the client returns (src/datalens/client.rs).
use ormpindexer.Base.{
  ◌⊎◌, ℕ, zero, suc, ◌≤◌, ◌<◌, ◌≡◌, refl, sym, Bool, true, false, Option, none, some, List, [], ◌∷◌,
  ◌++◌, Text, text_eq_refl, All, Among, here, later, if◌then◌else◌, ok, err, Error, Bool-cases,
  Result-cases, inl, inr, arith, context, >>=-err, context-err,
}
use ormpindexer.Base.Action.{Ensures-pure, Ensures-bind}
use ormpindexer.Datalens.Attempts.{QueryPage, CallError, Attempt, page, failed}
use ormpindexer.Datalens.Types.{DatalensLogQuery, DatalensLogQueryResult}
use ormpindexer.Datalens.Wire.{Json, QueryBody, with_cursor, parse_query_page}
use ormpindexer.Datalens.Wire.Served.{IsServed, logs_from_page-IsServed}
use ormpindexer.Datalens.Client.{
  not_sent, retryable, answered, no_body, Request, Response, Sent, body, refused, contains,
  turn_page, send_once, post, query_pages, query_logs, fatal,
}

module _ {W : Type 0} (json : Json) (send : Request → W → Response × W) where
  -- Every log that the client returns is of the chain that was asked for, in a block that the answer
  -- has served.
  pub query_logs-IsServed :
      (rounds max_attempts : ℕ) (query : DatalensLogQuery) (w : W) (r : DatalensLogQueryResult)
      → (query_logs json send rounds max_attempts query w).0 ≡ ok r
      → All (IsServed r.served_start r.served_end query.chain_id) r.logs
  unfolding query_logs
  query_logs-IsServed rounds max_attempts query w =
      (Ensures-bind _ _ w λ request found. Ensures-bind _ _ w λ p answered.
        Ensures-bind _ _ _ λ logs read.
          Ensures-pure {P = λ r _. All (IsServed r.served_start r.served_end query.chain_id) r.logs}
            _ _ (logs_from_page-IsServed json p query.chain_id logs read)).holds

-- How many of the cursors have not been seen.
abbrev unseen : List Text → List Text → ℕ
unseen [] seen = 0
unseen (cursor ∷ cursors) seen =
    if contains cursor seen then unseen cursors seen else suc (unseen cursors seen)

unseen_le : (cursors seen : List Text) (c : Text) → unseen cursors (c ∷ seen) ≤ unseen cursors seen
unseen_le [] seen c = omega arith
unseen_le (cursor ∷ cursors) seen c = ground (arith, unseen_le cursors seen c)

unseen_drops :
    (cursors seen : List Text) (c : Text)
    → Among c cursors
    → contains c seen ≡ false
    → unseen cursors (c ∷ seen) < unseen cursors seen
unseen_drops [] seen c m new = elim m [ ]
unseen_drops (cursor ∷ cursors) seen c (here e) new =
    let seen_now : contains cursor (c ∷ seen) ≡ true = rw (← e) (ground (arith, text_eq_refl c)) in
    let new' : contains cursor seen ≡ false = rw (← e) new in
    ground (arith, unseen_le cursors seen c)
unseen_drops (cursor ∷ cursors) seen c (later m) new =
    ground (arith, unseen_drops cursors seen c m new)

-- Every cursor that the service hands out is one of these.
pub record HandsOut {W : Type 0} (json : Json) (send : Request → W → Response × W)
    (cursors : List Text) : Type 0 where
  pub known :
      (request : QueryBody) (w : W) (text cursor : Text) (p : QueryPage)
      → send_once (send (post request) w).0 ≡ body text
      → parse_query_page json text ≡ ok p
      → p.next_cursor ≡ some cursor
      → Among cursor cursors

-- The loop was given too few rounds.
abbrev pub is_out_of_fuel : Attempt → Bool
is_out_of_fuel (page p) = false
is_out_of_fuel (failed e) = elim e.detail [ Error.out_of_fuel ↦ true | _ ↦ false ]

refused_detail : {e x : CallError} → refused x ≡ refused e → x.detail ≡ e.detail
refused_detail h = cc

status_failure :
    (success busy : Bool) (delay : Option ℕ) (text : Text) (e : CallError)
    → (if success
        then body text
        else if busy
        then refused (retryable delay Error.remote)
        else refused (fatal Error.remote))
      ≡ refused e
    → Error.remote ≡ e.detail
status_failure true busy delay text e h = cc
status_failure false true delay text e h = refused_detail h
status_failure false false delay text e h = refused_detail h

sent_failure :
    (response : Response) (e : CallError) → send_once response ≡ refused e → Error.remote ≡ e.detail
unfolding send_once
sent_failure not_sent e h = refused_detail h
sent_failure (no_body delay) e h = refused_detail h
sent_failure (answered status delay text) e h = status_failure _ _ delay text e h

Sent-cases : (s : Sent) → ((text : Text) × (s ≡ body text)) ⊎ ((e : CallError) × (s ≡ refused e))
Sent-cases (body text) = inl (text, refl)
Sent-cases (refused e) = inr (e, refl)

module _ {W : Type 0} (json : Json) (send : Request → W → Response × W) where
  parse_failure :
      (text : Text) (e : Error) → parse_query_page json text ≡ err e → e ≡ Error.invalid_answer
  unfolding parse_query_page
  parse_failure text e h = elim (>>=-err (context (json.query text) Error.invalid_answer) _ e h) [
    | inl h' ↦ sym (context-err (json.query text) Error.invalid_answer e h')
    | inr (wire, found, impossible) ↦ cc
  ]

  page_turned :
      (next : QueryBody → List Text → List Text → W → Attempt × W) (request : QueryBody)
      (seen rows : List Text) (p : QueryPage) (w : W) (o : Option Text)
      → p.next_cursor ≡ o
      → ((cursor : Text)
          → o ≡ some cursor
          → contains cursor seen ≡ false
          → is_out_of_fuel (next (with_cursor request cursor) (cursor ∷ seen) (rows ++ p.rows) w).0
            ≡ false)
      → is_out_of_fuel (turn_page json send next request seen rows (ok p) w).0 ≡ false
  unfolding turn_page
  page_turned next request seen rows p w none e h = rw e refl
  page_turned next request seen rows p w (some cursor) e h =
      elim (Bool-cases (contains cursor seen)) [
        | inl repeated ↦ rw e (rw repeated refl)
        | inr new ↦ rw e (rw new (h cursor refl new))
      ]

  none_below : {n : ℕ} → n < 0 → ⊥
  none_below h = omega arith

  -- Where every cursor that the service hands out is in a list: a loop with more rounds than the list
  -- has cursors that were not seen yet never runs out of rounds, whatever else the service answers.
  pub query_pages-fuel :
      (cursors : List Text)
      → HandsOut json send cursors
      → (rounds : ℕ) (request : QueryBody) (seen rows : List Text) (w : W)
      → unseen cursors seen < rounds
      → is_out_of_fuel (query_pages json send rounds request seen rows w).0 ≡ false
  unfolding query_pages turn_page
  query_pages-fuel cursors k zero request seen rows w h = elim (none_below h) [ ]
  query_pages-fuel cursors k (suc rounds) request seen rows w h =
      let (response, w') = send (post request) w in
      elim (Sent-cases (send_once (send (post request) w).0)) [
        | inr (e, lost) ↦ rw lost (rw (← sent_failure (send (post request) w).0 e lost) refl)
        | inl (text, came) ↦ rw came (elim (Result-cases (parse_query_page json text)) [
          | inr (e, unread) ↦ rw unread (rw (parse_failure text e unread) refl)
          | inl (p, read) ↦ rw read (
              page_turned (query_pages json send rounds) request seen rows p _ p.next_cursor refl
                λ cursor more new.
                  let drops =
                    unseen_drops cursors seen cursor
                      (k.known request w text cursor p came read more) new in
                  query_pages-fuel cursors k rounds _ _ _ _ (omega (arith, drops, h)))
        ])
      ]
