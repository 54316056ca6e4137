-- ===== src/Idempotency/Replay.antt =====
-- A repeat of a request with an `Idempotency-Key`, in idempotency.rs, gets the stored response.
use mandrake.Common.{
  ◌≤◌, ◌<◌, ◌/◌, ◌≢◌, find?, ◌≡◌, sym, ap, ◌∙◌, true, false, List, Option, none, some, arith,
  length,
}
use mandrake.Common.Text.{Text, same_text, codes}
use mandrake.Core.Time.{Timestamp, second}
use mandrake.Core.Role.{Ident}
use mandrake.Core.Problem.{Problem}
use mandrake.Daemon.Store.{App}
use mandrake.Daemon.Handler.{Result, ok}
use mandrake.Auth.External.{External}
use mandrake.Auth.Extract.{Auth, authenticate}
use mandrake.Idempotency.{
  Bytes, body_limit, Request, Response, Stored, Row, State, lookup, is_row, mismatch,
  is_server_error, key_of, body_hash, stored_of, store, replay, layer,
}
use mandrake.Idempotency.Rows.{find-replace, is_row-own}
use mandrake.Idempotency.Sweep.{last_second, KeepsOrder}
use mandrake.Idempotency.Kept.{Event, AreWithin, serve, serve-row}

module _ (ext : External) (digest : Bytes → Bytes) (from_str : Text → Option Bytes)
    (into_response : Problem → Response) where
  abbrev run : (Request → App → Response × App) → Timestamp → Request → State → Response × State
  run next = layer ext digest from_str into_response next

  abbrev key_in : Request → Option Text
  key_in req = key_of ext digest from_str into_response req.parts

  abbrev let_in : Timestamp → Request → State → Result Auth × App
  let_in now req s = authenticate ext now req.parts s.app

  abbrev kept : Timestamp → Option Ident → Text → Request → Response → Row
  kept now actor key req r = record {
    actor_key = actor;
    key = key;
    stored =
        stored_of ext digest from_str into_response
          (body_hash ext digest from_str into_response req.body) r;
    created_at = now;
  }

  -- A first request with a key stores its answer.
  first_stored :
      (next : Request → App → Response × App) (now : Timestamp) (req : Request) (s : State)
      (key : Text) (auth : Auth)
      → same_text req.parts.method (codes "POST") ≡ true
      → key_in req ≡ some key
      → (let_in now req s).0 ≡ ok auth
      → length req.body ≤ body_limit
      → lookup auth.actor.id key s.rows ≡ none
      → is_server_error (next req (let_in now req s).1).0.status ≡ false
      → length (next req (let_in now req s).1).0.body ≤ body_limit
      → find? (is_row auth.actor.id key) (run next now req s).1.rows
        ≡ some (kept now auth.actor.id key req (next req (let_in now req s).1).0)
  unfolding layer store
  first_stored next now req s key auth post has_key who small free fine fits =
      let row = kept now auth.actor.id key req (next req (let_in now req s).1).0 in
      ground (arith, find-replace auth.actor.id key row s.rows, is_row-own row)

  -- A request whose answer is stored is answered with it, and goes no further.
  replayed :
      (next : Request → App → Response × App) (now : Timestamp) (req : Request) (s : State)
      (key : Text) (auth : Auth) (st : Stored)
      → same_text req.parts.method (codes "POST") ≡ true
      → key_in req ≡ some key
      → (let_in now req s).0 ≡ ok auth
      → length req.body ≤ body_limit
      → lookup auth.actor.id key s.rows ≡ some st
      → st.body_hash ≡ body_hash ext digest from_str into_response req.body
      → run next now req s
        ≡ (replay ext digest from_str into_response st, record s { app = (let_in now req s).1 })
  unfolding layer
  replayed next now req s key auth st post has_key who small found same = ground arith

  -- A request with a key whose answer is that to another body is refused, and goes no further.
  refused :
      (next : Request → App → Response × App) (now : Timestamp) (req : Request) (s : State)
      (key : Text) (auth : Auth) (st : Stored)
      → same_text req.parts.method (codes "POST") ≡ true
      → key_in req ≡ some key
      → (let_in now req s).0 ≡ ok auth
      → length req.body ≤ body_limit
      → lookup auth.actor.id key s.rows ≡ some st
      → st.body_hash ≢ body_hash ext digest from_str into_response req.body
      → run next now req s ≡ (into_response mismatch, record s { app = (let_in now req s).1 })
  unfolding layer
  refused next now req s key auth st post has_key who small found differs = ground arith

  lookup-row :
      (a : Option Ident) (k : Text) (rows : List Row) (r : Row)
      → find? (is_row a k) rows ≡ some r
      → lookup a k rows ≡ some r.stored
  unfolding lookup
  lookup-row a k rows r h = ground arith

  -- One request, then others and the sweeper.
  module _ (to_rfc3339 : Timestamp → Text) (next : Request → App → Response × App) (now : Timestamp)
      (req : Request) (s : State) (events : List Event) where
    abbrev pub afterwards : State
    afterwards =
        serve ext digest from_str into_response to_rfc3339 next events
          (layer ext digest from_str into_response next now req s).1

    still_stored :
        (key : Text) (auth : Auth)
        → KeepsOrder to_rfc3339
        → now / second < last_second
        → AreWithin now events
        → same_text req.parts.method (codes "POST") ≡ true
        → key_in req ≡ some key
        → (let_in now req s).0 ≡ ok auth
        → length req.body ≤ body_limit
        → lookup auth.actor.id key s.rows ≡ none
        → is_server_error (next req (let_in now req s).1).0.status ≡ false
        → length (next req (let_in now req s).1).0.body ≤ body_limit
        → lookup auth.actor.id key afterwards.rows
          ≡ some (kept now auth.actor.id key req (next req (let_in now req s).1).0).stored
    still_stored key auth order bound w post has_key who small free fine fits =
        let row = kept now auth.actor.id key req (next req (let_in now req s).1).0 in
        lookup-row auth.actor.id key afterwards.rows row (
          serve-row ext digest from_str into_response to_rfc3339 next events (run next now req s).1
            auth.actor.id key order bound w
            (first_stored next now req s key auth post has_key who small free fine fits))

    -- Where a POST with a key that is new to its actor has been let in and answered before the year
    -- 10000, with no server error and with bodies within the limit, then after any further requests,
    -- answered one after the other, and any rounds of the sweeper less than a day later, by the
    -- whole second, a POST that is let in, of the same actor and with that key and body, gets the
    -- status and the body of that answer, and the rest of the router does not see it, where before
    -- that year the texts of times in different seconds are in the order of the times.
    pub repeat_replays :
        (later : Timestamp) (again : Request) {key : Text} {auth auth' : Auth}
        → KeepsOrder to_rfc3339
        → now / second < last_second
        → AreWithin now events
        → same_text req.parts.method (codes "POST") ≡ true
        → key_of ext digest from_str into_response req.parts ≡ some key
        → (authenticate ext now req.parts s.app).0 ≡ ok auth
        → length req.body ≤ body_limit
        → lookup auth.actor.id key s.rows ≡ none
        → is_server_error (next req (authenticate ext now req.parts s.app).1).0.status ≡ false
        → length (next req (authenticate ext now req.parts s.app).1).0.body ≤ body_limit
        → same_text again.parts.method (codes "POST") ≡ true
        → key_of ext digest from_str into_response again.parts ≡ some key
        → (authenticate ext later again.parts afterwards.app).0 ≡ ok auth'
        → auth'.actor.id ≡ auth.actor.id
        → again.body ≡ req.body
        → let second_run = layer ext digest from_str into_response next later again afterwards in
          (second_run.0.status ≡ (next req (authenticate ext now req.parts s.app).1).0.status)
          × (second_run.0.body ≡ (next req (authenticate ext now req.parts s.app).1).0.body)
          × (second_run.1
              ≡ record afterwards { app = (authenticate ext later again.parts afterwards.app).1 })
    unfolding replay
    repeat_replays later again {key} {auth} {auth'} order bound w post has_key who small free fine
          fits post' has_key' who' same body =
        let row = kept now auth.actor.id key req (next req (let_in now req s).1).0 in
        let outcome : run next later again afterwards ≡ (
          replay ext digest from_str into_response row.stored,
          record afterwards { app = (let_in later again afterwards).1 },
        ) =
          replayed next later again afterwards key auth' row.stored post' has_key' who'
            (rw body small)
            (ap (λ a. lookup a key afterwards.rows) same
              ∙ still_stored key auth order bound w post has_key who small free fine fits)
            (ap (body_hash ext digest from_str into_response) (sym body)) in
        (ap (λ r. r.0.status) outcome, ap (λ r. r.0.body) outcome, ap (λ r. r.1) outcome)

    -- Where a POST with a key that is new to its actor has been let in and answered before the year
    -- 10000, with no server error and with bodies within the limit, then after any further requests,
    -- answered one after the other, and any rounds of the sweeper less than a day later, by the
    -- whole second, a POST that is let in, of the same actor, with that key and a body of another
    -- hash, within the limit, is refused as a mismatch, the rest of the router does not see it, and
    -- the table stays as it is, where before that year the texts of times in different seconds are
    -- in the order of the times.
    pub reuse_refused :
        (later : Timestamp) (again : Request) {key : Text} {auth auth' : Auth}
        → KeepsOrder to_rfc3339
        → now / second < last_second
        → AreWithin now events
        → same_text req.parts.method (codes "POST") ≡ true
        → key_of ext digest from_str into_response req.parts ≡ some key
        → (authenticate ext now req.parts s.app).0 ≡ ok auth
        → length req.body ≤ body_limit
        → lookup auth.actor.id key s.rows ≡ none
        → is_server_error (next req (authenticate ext now req.parts s.app).1).0.status ≡ false
        → length (next req (authenticate ext now req.parts s.app).1).0.body ≤ body_limit
        → same_text again.parts.method (codes "POST") ≡ true
        → key_of ext digest from_str into_response again.parts ≡ some key
        → (authenticate ext later again.parts afterwards.app).0 ≡ ok auth'
        → auth'.actor.id ≡ auth.actor.id
        → length again.body ≤ body_limit
        → body_hash ext digest from_str into_response req.body
          ≢ body_hash ext digest from_str into_response again.body
        → layer ext digest from_str into_response next later again afterwards ≡ (
          into_response mismatch,
          record afterwards { app = (authenticate ext later again.parts afterwards.app).1 },
        )
    reuse_refused later again {key} {auth} {auth'} order bound w post has_key who small free fine
          fits post' has_key' who' same small' differs =
        let row = kept now auth.actor.id key req (next req (let_in now req s).1).0 in
        refused next later again afterwards key auth' row.stored post' has_key' who' small'
          (ap (λ a. lookup a key afterwards.rows) same
            ∙ still_stored key auth order bound w post has_key who small free fine fits)
          differs
