-- ===== src/Idempotency/Refusal.antt =====
-- What the middleware of idempotency.rs refuses, and what it does not store.
use mandrake.Common.{
  ◌≤◌, ◌<◌, ◌||◌, ◌≡◌, ap, ◌∙◌, true, false, [], Option, none, some, arith, length, ltb,
}
use mandrake.Common.Text.{Text, same_text, codes}
use mandrake.Core.Time.{Timestamp}
use mandrake.Core.Problem.{Problem}
use mandrake.Daemon.Store.{App}
use mandrake.Daemon.Handler.{ok}
use mandrake.Auth.External.{External}
use mandrake.Auth.Extract.{Auth, authenticate}
use mandrake.Idempotency.{
  Bytes, body_limit, Request, Response, State, lookup, is_server_error, key_of, store, layer,
}

module _ (ext : External) (digest : Bytes → Bytes) (from_str : Text → Option Bytes)
    (into_response : Problem → Response) where
  -- Where the router answers a request, in whatever state, with a server error or with a body over
  -- the limit, the table stays as it is.
  pub errors_not_stored :
      (next : Request → App → Response × App) (now : Timestamp) (req : Request) (s : State)
      → ((app : App)
          → (is_server_error (next req app).0.status
              || ltb body_limit (length (next req app).0.body))
            ≡ true)
      → (layer ext digest from_str into_response next now req s).1.rows ≡ s.rows
  unfolding layer store
  errors_not_stored next now req s bad =
      ground (arith, bad (authenticate ext now req.parts s.app).1)

  lost :
      (next : Request → App → Response × App) (now : Timestamp) (req : Request) (s : State)
      {key : Text} {auth : Auth}
      → same_text req.parts.method (codes "POST") ≡ true
      → key_of ext digest from_str into_response req.parts ≡ some key
      → (authenticate ext now req.parts s.app).0 ≡ ok auth
      → length req.body ≤ body_limit
      → lookup auth.actor.id key s.rows ≡ none
      → is_server_error (next req (authenticate ext now req.parts s.app).1).0.status ≡ false
      → body_limit < length (next req (authenticate ext now req.parts s.app).1).0.body
      → ((layer ext digest from_str into_response next now req s).0
          ≡ record (next req (authenticate ext now req.parts s.app).1).0 { body = [] })
        × ((layer ext digest from_str into_response next now req s).1.rows ≡ s.rows)
  unfolding layer store
  lost next now req s post has_key who small free fine large = (ground arith, ground arith)

  -- A key without an answer lets the request through.
  seen :
      (next : Request → App → Response × App) (now : Timestamp) (req : Request) (s : State)
      {key : Text} {auth : Auth}
      → same_text req.parts.method (codes "POST") ≡ true
      → key_of ext digest from_str into_response req.parts ≡ some key
      → (authenticate ext now req.parts s.app).0 ≡ ok auth
      → length req.body ≤ body_limit
      → lookup auth.actor.id key s.rows ≡ none
      → (layer ext digest from_str into_response next now req s).1.app
        ≡ (next req (authenticate ext now req.parts s.app).1).1
  unfolding layer
  seen next now req s post has_key who small free = ground arith

  -- Where a POST with a key that is new to its actor, let in and with a body within the limit, has
  -- an answer that is no server error and whose body is over the limit, the client gets the status
  -- of that answer without the body, and a POST that is let in, of the same actor with that key and
  -- a body within the limit, as the next request, is seen by the rest of the router again.
  pub large_answer_repeated :
      (next : Request → App → Response × App) (now later : Timestamp) (req again : Request)
      (s : State) {key : Text} {auth auth' : Auth}
      → same_text req.parts.method (codes "POST") ≡ true
      → key_of ext digest from_str into_response req.parts ≡ some key
      → (authenticate ext now req.parts s.app).0 ≡ ok auth
      → length req.body ≤ body_limit
      → lookup auth.actor.id key s.rows ≡ none
      → is_server_error (next req (authenticate ext now req.parts s.app).1).0.status ≡ false
      → body_limit < length (next req (authenticate ext now req.parts s.app).1).0.body
      → same_text again.parts.method (codes "POST") ≡ true
      → key_of ext digest from_str into_response again.parts ≡ some key
      → (authenticate ext later again.parts
          (layer ext digest from_str into_response next now req s).1.app).0
        ≡ ok auth'
      → auth'.actor.id ≡ auth.actor.id
      → length again.body ≤ body_limit
      → let first = layer ext digest from_str into_response next now req s in
        (first.0.status ≡ (next req (authenticate ext now req.parts s.app).1).0.status)
        × (first.0.body ≡ [])
        × ((layer ext digest from_str into_response next later again first.1).1.app
            ≡ (next again (authenticate ext later again.parts first.1.app).1).1)
  large_answer_repeated next now later req again s {key} {auth} {auth'} post has_key who small free
        fine large post' has_key' who' same small' =
      let first = lost next now req s post has_key who small free fine large in
      (
        ap (λ r. r.status) first.0,
        ap (λ r. r.body) first.0,
        seen next later again (layer ext digest from_str into_response next now req s).1 post'
            has_key' who' small'
            (ap (λ a. lookup a key (layer ext digest from_str into_response next now req s).1.rows)
                same
              ∙ ap (lookup auth.actor.id key) first.1
              ∙ free),
      )
