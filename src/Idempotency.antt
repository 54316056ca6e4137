-- ===== src/Idempotency.antt =====
-- crates/mandraked/src/idempotency.rs: the middleware for the `Idempotency-Key` of a POST. The rest of
-- the router, the response that a problem becomes, the digest and `HeaderValue::from_str` are
-- parameters. The key of an actor is the actor's id, and none for `root`.
pub mod Rows
pub mod Sweep
pub mod Kept
pub mod Replay
pub mod Refusal
use mandrake.Common.{
  ℕ, ◌*◌, ◌^◌, Bool, true, false, not, ◌&&◌, ◌||◌, List, [], ◌∷◌, ◌++◌, Option, none, some, find?,
  keep, leb, ltb, if◌then◌else◌, ◌==◌, length,
}
use mandrake.Common.Table.{delete_where, insert_row}
use mandrake.Common.Text.{Text, codes, same_text}
use mandrake.Common.Text.Parts.{trim, utf8_len}
use mandrake.Core.Time.{Timestamp}
use mandrake.Core.Role.{Ident}
use mandrake.Core.Problem.{Problem, new, typed, with_detail}
use mandrake.Daemon.Store.{App}
use mandrake.Daemon.Handler.{Result, ok, err}
use mandrake.Auth.External.{External}
use mandrake.Auth.Token.{hex}
use mandrake.Auth.Extract.{Parts, authenticate, header}

abbrev pub Bytes : Type 0
Bytes = List ℕ

-- `1 << 20`
abbrev pub body_limit : ℕ
body_limit = 1048576

pub record Request : Type 0 where
  pub parts : Parts
  pub body : Bytes

pub record Response : Type 0 where
  pub status : ℕ
  pub headers : List (Text × Bytes)
  pub body : Bytes

pub record Stored : Type 0 where
  pub body_hash : Text
  pub status : ℕ
  pub content_type : Option Text
  pub body : Bytes

-- A row of `idempotency`; actor and key are its primary key.
pub record Row : Type 0 where
  pub actor_key : Option Ident
  pub key : Text
  pub stored : Stored
  pub created_at : Timestamp

pub record State : Type 0 where
  pub app : App
  pub rows : List Row

abbrev pub same_actor : Option Ident → Option Ident → Bool
same_actor none none = true
same_actor (some a) (some b) = a == b
same_actor _ _ = false

abbrev pub is_row : Option Ident → Text → Row → Bool
is_row actor key r = same_actor r.actor_key actor && same_text r.key key

unfoldable pub lookup : Option Ident → Text → List Row → Option Stored
lookup actor key rows = elim (find? (is_row actor key) rows) [
  | none ↦ none
  | some r ↦ some r.stored
]

-- `INSERT OR REPLACE`
abbrev pub replace : Row → List Row → List Row
replace r rows = insert_row r (delete_where (is_row r.actor_key r.key) rows)

abbrev pub content_type : Text
content_type = codes "content-type"

abbrev pub is_server_error : ℕ → Bool
is_server_error status = leb 500 status && ltb status 600

abbrev pub mismatch : Problem
mismatch =
    with_detail (typed 422 (codes "idempotency-mismatch") (codes "Unprocessable Entity"))
      (codes "Idempotency-Key was already used with a different request body")

abbrev pub too_large : Problem
too_large = new 413 (codes "Payload Too Large")

-- The first value of a header of a response.
abbrev pub header_of : Text → Response → Option Bytes
header_of name r = elim (find? (λ e. same_text e.0 name) r.headers) [
  | none ↦ none
  | some e ↦ some e.1
]

module _ (ext : External) (digest : Bytes → Bytes) (from_str : Text → Option Bytes)
    (into_response : Problem → Response) where
  unfoldable pub key_of : Parts → Option Text
  unfolding codes trim
  key_of parts = elim (header (codes "idempotency-key") parts) [
    | none ↦ none
    | some raw ↦ elim (ext.to_str raw) [
      | none ↦ none
      | some v ↦
          let key = trim v in
          if not (utf8_len key == 0) && leb (utf8_len key) 128 then some key else none
    ]
  ]

  unfoldable pub body_hash : Bytes → Text
  body_hash body = hex (digest body)

  abbrev pub stored_of : Text → Response → Stored
  stored_of h r = record {
    body_hash = h;
    status = r.status;
    content_type = elim (header_of content_type r) [ none ↦ none | some raw ↦ ext.to_str raw ];
    body = r.body;
  }

  unfoldable pub store :
      Timestamp → Option Ident → Text → Text → Response → List Row → Response × List Row
  store now actor key h r rows =
      if is_server_error r.status
      then (r, rows)
      else if ltb body_limit (length r.body)
      then (record r { body = [] }, rows)
      else (
        r,
        replace (record { actor_key = actor; key = key; stored = stored_of h r; created_at = now })
            rows,
      )

  unfoldable pub replay : Stored → Response
  replay s =
      let typed_as : List (Text × Bytes) = elim s.content_type [
        | none ↦ []
        | some c ↦ elim (from_str c) [ none ↦ [] | some raw ↦ (content_type, raw) ∷ [] ]
      ] in
      record {
        status = s.status;
        headers = typed_as ++ (codes "idempotent-replayed", codes "true") ∷ [];
        body = s.body;
      }

  -- `next` is the rest of the router.
  unfoldable pub layer :
      (Request → App → Response × App) → Timestamp → Request → State → Response × State
  layer next now req s =
      let passed_on : Response × State =
        let (r, app) = next req s.app in (r, record s { app = app }) in
      if not (same_text req.parts.method (codes "POST"))
      then passed_on
      else elim (key_of req.parts) [
        | none ↦ passed_on
        | some key ↦
            let (who, app) = authenticate ext now req.parts s.app in
            let s₁ = record s { app = app } in
            elim who [
              | err e ↦ (into_response e, s₁)
              | ok auth ↦
                  let h = body_hash req.body in
                  if ltb body_limit (length req.body)
                  then (into_response too_large, s₁)
                  else elim (lookup auth.actor.id key s.rows) [
                    | some found ↦
                        if same_text found.body_hash h
                        then (replay found, s₁)
                        else (into_response mismatch, s₁)
                    | none ↦
                        let (r, app') = next req app in
                        let (r', rows) = store now auth.actor.id key h r s.rows in
                        (r', record { app = app'; rows = rows })
                  ]
            ]
      ]
