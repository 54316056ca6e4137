-- ===== src/Auth/Extract.antt =====
-- crates/mandraked/src/auth/extract.rs: who is calling, by socket, token or cookie.
pub mod Lookup
pub mod Sound
use mandrake.Common.{
  ℕ, zero, Bool, true, false, not, ◌&&◌, ◌||◌, List, ◌++◌, Option, none, some, leb, find?,
  if◌then◌else◌, or_else, is_some_and, ◌==◌, keep,
}
use mandrake.Common.Int.{pos, leb_ℤ}
use mandrake.Common.Table.{update_where}
use mandrake.Common.Text.{Text, codes, same_text}
use mandrake.Common.Text.Parts.{trim, strip_prefix}
use mandrake.Core.Time.{Timestamp, seconds_since}
use mandrake.Core.Role.{Ident, Role, Via, Actor, root, allows, as_str, is_user}
use mandrake.Core.Problem.{Problem, unauthorized, forbidden, typed, with_detail}
use mandrake.Daemon.Store.{UserRow, SessionRow, TokenRow, Db}
use mandrake.Daemon.Handler.{
  Result, ok, err, Handler, ◌>>=◌, ◌>>◌, pure, raise, call, or_raise, raise_if,
}
use mandrake.Auth.External.{External}
use mandrake.Auth.Token.{hash, looks_like_token}
use mandrake.Auth.Session.{touch, delete, from_cookie_header, find_map}

pub record Auth : Type 0 where
  pub actor : Actor
  pub session_hash : Option Text
  pub expires_at : Option Timestamp
  pub idle_expires_at : Option Timestamp

-- A request: its method, its headers with lowercase names, and the peer of the Unix socket, if it
-- came by it (`SocketPeer(None)` where the uid is unknown).
pub record Parts : Type 0 where
  pub method : Text
  pub headers : List (Text × List ℕ)
  pub peer : Option (Option ℕ)

abbrev pub require : Auth → Role → Result (Unit {0})
require auth role =
    if allows auth.actor.role role
    then ok tt
    else err (forbidden (codes "requires role " ++ as_str role))

abbrev pub require_self_or : Auth → Ident → Role → Result (Unit {0})
require_self_or auth user role = if is_user auth.actor user then ok tt else require auth role

-- `headers.get`: the first value of a name.
abbrev pub header : Text → Parts → Option (List ℕ)
header name parts = elim (find? (λ e. same_text e.0 name) parts.headers) [
  | none ↦ none
  | some e ↦ some e.1
]

unfoldable pub mutating : Text → Bool
unfolding codes
mutating method = not (
    same_text method (codes "GET")
    || same_text method (codes "HEAD")
    || same_text method (codes "OPTIONS"))

-- `user_bits`: the row of the user.
abbrev pub user_bits : Ident → Db → Option UserRow
user_bits id db = find? (λ u. u.id == id) db.users

abbrev pub actor_of : UserRow → Via → Option Ident → Actor
actor_of user via token_id = record {
  id = some user.id;
  username = user.username;
  role = user.role;
  via = via;
  token_id = token_id;
}

abbrev pub root_auth : Auth
root_auth = record { actor = root; session_hash = none; expires_at = none; idle_expires_at = none }

abbrev pub token_auth : UserRow → TokenRow → Auth
token_auth user row = record {
  actor = actor_of user Via.token (some row.id);
  session_hash = none;
  expires_at = none;
  idle_expires_at = none;
}

abbrev pub session_auth : UserRow → SessionRow → Auth
session_auth user row = record {
  actor = actor_of user Via.session none;
  session_hash = some row.hash;
  expires_at = some row.expires_at;
  idle_expires_at = some row.idle_expires_at;
}

-- A token is marked as used at most once a minute.
abbrev pub mark_used : Timestamp → TokenRow → Db → Db
mark_used now row db =
    if elim row.last_used_at [ none ↦ true | some t ↦ leb_ℤ (pos 60) (seconds_since now t) ]
    then record db {
      tokens =
          update_where (λ t. t.id == row.id) (λ t. record t { last_used_at = some now }) db.tokens;
    }
    else db

unfoldable pub lookup_token : Timestamp → Text → Db → Option Auth × Db
lookup_token now h db = elim (find? (λ t. same_text t.hash h) db.tokens) [
  | none ↦ (none, db)
  | some row ↦
      if is_some_and row.expires_at (λ t. leb t now)
      then (none, db)
      else elim (user_bits row.user_id db) [
        | none ↦ (none, db)
        | some user ↦
            if user.disabled then (none, db) else (some (token_auth user row), mark_used now row db)
      ]
]

module _ (ext : External) where
  unfoldable pub bearer : Parts → Option Text
  unfolding codes trim
  bearer parts = elim (header (codes "authorization") parts) [
    | none ↦ none
    | some raw ↦ elim (ext.to_str raw) [
      | none ↦ none
      | some value ↦ elim (strip_prefix (codes "Bearer ") value) [
        | some rest ↦ some (trim rest)
        | none ↦ elim (strip_prefix (codes "bearer ") value) [
          | some rest ↦ some (trim rest)
          | none ↦ none
        ]
      ]
    ]
  ]

  unfoldable pub cookie : Parts → Option Text
  unfolding codes from_cookie_header
  cookie parts =
      find_map (λ e. elim (ext.to_str e.1) [ none ↦ none | some v ↦ from_cookie_header v ])
        (keep (λ e. same_text e.0 (codes "cookie")) parts.headers)

  unfoldable pub has_csrf_header : Parts → Bool
  unfolding codes trim
  has_csrf_header parts = elim (header (codes "x-mandrake-request") parts) [
    | none ↦ false
    | some raw ↦ is_some_and (ext.to_str raw) (λ v. same_text (trim v) (codes "1"))
  ]

  unfoldable pub lookup_session : Timestamp → Text → Db → Option Auth × Db
  lookup_session now secret db =
      let (found, db') = touch ext secret now db in
      elim found [
        | none ↦ (none, db')
        | some row ↦ elim (user_bits row.user_id db') [
          | none ↦ (none, db')
          | some user ↦
              if user.disabled
              then (none, delete row.hash db')
              else (some (session_auth user row), db')
        ]
      ]

  abbrev pub csrf_refused : Problem
  csrf_refused =
      with_detail (typed 403 (codes "csrf") (codes "Forbidden"))
        (codes "mutating requests from a session must send X-Mandrake-Request: 1")

  abbrev pub by_socket : Option ℕ → Handler Auth
  by_socket (some zero) = pure root_auth
  by_socket _ = raise (forbidden (codes "only root may use the socket"))

  abbrev pub by_bearer : Timestamp → Text → Handler Auth
  by_bearer now secret = do
    raise_if (not (looks_like_token secret)) unauthorized
    found ← call (lookup_token now (hash ext secret))
    or_raise found unauthorized

  abbrev pub by_cookie : Timestamp → Parts → Text → Handler Auth
  by_cookie now parts secret = do
    found ← call (lookup_session now secret)
    auth ← or_raise found unauthorized
    raise_if (mutating parts.method && not (has_csrf_header parts)) csrf_refused
    pure auth

  -- `from_request_parts`
  unfoldable pub authenticate : Timestamp → Parts → Handler Auth
  authenticate now parts = elim parts.peer [
    | some uid ↦ by_socket uid
    | none ↦ elim (bearer parts) [
      | some secret ↦ by_bearer now secret
      | none ↦ elim (cookie parts) [
        | some secret ↦ by_cookie now parts secret
        | none ↦ raise unauthorized
      ]
    ]
  ]
