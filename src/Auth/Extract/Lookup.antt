-- ===== src/Auth/Extract/Lookup.antt =====
-- What the lookups of extract.rs find behind a token and behind a session.
use mandrake.Common.{
  ℕ, ◌<◌, ◌≡◌, ◌≢◌, ◌∙◌, ap, true, false, none, some, Memᴰ, arith, leb, ◌==◌, is_some_and, find?,
  find?-sound, Option-cases, inl, inr,
}
use mandrake.Common.Text.{Text, same_text}
use mandrake.Core.Time.{Timestamp}
use mandrake.Core.Role.{Via}
use mandrake.Daemon.Store.{UserRow, SessionRow, TokenRow, Db}
use mandrake.Auth.External.{External}
use mandrake.Auth.Token.{hash}
use mandrake.Auth.Session.{touch, is_expired, has_hash}
use mandrake.Auth.Extract.{
  Auth, user_bits, actor_of, token_auth, session_auth, lookup_token, lookup_session,
}

-- The account behind a token or a session: it exists and is enabled.
pub record IsAccount (db : Db) (id : ℕ) (user : UserRow) : Type 0 where
  pub stored : Memᴰ user db.users
  pub same_id : user.id ≡ id
  pub enabled : user.disabled ≡ false

pub user_bits-IsAccount :
    (db : Db) (id : ℕ) {user : UserRow}
    → user_bits id db ≡ some user
    → user.disabled ≡ false
    → IsAccount db id user
user_bits-IsAccount db id h e =
    let (m, t) = find?-sound (λ u. u.id == id) db.users h in
    record { stored = m; same_id = ground arith; enabled = e }

pub record IsToken (now : Timestamp) (db : Db) (h : Text) (auth : Auth) : Type 0 where
  pub row : TokenRow
  pub user : UserRow
  pub stored : Memᴰ row db.tokens
  pub same_hash : row.hash ≡ h
  pub unexpired : is_some_and row.expires_at (λ t. leb t now) ≡ false
  pub account : IsAccount db row.user_id user
  pub granted : auth ≡ token_auth user row

lookup_token_inv :
    (now : Timestamp) (h : Text) (db : Db) {auth : Auth}
    → (lookup_token now h db).0 ≡ some auth
    → (row : TokenRow) × (user : UserRow) × (find? (λ t. same_text t.hash h) db.tokens ≡ some row)
      × (is_some_and row.expires_at (λ t. leb t now) ≡ false)
      × (user_bits row.user_id db ≡ some user)
      × (user.disabled ≡ false)
      × (auth ≡ token_auth user row)
unfolding lookup_token
lookup_token_inv now h db e = ground arith

same_text-eq : (a b : Text) → same_text a b ≡ true → a ≡ b
same_text-eq a b h = ground arith

pub lookup_token-IsToken :
    (now : Timestamp) (h : Text) (db : Db) {auth : Auth}
    → (lookup_token now h db).0 ≡ some auth
    → IsToken now db h auth
lookup_token-IsToken now h db e =
    let (row, user, found, unexpired, known, enabled, granted) = lookup_token_inv now h db e in
    let (m, t) = find?-sound (λ t. same_text t.hash h) db.tokens found in
    record {
      row = row;
      user = user;
      stored = m;
      same_hash = same_text-eq row.hash h t;
      unexpired = unexpired;
      account = user_bits-IsAccount db row.user_id known enabled;
      granted = granted;
    }

pub record IsSession (ext : External) (now : Timestamp) (db : Db) (secret : Text) (auth : Auth)
    : Type 0 where
  pub row : SessionRow
  pub user : UserRow
  pub stored : Memᴰ row db.sessions
  pub same_hash : row.hash ≡ hash ext secret
  pub before_absolute : now < row.expires_at
  pub before_idle : now < row.idle_expires_at
  pub account : IsAccount db row.user_id user
  pub granted : auth.actor ≡ actor_of user Via.session none
  pub granted_hash : auth.session_hash ≡ some row.hash
  pub granted_until : auth.expires_at ≡ some row.expires_at

module _ (ext : External) where
  -- What `touch` returns is a stored row that is live, with its idle time perhaps moved.
  touch_inv :
      (now : Timestamp) (secret : Text) (db : Db) {row' : SessionRow}
      → (touch ext secret now db).0 ≡ some row'
      → (row : SessionRow) × (find? (has_hash (hash ext secret)) db.sessions ≡ some row)
        × (is_expired now row ≡ false)
        × (row'.hash ≡ row.hash)
        × (row'.user_id ≡ row.user_id)
        × (row'.expires_at ≡ row.expires_at)
  touch_inv now secret db e = elim (Option-cases (find? (has_hash (hash ext secret)) db.sessions)) [
    | inl missing ↦ absurd (touch_missing missing e)
    | inr (row, found) ↦
        let (live, a, b, c) = touch_found row found e in (row, found, live, a, b, c)
  ]
    where
      touch_missing :
          {row' : SessionRow}
          → find? (has_hash (hash ext secret)) db.sessions ≡ none
          → (touch ext secret now db).0 ≢ some row'
      touch_missing m = unfold touch in ground arith

      touch_found :
          {row' : SessionRow} (row : SessionRow)
          → find? (has_hash (hash ext secret)) db.sessions ≡ some row
          → (touch ext secret now db).0 ≡ some row'
          → (is_expired now row ≡ false)
            × (row'.hash ≡ row.hash)
            × (row'.user_id ≡ row.user_id)
            × (row'.expires_at ≡ row.expires_at)
      touch_found row f h = unfold touch in ground arith

  touch-users :
      (now : Timestamp) (secret : Text) (db : Db) → (touch ext secret now db).1.users ≡ db.users
  unfolding touch
  touch-users now secret db = ground arith

  granted_inv :
      (now : Timestamp) (secret : Text) (db : Db) {auth : Auth}
      → (lookup_session ext now secret db).0 ≡ some auth
      → (row : SessionRow) × (user : UserRow) × ((touch ext secret now db).0 ≡ some row)
        × (user_bits row.user_id (touch ext secret now db).1 ≡ some user)
        × (user.disabled ≡ false)
        × (auth ≡ session_auth user row)
  unfolding lookup_session
  granted_inv now secret db e = ground arith

  lookup_session_inv :
      (now : Timestamp) (secret : Text) (db : Db) {auth : Auth}
      → (lookup_session ext now secret db).0 ≡ some auth
      → (row : SessionRow) × (user : UserRow) × (find? (has_hash (hash ext secret)) db.sessions
          ≡ some row)
        × (is_expired now row ≡ false)
        × (user_bits row.user_id db ≡ some user)
        × (user.disabled ≡ false)
        × (auth.actor ≡ actor_of user Via.session none)
        × (auth.session_hash ≡ some row.hash)
        × (auth.expires_at ≡ some row.expires_at)
  lookup_session_inv now secret db e =
      let (row', user, touched, known, enabled, granted) = granted_inv now secret db e in
      let (row, found, live, same_hash, same_user, same_until) = touch_inv now secret db touched in
      (
        row,
        user,
        found,
        live,
        rw (← same_user) (rw (touch-users now secret db) at known),
        enabled,
        ap (λ a. a.actor) granted,
        ap (λ a. a.session_hash) granted ∙ ap some same_hash,
        ap (λ a. a.expires_at) granted ∙ ap some same_until,
      )

  pub lookup_session-IsSession :
      (now : Timestamp) (secret : Text) (db : Db) {auth : Auth}
      → (lookup_session ext now secret db).0 ≡ some auth
      → IsSession ext now db secret auth
  lookup_session-IsSession now secret db e =
      let (row, user, found, unexpired, known, enabled, actor, same, until) =
        lookup_session_inv now secret db e in
      let (m, t) = find?-sound (has_hash (hash ext secret)) db.sessions found in
      record {
        row = row;
        user = user;
        stored = m;
        same_hash = same_text-eq row.hash (hash ext secret) t;
        before_absolute = ground arith;
        before_idle = ground arith;
        account = user_bits-IsAccount db row.user_id known enabled;
        granted = actor;
        granted_hash = same;
        granted_until = until;
      }
