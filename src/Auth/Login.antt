-- ===== src/Auth/Login.antt =====
-- crates/mandraked/src/routes/auth.rs: login and logout. The secret of a new session is an argument,
-- and so are the clock's reading and the monotonic instant that the limiter sees.
pub mod Lock
pub mod Guesses
use mandrake.Common.{
  ℕ, zero, ◌+◌, ◌*◌, Bool, true, false, not, ◌&&◌, ◌||◌, List, ◌++◌, Option, none, some, leb, ltb,
  find?, if◌then◌else◌, or_else, is_some_and, ◌==◌,
}
use mandrake.Common.Int.{ℤ, pos, leb_ℤ}
use mandrake.Common.Table.{update_where}
use mandrake.Common.Text.{Text, codes, same_text}
use mandrake.Common.Text.Parts.{utf8_len}
use mandrake.Core.Time.{Timestamp, plus_seconds, seconds_since}
use mandrake.Core.Role.{Ident, Role, Via, Actor}
use mandrake.Core.Problem.{Problem, unauthorized, typed, with_detail}
use mandrake.Daemon.Store.{UserRow, SessionRow, ObjectRef, Db, App}
use mandrake.Daemon.Handler.{Handler, Result, ok, err, ◌>>=◌, ◌>>◌, pure, raise, change}
use mandrake.Daemon.Audit.{Context, Record, done, denied, record_action}
use mandrake.Auth.External.{External}
use mandrake.Auth.Limiter.{Verdict, allowed, refused, check_at}
use mandrake.Auth.Session.{create, delete, set_cookie, clear_cookie}
use mandrake.Auth.Extract.{Auth, actor_of}

-- Failures within the window before a lock, and the length of both.
abbrev pub lock_after : ℕ
lock_after = 5

abbrev pub lock_secs : ℕ
lock_secs = 15 * 60

-- `password::MAX_LEN`
abbrev pub max_password : ℕ
max_password = 1024

pub record LoginRequest : Type 0 where
  pub username : Text
  pub password : Text

pub record Session : Type 0 where
  pub actor : Actor
  pub expires_at : Option Timestamp
  pub idle_expires_at : Option Timestamp

pub data Outcome : Type 0 where
  logged_in : Text → Session → Outcome
  locked : Timestamp → Outcome
  bad : Outcome

-- `load`
abbrev pub load : Text → Db → Option UserRow
load username db = find? (λ u. same_text u.username username) db.users

-- `user.locked_until.filter(|t| *t > now)`
abbrev pub lock_of : Timestamp → UserRow → Option Timestamp
lock_of now u = elim u.locked_until [ none ↦ none | some t ↦ if ltb now t then some t else none ]

-- Whether the last failures still count.
abbrev pub in_window : Timestamp → UserRow → Bool
in_window now u =
    is_some_and u.first_failed_at (λ t. not (leb_ℤ (pos lock_secs) (seconds_since now t)))

abbrev pub failures : Timestamp → UserRow → ℕ
failures now u = if in_window now u then u.failed_logins + 1 else 1

abbrev pub first_failure : Timestamp → UserRow → Option Timestamp
first_failure now u = if in_window now u then u.first_failed_at else some now

abbrev pub new_lock : Timestamp → UserRow → Option Timestamp
new_lock now u =
    if leb lock_after (failures now u) then some (plus_seconds now (pos lock_secs)) else none

-- The columns that a failed login of the loaded user writes.
abbrev pub set_failure : Timestamp → UserRow → UserRow → UserRow
set_failure now u r = record r {
  failed_logins = failures now u;
  first_failed_at = first_failure now u;
  locked_until = new_lock now u;
}

abbrev pub set_success : Timestamp → UserRow → UserRow
set_success now r = record r {
  failed_logins = 0;
  first_failed_at = none;
  locked_until = none;
  last_login_at = some now;
}

abbrev pub update_user : Ident → (UserRow → UserRow) → Db → Db
update_user id f db = record db { users = update_where (λ r. r.id == id) f db.users }

-- `200` with the cookie and the session, `429` with the seconds of `Retry-After`, or a problem.
pub data Response : Type 0 where
  welcome : Text → Session → Response
  too_many : ℕ → Response
  problem : Problem → Response

abbrev anonymous : LoginRequest → Actor
anonymous req = record {
  id = none;
  username = req.username;
  role = Role.viewer;
  via = Via.session;
  token_id = none;
}

abbrev object : Option Ident → LoginRequest → ObjectRef
object id req = record { kind = codes "user"; id = id; name = some req.username }

module _ (ext : External) where
  unfoldable pub attempt : Text → Timestamp → LoginRequest → Option Text → Db → Outcome × Db
  unfolding create set_cookie
  attempt secret now req source db = elim (load req.username db) [
    | none ↦ (bad, db)
    | some user ↦ elim (lock_of now user) [
      | some until ↦ (locked until, db)
      | none ↦
          if not user.disabled && ext.verify req.password user.password_hash
          then (let (row, db') =
                create ext secret now user.id source (update_user user.id (set_success now) db) in
              (
                logged_in (set_cookie secret) (record {
                  actor = actor_of user Via.session none;
                  expires_at = some row.expires_at;
                  idle_expires_at = some row.idle_expires_at;
                }),
                db',
              ))
          else (
            elim (new_lock now user) [ none ↦ bad | some until ↦ locked until ],
            update_user user.id (set_failure now user) db,
          )
    ]
  ]

  -- The text of a time in a problem's detail is an argument.
  unfoldable pub login :
      (Timestamp → Text) → Text → Timestamp → ℕ → Context → LoginRequest → App → Response × App
  unfolding attempt
  login show secret now instant ctx req s =
      let (verdict, limiter) =
        check_at s.login_limiter (or_else ctx.source (codes "unknown")) instant in
      let s₁ = record s { login_limiter = limiter } in
      elim verdict [
        | refused seconds ↦ (too_many seconds, s₁)
        | allowed ↦
            if utf8_len req.username == 0
              || ltb 64 (utf8_len req.username)
              || ltb max_password (utf8_len req.password)
            then (problem unauthorized, s₁)
            else (let (outcome, db) = attempt secret now req ctx.source s₁.db in
                let s₂ = record s₁ { db = db } in
                elim outcome [
                  | logged_in cookie session ↦ (
                    welcome cookie session,
                    (record_action now session.actor ctx
                        (done (codes "auth.login") (object session.actor.id req)) s₂).1,
                  )
                  | locked until ↦ (
                    problem (
                        with_detail (typed 423 (codes "locked") (codes "Locked"))
                          (codes "too many failed logins; locked until " ++ show until)),
                    (record_action now (anonymous req) ctx
                        (denied (codes "auth.login") (object none req) (codes "account locked"))
                        s₂).1,
                  )
                  | bad ↦ (
                    problem (
                        with_detail (typed 401 (codes "invalid-credentials") (codes "Unauthorized"))
                          (codes "invalid username or password")),
                    (record_action now (anonymous req) ctx
                        (denied (codes "auth.login") (object none req)
                          (codes "invalid credentials"))
                        s₂).1,
                  )
                ])
      ]

-- `204` with the cookie that ends the session.
unfoldable pub logout : Timestamp → Context → Auth → Handler Text
unfolding delete clear_cookie
logout now ctx auth = do
  change (λ db. elim auth.session_hash [ none ↦ db | some h ↦ delete h db ])
  record_action now auth.actor ctx (
      done (codes "auth.logout")
        (record { kind = codes "user"; id = auth.actor.id; name = some auth.actor.username }))
  pure clear_cookie
