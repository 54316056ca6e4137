-- ===== src/Daemon/Store.antt =====
-- The tables of crates/mandraked/migrations/0001_init.sql that the handlers use, and the state of
-- the application. A column of text that holds an id, a time or a role is kept as the value that
-- the row is read back to.
use mandrake.Common.{ℕ, Bool, Option, List}
use mandrake.Common.Text.{Text}
use mandrake.Auth.Limiter.{LoginLimiter}
use mandrake.Core.Time.{Timestamp}
use mandrake.Core.Role.{Ident, Role, Actor}

pub record UserRow : Type 0 where
  pub id : Ident
  pub username : Text
  pub display_name : Option Text
  pub role : Role
  pub password_hash : Text
  pub disabled : Bool
  pub failed_logins : ℕ
  pub first_failed_at : Option Timestamp
  pub locked_until : Option Timestamp
  pub last_login_at : Option Timestamp
  pub created_at : Timestamp
  pub updated_at : Timestamp

pub record SessionRow : Type 0 where
  pub hash : Text
  pub user_id : Ident
  pub created_at : Timestamp
  pub last_seen_at : Timestamp
  pub expires_at : Timestamp
  pub idle_expires_at : Timestamp
  pub source : Option Text

pub record TokenRow : Type 0 where
  pub id : Ident
  pub user_id : Ident
  pub name : Text
  pub prefix : Text
  pub hash : Text
  pub created_at : Timestamp
  pub expires_at : Option Timestamp
  pub last_used_at : Option Timestamp

pub record ObjectRef : Type 0 where
  pub kind : Text
  pub id : Option Ident
  pub name : Option Text

pub data AuditResult : Type 0 where
  ok denied failed : AuditResult

-- `summary` of a user, the JSON that the audit log holds of it.
pub record UserSummary : Type 0 where
  pub username : Text
  pub role : Role
  pub display_name : Option Text
  pub disabled : Bool

pub record AuditRow : Type 0 where
  pub at : Timestamp
  pub actor : Actor
  pub action : Text
  pub object : ObjectRef
  pub before : Option UserSummary
  pub after : Option UserSummary
  pub result : AuditResult
  pub detail : Option Text
  pub request_id : Option Text
  pub source : Option Text

-- A row of `events`, and the event that is published: its id is the row's.
pub record Event : Type 0 where
  pub id : ℕ
  pub at : Timestamp
  pub kind : Text
  pub object : ObjectRef
  pub actor : Actor
  pub payload : Option UserSummary

pub record Db : Type 0 where
  pub users : List UserRow
  pub sessions : List SessionRow
  pub tokens : List TokenRow
  pub audit : List AuditRow
  pub events : List Event
  -- the last id that `events` has given (AUTOINCREMENT)
  pub last_event : ℕ

-- The database, the limiter of logins, and what the event bus has carried.
pub record App : Type 0 where
  pub db : Db
  pub login_limiter : LoginLimiter
  pub published : List Event
