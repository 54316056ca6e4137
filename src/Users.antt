-- ===== src/Users.antt =====
-- crates/mandraked/src/routes/users.rs: `update` and `delete`, and what the handlers share. A handler
-- reads the database and writes it in two calls, so `update` and `delete` are the composition of two
-- steps between which other requests may run. `create`, `set_password` and `list` stand in the modules
-- below.
pub mod Passwords
pub mod Creation
pub mod Admins
pub mod Disabling
pub mod Race
pub mod Listing
use mandrake.Common.{
  ℕ, zero, suc, ◌+◌, Bool, true, false, not, ◌&&◌, ◌||◌, List, [], ◌∷◌, ◌++◌, Option, none, some,
  leb, ltb, find?, all, if◌then◌else◌, or_else, is_some, is_some_and, ◌==◌, count_if, length,
}
use mandrake.Common.Table.{update_where, delete_where, insert_row}
use mandrake.Common.Text.{Text, codes, same_text}
use mandrake.Common.Text.Parts.{utf8_len}
use mandrake.Core.Time.{Timestamp}
use mandrake.Core.Role.{Ident, Role, admin, is_admin, is_user}
use mandrake.Core.Problem.{
  Problem, unprocessable, not_found, conflict, forbidden, internal, typed, with_detail,
}
use mandrake.Daemon.Store.{UserRow, SessionRow, TokenRow, ObjectRef, UserSummary, Db, App}
use mandrake.Daemon.Handler.{
  Handler, Result, ok, err, ◌>>=◌, ◌>>◌, pure, raise, call, query, check, raise_if, or_raise,
}
use mandrake.Daemon.Audit.{Context, Record, done, record_action}
use mandrake.Auth.External.{External}
use mandrake.Auth.Session.{delete_for_user}
use mandrake.Auth.Extract.{Auth, require, require_self_or}

-- A user as the API shows it.
pub record User : Type 0 where
  pub id : Ident
  pub username : Text
  pub role : Role
  pub display_name : Option Text
  pub disabled : Bool
  pub locked_until : Option Timestamp
  pub last_login_at : Option Timestamp
  pub created_at : Timestamp
  pub updated_at : Timestamp

abbrev pub from_row : Timestamp → UserRow → User
from_row now r = record {
  id = r.id;
  username = r.username;
  role = r.role;
  display_name = r.display_name;
  disabled = r.disabled;
  locked_until = elim r.locked_until [ none ↦ none | some t ↦ if ltb now t then some t else none ];
  last_login_at = r.last_login_at;
  created_at = r.created_at;
  updated_at = r.updated_at;
}

abbrev pub has_id : Ident → UserRow → Bool
has_id id r = r.id == id

abbrev pub find : Timestamp → Ident → Db → Option User
find now id db = elim (find? (has_id id) db.users) [ none ↦ none | some r ↦ some (from_row now r) ]

-- `role = 'admin' AND disabled = 0`
abbrev pub is_enabled_admin : UserRow → Bool
is_enabled_admin r = is_admin r.role && not r.disabled

abbrev pub enabled_admins : Db → ℕ
enabled_admins db = count_if is_enabled_admin db.users

abbrev pub summary : User → UserSummary
summary u = record {
  username = u.username;
  role = u.role;
  display_name = u.display_name;
  disabled = u.disabled;
}

abbrev pub user_ref : Ident → Text → ObjectRef
user_ref id name = record { kind = codes "user"; id = some id; name = some name }

abbrev pub last_admin : Problem
last_admin =
    with_detail (typed 422 (codes "last-admin") (codes "Unprocessable Entity"))
      (codes "this is the last enabled admin")

pub record UserUpdate : Type 0 where
  pub role : Option Role
  pub display_name : Option Text
  pub disabled : Option Bool

-- `body.role.is_some_and(|r| r != Role::Admin)`, `body.disabled == Some(true)`
abbrev pub demotes : UserUpdate → Bool
demotes body = is_some_and body.role (λ r. not (is_admin r))

abbrev pub disables : UserUpdate → Bool
disables body = is_some_and body.disabled (λ d. d)

abbrev pub apply_update : Timestamp → UserUpdate → UserRow → UserRow
apply_update now body r = record r {
  role = or_else body.role r.role;
  display_name = elim body.display_name [ none ↦ r.display_name | some d ↦ some d ];
  disabled = or_else body.disabled r.disabled;
  updated_at = now;
}

-- The first call of `update`, with the checks before it.
unfoldable pub update_read : Timestamp → Auth → Ident → UserUpdate → Handler User
update_read now auth id body = do
  check (require auth admin)
  raise_if (is_some_and body.display_name (λ d. ltb 128 (utf8_len d)))
      (unprocessable (codes "display_name is too long"))
  raise_if (is_user auth.actor id && demotes body) (
      with_detail (typed 422 (codes "self-demotion") (codes "Unprocessable Entity"))
        (codes "an admin cannot remove their own admin role"))
  raise_if (is_user auth.actor id && disables body)
      (unprocessable (codes "you cannot disable your own account"))
  found ← query (find now id)
  or_raise found (not_found (codes "user"))

-- Whether the update, as the first call saw the user, takes an enabled admin away.
abbrev pub loses_admin : User → UserUpdate → Bool
loses_admin before body =
    is_admin before.role && not before.disabled && (demotes body || disables body)

-- The closure of the second call.
unfoldable pub update_rows : Timestamp → User → Ident → UserUpdate → Db → Option User × Db
unfolding delete_for_user
update_rows now before id body db =
    if loses_admin before body && leb (enabled_admins db) 1
    then (none, db)
    else (let db₁ = record db {
      users = update_where (has_id id) (apply_update now body) db.users;
    } in
        let db₂ = (if disables body then delete_for_user id none db₁ else db₁) in
        (find now id db₂, db₂))

unfoldable pub update_write : Timestamp → Auth → Context → User → Ident → UserUpdate → Handler User
update_write now auth ctx before id body = do
  changed ← call (update_rows now before id body)
  after ← or_raise changed last_admin
  record_action now auth.actor ctx
      (record (done (codes "user.update") (user_ref id after.username)) {
        before = some (summary before);
        after = some (summary after);
      })
  pure after

unfoldable pub update : Timestamp → Auth → Context → Ident → UserUpdate → Handler User
update now auth ctx id body = do
  before ← update_read now auth id body
  update_write now auth ctx before id body

-- `DELETE FROM users`, with what the foreign keys delete.
abbrev pub delete_user : Ident → Db → Db
delete_user id db = record db {
  users = delete_where (has_id id) db.users;
  sessions = delete_where (λ r. r.user_id == id) db.sessions;
  tokens = delete_where (λ r. r.user_id == id) db.tokens;
}

unfoldable pub delete_read : Timestamp → Auth → Ident → Handler User
delete_read now auth id = do
  check (require auth admin)
  raise_if (is_user auth.actor id) (unprocessable (codes "you cannot delete your own account"))
  found ← query (find now id)
  or_raise found (not_found (codes "user"))

unfoldable pub delete_rows : User → Ident → Db → Bool × Db
delete_rows before id db =
    if (is_admin before.role && not before.disabled) && leb (enabled_admins db) 1
    then (false, db)
    else (true, delete_user id db)

unfoldable pub delete_write : Timestamp → Auth → Context → User → Ident → Handler (Unit {0})
delete_write now auth ctx before id = do
  deleted ← call (delete_rows before id)
  raise_if (not deleted) last_admin
  record_action now auth.actor ctx
      (record (done (codes "user.delete") (user_ref id before.username)) {
        before = some (summary before);
      })

unfoldable pub delete : Timestamp → Auth → Context → Ident → Handler (Unit {0})
delete now auth ctx id = do before ← delete_read now auth id; delete_write now auth ctx before id
