-- ===== src/Users/Creation.antt =====
-- `create` of crates/mandraked/src/routes/users.rs, with its rule for names. The id of the new user and
-- the salt of its password are arguments.
use mandrake.Common.{
  ℕ, Bool, true, false, not, ◌&&◌, ◌||◌, [], ◌∷◌, ◌++◌, Option, none, some, leb, ltb, find?, all,
  if◌then◌else◌, is_some, ◌==◌,
}
use mandrake.Common.Table.{insert_row}
use mandrake.Common.Text.{Text, codes, same_text}
use mandrake.Common.Text.Parts.{utf8_len}
use mandrake.Core.Time.{Timestamp}
use mandrake.Core.Role.{Ident, Role, admin}
use mandrake.Core.Problem.{Problem, unprocessable, conflict, internal}
use mandrake.Daemon.Store.{UserRow, Db}
use mandrake.Daemon.Handler.{Handler, Result, ok, err, ◌>>=◌, ◌>>◌, pure, call, check, or_raise}
use mandrake.Daemon.Audit.{Context, done, record_action}
use mandrake.Auth.External.{External}
use mandrake.Auth.Extract.{Auth, require}
use mandrake.Users.{User, find, summary, user_ref}
use mandrake.Users.Passwords.{check_policy}

abbrev lowercase : ℕ → Bool
lowercase c = leb b'a' c && leb c b'z'

abbrev digit : ℕ → Bool
digit c = leb b'0' c && leb c b'9'

abbrev first_ok : Text → Bool
first_ok [] = false
first_ok (c ∷ s) = lowercase c || c == b'_'

abbrev rest_ok : Text → Bool
rest_ok [] = true
rest_ok (c ∷ s) = all (λ d. lowercase d || digit d || d == b'_' || d == b'.' || d == b'-') s

abbrev pub username_rule : Problem
username_rule = unprocessable (
    codes
      "username must be 1-32 lowercase letters, digits, `_`, `.`, or `-`, starting with a letter or `_`")

unfoldable pub validate_username : Text → Result (Unit {0})
validate_username name =
    if not (first_ok name) || not (rest_ok name) || ltb 32 (utf8_len name)
    then err username_rule
    else ok tt

pub record UserCreate : Type 0 where
  pub username : Text
  pub password : Text
  pub role : Role
  pub display_name : Option Text

abbrev row_of : Timestamp → Ident → Text → UserCreate → UserRow
row_of now id hash body = record {
  id = id;
  username = body.username;
  display_name = body.display_name;
  role = body.role;
  password_hash = hash;
  disabled = false;
  failed_logins = 0;
  first_failed_at = none;
  locked_until = none;
  last_login_at = none;
  created_at = now;
  updated_at = now;
}

unfoldable pub create_rows : Timestamp → Ident → Text → UserCreate → Db → Option User × Db
create_rows now id hash body db =
    if is_some (find? (λ r. same_text r.username body.username) db.users)
    then (none, db)
    else (let db' = record db { users = insert_row (row_of now id hash body) db.users } in
        (find now id db', db'))

module _ (ext : External) where
  unfoldable pub create : Timestamp → Ident → ℕ → Auth → Context → UserCreate → Handler User
  create now id salt auth ctx body = do
    check (require auth admin)
    check (validate_username body.username)
    check (check_policy body.password)
    hash ← or_raise (ext.hash_password salt body.password) internal
    created ← call (create_rows now id hash body)
    user ←
        or_raise created
          (conflict (codes "username `" ++ body.username ++ codes "` already exists"))
    record_action now auth.actor ctx
        (record (done (codes "user.create") (user_ref user.id user.username)) {
          after = some (summary user);
        })
    pure user
