-- ===== src/Users/Passwords.antt =====
-- `set_password` of crates/mandraked/src/routes/users.rs, with the policy of auth/password.rs. The salt
-- is an argument.
use mandrake.Common.{
  ℕ, Bool, true, false, not, ◌&&◌, Option, none, some, ltb, find?, if◌then◌else◌, is_some,
  is_some_and, length,
}
use mandrake.Common.Table.{update_where}
use mandrake.Common.Text.{Text, codes}
use mandrake.Common.Text.Parts.{utf8_len}
use mandrake.Core.Time.{Timestamp}
use mandrake.Core.Role.{Ident, admin, is_user}
use mandrake.Core.Problem.{unprocessable, not_found, forbidden, internal}
use mandrake.Daemon.Store.{Db}
use mandrake.Daemon.Handler.{
  Handler, Result, ok, err, ◌>>=◌, ◌>>◌, call, query, check, raise_if, or_raise,
}
use mandrake.Daemon.Audit.{Context, done, record_action}
use mandrake.Auth.External.{External}
use mandrake.Auth.Session.{delete_for_user}
use mandrake.Auth.Extract.{Auth, require_self_or}
use mandrake.Users.{has_id, find, user_ref}

-- `password::check_policy`, with its message as the handlers report it.
unfoldable pub check_policy : Text → Result (Unit {0})
check_policy password =
    if ltb (length password) 12
    then err (unprocessable (codes "password must be at least 12 characters"))
    else if ltb 1024 (utf8_len password)
    then err (unprocessable (codes "password is too long"))
    else ok tt

pub record PasswordChange : Type 0 where
  pub current_password : Option Text
  pub new_password : Text

module _ (ext : External) where
  -- The closure of `set_password`; `none` where the row of the caller is gone.
  unfoldable pub password_rows :
      Timestamp → Ident → Bool → Option Text → Text → Option Text → Db → Option Bool × Db
  unfolding delete_for_user
  password_rows now id is_self current new_hash kept db =
      let db₁ = record db {
        users =
            update_where (has_id id) (λ r. record r { password_hash = new_hash; updated_at = now })
              db.users;
      } in
      let changed : Option Bool × Db = (some true, delete_for_user id kept db₁) in
      if is_self
      then elim (find? (has_id id) db.users) [
        | none ↦ (none, db)
        | some r ↦
            if not (is_some_and current (λ c. ext.verify c r.password_hash))
            then (some false, db)
            else changed
      ]
      else changed

  unfoldable pub set_password :
      Timestamp → ℕ → Auth → Context → Ident → PasswordChange → Handler (Unit {0})
  set_password now salt auth ctx id body = do
    check (require_self_or auth id admin)
    check (check_policy body.new_password)
    raise_if (is_user auth.actor id && not (is_some body.current_password))
        (unprocessable (codes "current_password is required when changing your own password"))
    found ← query (find now id)
    user ← or_raise found (not_found (codes "user"))
    new_hash ← or_raise (ext.hash_password salt body.new_password) internal
    outcome ← call (
        password_rows now id (is_user auth.actor id) body.current_password new_hash
          auth.session_hash)
    changed ← or_raise outcome internal
    raise_if (not changed) (forbidden (codes "current password is incorrect"))
    record_action now auth.actor ctx (done (codes "user.password") (user_ref id user.username))
