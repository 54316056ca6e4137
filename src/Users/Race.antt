-- ===== src/Users/Race.antt =====
-- Between the two calls of `update` in users.rs the user may change.
use mandrake.Common.{◌≡◌, true, false, ◌||◌, some, arith, find?}
use mandrake.Core.Time.{Timestamp}
use mandrake.Core.Role.{Ident}
use mandrake.Daemon.Store.{UserRow, App, Db}
use mandrake.Daemon.Audit.{Context}
use mandrake.Auth.Session.{delete_for_user}
use mandrake.Auth.Extract.{Auth}
use mandrake.Users.{
  User, has_id, is_enabled_admin, enabled_admins, UserUpdate, demotes, disables, apply_update,
  loses_admin, update_rows, update_write,
}
use mandrake.Users.Admins.{IdsDistinct, count_update, update_write-users}

update_rows_race :
    (now : Timestamp) (before : User) (id : Ident) (body : UserUpdate) (db : Db) (r : UserRow)
    → IdsDistinct db.users
    → find? (has_id id) db.users ≡ some r
    → is_enabled_admin r ≡ true
    → enabled_admins db ≡ 1
    → loses_admin before body ≡ false
    → (demotes body || disables body) ≡ true
    → enabled_admins (update_rows now before id body db).1 ≡ 0
unfolding update_rows delete_for_user
update_rows_race now before id body db r d found is_last one stale takes =
    ground (arith, count_update is_enabled_admin id (apply_update now body) db.users r d found)

-- Where the second call of `update` demotes or disables a user who by then is the only enabled
-- admin, but was no enabled admin when the first call read them, no enabled admin is left.
pub update_write_race :
    (now : Timestamp) (auth : Auth) (ctx : Context) (before : User) (id : Ident) (body : UserUpdate)
    (s : App) (r : UserRow)
    → IdsDistinct s.db.users
    → find? (has_id id) s.db.users ≡ some r
    → is_enabled_admin r ≡ true
    → enabled_admins s.db ≡ 1
    → loses_admin before body ≡ false
    → (demotes body || disables body) ≡ true
    → enabled_admins (update_write now auth ctx before id body s).1.db ≡ 0
update_write_race now auth ctx before id body s r d found is_last one stale takes =
    rw (update_write-users now auth ctx before id body s)
      (update_rows_race now before id body s.db r d found is_last one stale takes)
