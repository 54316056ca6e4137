-- ===== src/Scenarios/Accounts.antt =====
-- The theorems on users, on the scenario's host.
use mandrake.Common.{ℕ, ◌≡◌, ◌≢◌, refl, true, [], ◌∷◌, Option, none, some, arith}
use mandrake.Core.Role.{Role, root}
use mandrake.Daemon.Store.{App}
use mandrake.Auth.Extract.{root_auth, authenticate}
use mandrake.Auth.Session.{delete_for_user}
use mandrake.Daemon.Audit.{record_action}
use mandrake.Users.{
  UserUpdate, from_row, enabled_admins, update_read, update_rows, update_write, update, delete_read,
  delete_rows, delete_write, delete,
}
use mandrake.Users.Admins.{HasAdmin, update-HasAdmin, delete-HasAdmin}
use mandrake.Users.Disabling.{update_shuts_out, delete_shuts_out}
use mandrake.Users.Race.{update_write_race}
use mandrake.Scenarios.{plain, bob, db, app, ctx, as_alice, by_socket}

abbrev disable : UserUpdate
disable = record { role = none; display_name = none; disabled = some true }

-- Two admins are enabled, and bob is disabled or deleted.
update-HasAdmin_example : HasAdmin (update 5 as_alice ctx 2 disable app).1
update-HasAdmin_example =
    update-HasAdmin 5 as_alice ctx 2 disable app (refl, (refl, tt)) (omega arith)

delete-HasAdmin_example : HasAdmin (delete 5 as_alice ctx 2 app).1
delete-HasAdmin_example = delete-HasAdmin 5 as_alice ctx 2 app (refl, (refl, tt)) (omega arith)

update_shuts_out_example : ◌≢◌ {A = Option ℕ} none (some 2)
unfolding update update_read update_write update_rows delete_for_user record_action authenticate
    root
update_shuts_out_example =
    update_shuts_out plain 5 as_alice ctx 2 app disable 6 by_socket
      {user = from_row 5 (record bob { disabled = true; updated_at = 5 })} {caller = root_auth} refl
      refl refl

delete_shuts_out_example : ◌≢◌ {A = Option ℕ} none (some 2)
unfolding delete delete_read delete_write delete_rows record_action authenticate root
delete_shuts_out_example =
    delete_shuts_out plain 5 as_alice ctx 2 app 6 by_socket {caller = root_auth} refl refl

-- Bob was disabled when the update of the last admin's role was read.
abbrev demote : UserUpdate
demote = record { role = some Role.viewer; display_name = none; disabled = none }

abbrev only_bob : App
only_bob = record app { db = record db { users = bob ∷ [] } }

update_write_race_example :
    enabled_admins
      (update_write 5 as_alice ctx
        (from_row 4 (record bob { disabled = true }))
        2
        demote
        only_bob).1.db
    ≡ 0
update_write_race_example =
    update_write_race 5 as_alice ctx (from_row 4 (record bob { disabled = true })) 2 demote only_bob
      bob (refl, tt) refl refl refl refl refl
