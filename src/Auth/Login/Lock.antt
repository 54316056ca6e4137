-- ===== src/Auth/Login/Lock.antt =====
-- The lock that failed logins put on an account.
use mandrake.Common.{
  ◌<◌, ◌≡◌, refl, Bool, true, false, List, [], ◌∷◌, Option, none, some, arith, find?, ◌==◌,
}
use mandrake.Common.Table.{update_where}
use mandrake.Common.Text.{Text, same_text}
use mandrake.Core.Time.{Timestamp}
use mandrake.Daemon.Store.{UserRow, Db}
use mandrake.Auth.External.{External}
use mandrake.Auth.Login.{
  LoginRequest, Outcome, logged_in, locked, bad, load, lock_of, new_lock, failures, set_failure,
  set_success, update_user, attempt, in_window, lock_secs,
}

-- The first row that passes, after an update that does not change what passes.
find?-update_where :
    (p q : UserRow → Bool) (f : UserRow → UserRow) (rs : List UserRow) (u : UserRow)
    → ((r : UserRow) → p (f r) ≡ p r)
    → find? p rs ≡ some u
    → q u ≡ true
    → find? p (update_where q f rs) ≡ some (f u)
find?-update_where p q f [] u same h t = cc
find?-update_where p q f (r ∷ rs) u same h t =
    ground (arith, same r, find?-update_where p q f rs u same)

module _ (ext : External) (secret : Text) (now : Timestamp) (req : LoginRequest)
    (source : Option Text) (db : Db) where
  -- An attempt at a stored account whose lock ends later than now answers until when it is locked,
  -- whatever the password, and leaves the database as it is.
  pub attempt_locked :
      (u : UserRow) (until : Timestamp)
      → load req.username db ≡ some u
      → u.locked_until ≡ some until
      → now < until
      → attempt ext secret now req source db ≡ (locked until, db)
  unfolding attempt
  attempt_locked u until found lock ahead = ground arith

  -- A wrong password for an account that is not locked.
  pub attempt_wrong :
      (u : UserRow)
      → load req.username db ≡ some u
      → lock_of now u ≡ none
      → ext.verify req.password u.password_hash ≡ false
      → (attempt ext secret now req source db).1 ≡ update_user u.id (set_failure now u) db
  unfolding attempt
  attempt_wrong u found free wrong = ground arith

  -- After an attempt with a wrong password at an account that is not locked, the account loaded by
  -- that name is the same one with the failure counted and, once there are enough, the lock.
  pub load_wrong :
      (u : UserRow)
      → load req.username db ≡ some u
      → lock_of now u ≡ none
      → ext.verify req.password u.password_hash ≡ false
      → load req.username (attempt ext secret now req source db).1 ≡ some (set_failure now u u)
  load_wrong u found free wrong = rw (attempt_wrong u found free wrong) (
      find?-update_where (λ r. same_text r.username req.username) (λ r. r.id == u.id)
        (set_failure now u) db.users u (λ r. refl) found (ground arith))

  -- A login that succeeds is that of the account loaded by the name: it is not locked, enabled, and
  -- has that password, and the session acts as that account with its role.
  pub attempt-logged_in :
      {cookie : Text} {session : mandrake.Auth.Login.Session}
      → (attempt ext secret now req source db).0 ≡ logged_in cookie session
      → (u : UserRow) × (load req.username db ≡ some u)
        × (lock_of now u ≡ none)
        × (u.disabled ≡ false)
        × (ext.verify req.password u.password_hash ≡ true)
        × (session.actor.id ≡ some u.id)
        × (session.actor.role ≡ u.role)
  unfolding attempt
  attempt-logged_in h = ground arith
