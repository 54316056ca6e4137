-- ===== src/Users/Disabling.antt =====
-- Disabling or deleting a user in users.rs shuts them out of every later request.
use mandrake.Common.{◌≡◌, ◌≢◌, sym, ap, ◌∙◌, true, some, List, [], ◌∷◌, Memᴰ, arith, All}
use mandrake.Common.Table.{update_where, delete_where}
use mandrake.Core.Time.{Timestamp}
use mandrake.Core.Role.{Ident}
use mandrake.Daemon.Store.{UserRow, App, Db}
use mandrake.Daemon.Handler.{ok}
use mandrake.Daemon.Steps.{bind_inv}
use mandrake.Daemon.Audit.{Context}
use mandrake.Auth.External.{External}
use mandrake.Auth.Session.{delete_for_user}
use mandrake.Auth.Extract.{Auth, Parts, authenticate}
use mandrake.Auth.Extract.Sound.{disabled_locked_out}
use mandrake.Users.{
  User, has_id, UserUpdate, disables, apply_update, update_read, update_rows, update_write, update,
  delete_read, delete_rows, delete_write, delete,
}
use mandrake.Users.Admins.{update_write-users, delete_write-users}

-- Every row of the id is disabled.
abbrev IsShut : Ident → List UserRow → Type 0
IsShut id rs = (u : UserRow) → Memᴰ u rs → u.id ≡ id → u.disabled ≡ true

-- The same, row by row.
abbrev AllShut : Ident → List UserRow → Type 0
AllShut id rs = All (λ u. u.id ≡ id → u.disabled ≡ true) rs

AllShut-IsShut : (id : Ident) (rs : List UserRow) → AllShut id rs → IsShut id rs
AllShut-IsShut id [] a u m e = elim m [ ]
AllShut-IsShut id (r ∷ rs) a u (Memᴰ.head p) e =
    ap (λ x. x.disabled) p ∙ a.0 (sym (ap (λ x. x.id) p) ∙ e)
AllShut-IsShut id (r ∷ rs) a u (Memᴰ.tail m) e = AllShut-IsShut id rs a.1 u m e

update_where-AllShut :
    (id : Ident) (now : Timestamp) (body : UserUpdate) (rs : List UserRow)
    → disables body ≡ true
    → AllShut id (update_where (has_id id) (apply_update now body) rs)
update_where-AllShut id now body [] h = tt
update_where-AllShut id now body (r ∷ rs) h =
    (λ e. ground arith, update_where-AllShut id now body rs h)

delete_where-AllShut : (id : Ident) (rs : List UserRow) → AllShut id (delete_where (has_id id) rs)
delete_where-AllShut id [] = tt
delete_where-AllShut id (r ∷ rs) = ground (arith, delete_where-AllShut id rs)

-- Both writes, where they are made.
update_rows-users :
    (now : Timestamp) (before : User) (id : Ident) (body : UserUpdate) (db : Db) {after : User}
    → (update_rows now before id body db).0 ≡ some after
    → (update_rows now before id body db).1.users
      ≡ update_where (has_id id) (apply_update now body) db.users
unfolding update_rows delete_for_user
update_rows-users now before id body db e = ground arith

delete_rows-users :
    (before : User) (id : Ident) (db : Db)
    → (delete_rows before id db).0 ≡ true
    → (delete_rows before id db).1.users ≡ delete_where (has_id id) db.users
unfolding delete_rows
delete_rows-users before id db e = ground arith

update_write_inv :
    (now : Timestamp) (auth : Auth) (ctx : Context) (before : User) (id : Ident) (body : UserUpdate)
    (s : App) {user : User}
    → (update_write now auth ctx before id body s).0 ≡ ok user
    → (update_rows now before id body s.db).0 ≡ some user
unfolding update_write
update_write_inv now auth ctx before id body s h = ground arith

delete_write_inv :
    (now : Timestamp) (auth : Auth) (ctx : Context) (before : User) (id : Ident) (s : App)
    → (delete_write now auth ctx before id s).0 ≡ ok tt
    → (delete_rows before id s.db).0 ≡ true
unfolding delete_write
delete_write_inv now auth ctx before id s h = ground arith

update_write-AllShut :
    (now : Timestamp) (auth : Auth) (ctx : Context) (before : User) (id : Ident) (body : UserUpdate)
    (s : App) {user : User}
    → disables body ≡ true
    → (update_write now auth ctx before id body s).0 ≡ ok user
    → AllShut id (update_write now auth ctx before id body s).1.db.users
update_write-AllShut now auth ctx before id body s h e =
    rw
      (
        update_write-users now auth ctx before id body s,
        update_rows-users now before id body s.db
            (update_write_inv now auth ctx before id body s e),
      )
      (update_where-AllShut id now body s.db.users h)

delete_write-AllShut :
    (now : Timestamp) (auth : Auth) (ctx : Context) (before : User) (id : Ident) (s : App)
    → (delete_write now auth ctx before id s).0 ≡ ok tt
    → AllShut id (delete_write now auth ctx before id s).1.db.users
delete_write-AllShut now auth ctx before id s e =
    rw
      (
        delete_write-users now auth ctx before id s,
        delete_rows-users before id s.db (delete_write_inv now auth ctx before id s e),
      )
      (delete_where-AllShut id s.db.users)

update-AllShut :
    (now : Timestamp) (auth : Auth) (ctx : Context) (id : Ident) (body : UserUpdate) (s : App)
    {user : User}
    → disables body ≡ true
    → (update now auth ctx id body s).0 ≡ ok user
    → AllShut id (update now auth ctx id body s).1.db.users
unfolding update
update-AllShut now auth ctx id body s h e =
    let m = update_read now auth id body in
    let (before, same) = bind_inv m (λ before. update_write now auth ctx before id body) s e in
    rw same
      (update_write-AllShut now auth ctx before id body (m s).1 h (sym (ap (λ r. r.0) same) ∙ e))

delete-AllShut :
    (now : Timestamp) (auth : Auth) (ctx : Context) (id : Ident) (s : App)
    → (delete now auth ctx id s).0 ≡ ok tt
    → AllShut id (delete now auth ctx id s).1.db.users
unfolding delete
delete-AllShut now auth ctx id s e =
    let m = delete_read now auth id in
    let (before, same) = bind_inv m (λ before. delete_write now auth ctx before id) s e in
    rw same (delete_write-AllShut now auth ctx before id (m s).1 (sym (ap (λ r. r.0) same) ∙ e))

module _ (ext : External) (now : Timestamp) (auth : Auth) (ctx : Context) (id : Ident)
    (s : App) where
  -- Once an update that disables a user has succeeded, no request, at whatever time and whatever it
  -- carries, is let in as that user on the state it leaves.
  pub update_shuts_out :
      (body : UserUpdate) (later : Timestamp) (parts : Parts) {user : User} {caller : Auth}
      → disables body ≡ true
      → (update now auth ctx id body s).0 ≡ ok user
      → (authenticate ext later parts (update now auth ctx id body s).1).0 ≡ ok caller
      → caller.actor.id ≢ some id
  update_shuts_out body later parts h e =
      disabled_locked_out ext later parts (update now auth ctx id body s).1 id
        (AllShut-IsShut id _ (update-AllShut now auth ctx id body s h e))

  -- Once a user has been deleted, no request, at whatever time and whatever it carries, is let in as
  -- that user on the state that is left.
  pub delete_shuts_out :
      (later : Timestamp) (parts : Parts) {caller : Auth}
      → (delete now auth ctx id s).0 ≡ ok tt
      → (authenticate ext later parts (delete now auth ctx id s).1).0 ≡ ok caller
      → caller.actor.id ≢ some id
  delete_shuts_out later parts e =
      disabled_locked_out ext later parts (delete now auth ctx id s).1 id
        (AllShut-IsShut id _ (delete-AllShut now auth ctx id s e))
