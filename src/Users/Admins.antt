-- ===== src/Users/Admins.antt =====
-- There is always an enabled admin: no request of users.rs takes the last one away.
use mandrake.Common.{
  ℕ, ◌+◌, ◌≤◌, ◌≡◌, refl, Bool, true, false, List, [], ◌∷◌, Option, none, some, arith, find?,
  count_if, ◌==◌, Bool-cases, inl, inr,
}
use mandrake.Common.Table.{update_where, delete_where}
use mandrake.Common.Text.{Text}
use mandrake.Core.Time.{Timestamp}
use mandrake.Core.Role.{Ident, Role, admin, is_admin, is_user}
use mandrake.Daemon.Store.{UserRow, Db, App}
use mandrake.Daemon.Handler.{ok}
use mandrake.Daemon.Steps.{Result-cases, bind_ok, bind_err}
use mandrake.Daemon.Audit.{Context, record_action, Record}
use mandrake.Auth.Session.{delete_for_user}
use mandrake.Auth.Extract.{Auth}
use mandrake.Users.{
  User, from_row, has_id, is_enabled_admin, enabled_admins, UserUpdate, apply_update, update_read,
  loses_admin, update_rows, update_write, update, delete_read, delete_rows, delete_write, delete,
}

-- `id` is the primary key.
abbrev pub IdsDistinct : List UserRow → Type 0
IdsDistinct [] = Unit
IdsDistinct (r ∷ rs) = (find? (has_id r.id) rs ≡ none) × IdsDistinct rs

abbrev pub weight : Bool → ℕ
weight true = 1
weight false = 0

update_missing :
    (id : Ident) (f : UserRow → UserRow) (rs : List UserRow)
    → find? (has_id id) rs ≡ none
    → update_where (has_id id) f rs ≡ rs
update_missing id f [] h = refl
update_missing id f (r ∷ rs) h = ground (arith, update_missing id f rs)

-- An update of one row changes a count by that row.
pub count_update :
    (p : UserRow → Bool) (id : Ident) (f : UserRow → UserRow) (rs : List UserRow) (r : UserRow)
    → IdsDistinct rs
    → find? (has_id id) rs ≡ some r
    → count_if p (update_where (has_id id) f rs) + weight (p r) ≡ count_if p rs + weight (p (f r))
count_update p id f [] r d h = cc
count_update p id f (x ∷ rs) r d h = elim (Bool-cases (x.id == id)) [
  | inl here ↦ ground (arith, update_missing id f rs)
  | inr later ↦ ground (arith, count_update p id f rs r d.1)
]

delete_missing :
    (id : Ident) (rs : List UserRow)
    → find? (has_id id) rs ≡ none
    → delete_where (has_id id) rs ≡ rs
delete_missing id [] h = refl
delete_missing id (r ∷ rs) h = ground (arith, delete_missing id rs)

count_delete :
    (p : UserRow → Bool) (id : Ident) (rs : List UserRow) (r : UserRow)
    → IdsDistinct rs
    → find? (has_id id) rs ≡ some r
    → count_if p (delete_where (has_id id) rs) + weight (p r) ≡ count_if p rs
count_delete p id [] r d h = cc
count_delete p id (x ∷ rs) r d h = elim (Bool-cases (x.id == id)) [
  | inl here ↦ ground (arith, delete_missing id rs)
  | inr later ↦ ground (arith, count_delete p id rs r d.1)
]

delete_for_user-users :
    (id : Ident) (kept : Option Text) (db : Db) → (delete_for_user id kept db).users ≡ db.users
unfolding delete_for_user
delete_for_user-users id kept db = refl

-- An update that does not lose the admin leaves an enabled admin enabled, and an admin.
apply_update_keeps :
    (now : Timestamp) (body : UserUpdate) (r : UserRow)
    → loses_admin (from_row now r) body ≡ false
    → weight (is_enabled_admin r) ≤ weight (is_enabled_admin (apply_update now body r))
apply_update_keeps now body r h = ground arith

-- The second call of `update`, where what the first call saw is still so.
update_rows-admins :
    (now : Timestamp) (r : UserRow) (id : Ident) (body : UserUpdate) (db : Db)
    → IdsDistinct db.users
    → find? (has_id id) db.users ≡ some r
    → 1 ≤ enabled_admins db
    → 1 ≤ enabled_admins (update_rows now (from_row now r) id body db).1
unfolding update_rows
update_rows-admins now r id body db d found some_admin =
    elim (Bool-cases (loses_admin (from_row now r) body)) [
      | inl loses ↦
          ground
            (arith, count_update is_enabled_admin id (apply_update now body) db.users r d found)
      | inr keeps ↦ ground (
        arith,
        count_update is_enabled_admin id (apply_update now body) db.users r d found,
        apply_update_keeps now body r keeps,
      )
    ]

delete_rows-admins :
    (now : Timestamp) (r : UserRow) (id : Ident) (db : Db)
    → IdsDistinct db.users
    → find? (has_id id) db.users ≡ some r
    → 1 ≤ enabled_admins db
    → 1 ≤ enabled_admins (delete_rows (from_row now r) id db).1
unfolding delete_rows
delete_rows-admins now r id db d found some_admin =
    ground (arith, count_delete is_enabled_admin id db.users r d found)

-- The first calls only read, and what they see is the stored row.
pub update_read_inv :
    (now : Timestamp) (auth : Auth) (id : Ident) (body : UserUpdate) (s : App) {before : User}
    → (update_read now auth id body s).0 ≡ ok before
    → (r : UserRow) × (find? (has_id id) s.db.users ≡ some r) × (before ≡ from_row now r)
unfolding update_read
update_read_inv now auth id body s h = ground arith

pub update_read-state :
    (now : Timestamp) (auth : Auth) (id : Ident) (body : UserUpdate) (s : App)
    → (update_read now auth id body s).1 ≡ s
unfolding update_read
update_read-state now auth id body s = ground arith

record_action-users :
    (at : Timestamp) (actor : mandrake.Core.Role.Actor) (ctx : Context) (rec : Record) (s : App)
    → (record_action at actor ctx rec s).1.db.users ≡ s.db.users
unfolding record_action
record_action-users at actor ctx rec s = ground arith

pub update_write-users :
    (now : Timestamp) (auth : Auth) (ctx : Context) (before : User) (id : Ident) (body : UserUpdate)
    (s : App)
    → (update_write now auth ctx before id body s).1.db.users
      ≡ (update_rows now before id body s.db).1.users
unfolding update_write record_action
update_write-users now auth ctx before id body s = ground arith

pub delete_write-users :
    (now : Timestamp) (auth : Auth) (ctx : Context) (before : User) (id : Ident) (s : App)
    → (delete_write now auth ctx before id s).1.db.users ≡ (delete_rows before id s.db).1.users
unfolding delete_write record_action
delete_write-users now auth ctx before id s = ground arith

delete_read_inv :
    (now : Timestamp) (auth : Auth) (id : Ident) (s : App) {before : User}
    → (delete_read now auth id s).0 ≡ ok before
    → (r : UserRow) × (find? (has_id id) s.db.users ≡ some r) × (before ≡ from_row now r)
unfolding delete_read
delete_read_inv now auth id s h = ground arith

pub delete_read-state :
    (now : Timestamp) (auth : Auth) (id : Ident) (s : App) → (delete_read now auth id s).1 ≡ s
unfolding delete_read
delete_read-state now auth id s = ground arith

abbrev pub HasAdmin : App → Type 0
HasAdmin s = 1 ≤ enabled_admins s.db

-- Where user ids are distinct and some admin is enabled, a request to update a user, whatever it
-- asks and whoever makes it, leaves an enabled admin.
pub update-HasAdmin :
    (now : Timestamp) (auth : Auth) (ctx : Context) (id : Ident) (body : UserUpdate) (s : App)
    → IdsDistinct s.db.users
    → HasAdmin s
    → HasAdmin (update now auth ctx id body s).1
unfolding update
update-HasAdmin now auth ctx id body s d some_admin =
    elim (Result-cases (update_read now auth id body s).0) [
      | inr (e, refused) ↦
          rw
            (
              bind_err (update_read now auth id body) _ s refused,
              update_read-state now auth id body s,
            )
            some_admin
      | inl (before, seen) ↦
          let (r, found, same) = update_read_inv now auth id body s seen in
          rw
            (
              bind_ok (update_read now auth id body) _ s seen,
              update_read-state now auth id body s,
              update_write-users now auth ctx before id body s,
              same,
            )
            (update_rows-admins now r id body s.db d found some_admin)
    ]

-- Where user ids are distinct and some admin is enabled, a request to delete a user, whoever makes
-- it, leaves an enabled admin.
pub delete-HasAdmin :
    (now : Timestamp) (auth : Auth) (ctx : Context) (id : Ident) (s : App)
    → IdsDistinct s.db.users
    → HasAdmin s
    → HasAdmin (delete now auth ctx id s).1
unfolding delete
delete-HasAdmin now auth ctx id s d some_admin = elim (Result-cases (delete_read now auth id s).0) [
  | inr (e, refused) ↦
      rw (bind_err (delete_read now auth id) _ s refused, delete_read-state now auth id s)
        some_admin
  | inl (before, seen) ↦
      let (r, found, same) = delete_read_inv now auth id s seen in
      rw
        (
          bind_ok (delete_read now auth id) _ s seen,
          delete_read-state now auth id s,
          delete_write-users now auth ctx before id s,
          same,
        )
        (delete_rows-admins now r id s.db d found some_admin)
]
