-- ===== src/Auth/Session/Lifetime.antt =====
-- How long a session of session.rs lives.
use mandrake.Common.{
  ℕ, ◌+◌, ◌*◌, ◌≤◌, ◌<◌, ◌≡◌, refl, Bool, true, false, Option, none, some, List, [], ◌∷◌, ◌++◌,
  arith, All, find?, ◌⊎◌, if◌then◌else◌,
}
use mandrake.Common.Table.{update_where, delete_where}
use mandrake.Common.Text.{Text}
use mandrake.Common.Int.{pos, leb_ℤ}
use mandrake.Core.Time.{Timestamp, second, seconds_since}
use mandrake.Daemon.Store.{SessionRow, Db}
use mandrake.Auth.External.{External}
use mandrake.Auth.Token.{hash}
use mandrake.Auth.Session.{absolute_secs, touch_secs, has_hash, refresh, create, touch}

-- The idle limit never passes the absolute one, which lies seven days after the session began.
pub record IsBounded (r : SessionRow) : Type 0 where
  pub idle_le : r.idle_expires_at ≤ r.expires_at
  pub absolute : r.expires_at ≡ r.created_at + absolute_secs * second

abbrev pub AreBounded : Db → Type 0
AreBounded db = All IsBounded db.sessions

refresh-IsBounded : (now : Timestamp) (r : SessionRow) → IsBounded r → IsBounded (refresh now r)
refresh-IsBounded now r h = ground arith

update_where-All :
    (P : SessionRow → Type 0) (p : SessionRow → Bool) (f : SessionRow → SessionRow)
    (rs : List SessionRow)
    → ((r : SessionRow) → P r → P (f r))
    → All P rs
    → All P (update_where p f rs)
update_where-All P p f [] keeps h = tt
update_where-All P p f (r ∷ rs) keeps h = (changed (p r), update_where-All P p f rs keeps h.1)
  where
    changed : (b : Bool) → P (if b then f r else r)
    changed true = keeps r h.0
    changed false = h.0

delete_where-All :
    (P : SessionRow → Type 0) (p : SessionRow → Bool) (rs : List SessionRow)
    → All P rs
    → All P (delete_where p rs)
delete_where-All P p [] h = tt
delete_where-All P p (r ∷ rs) h = ground (arith, delete_where-All P p rs h.1)

insert_row-All :
    (P : SessionRow → Type 0) (r : SessionRow) (rs : List SessionRow)
    → All P rs
    → P r
    → All P (rs ++ r ∷ [])
insert_row-All P r [] h p = (p, tt)
insert_row-All P r (x ∷ rs) h p = (h.0, insert_row-All P r rs h.1 p)

find?-delete_where :
    (p : SessionRow → Bool) (rs : List SessionRow) → find? p (delete_where p rs) ≡ none
find?-delete_where p [] = refl
find?-delete_where p (r ∷ rs) = ground (arith, find?-delete_where p rs)

-- The row that `touch` gives back.
abbrev touched : Timestamp → SessionRow → SessionRow
touched now r =
    if leb_ℤ (pos touch_secs) (seconds_since now r.last_seen_at)
    then record r { idle_expires_at = (refresh now r).idle_expires_at }
    else r

module _ (ext : External) where
  -- Creating a session keeps all stored sessions bounded, the new one included.
  pub create-AreBounded :
      (secret : Text) (now : Timestamp) (user : ℕ) (source : Option Text) (db : Db)
      → AreBounded db
      → AreBounded (create ext secret now user source db).1
  unfolding create
  create-AreBounded secret now user source db h =
      insert_row-All IsBounded _ db.sessions h (omega arith)

  -- Using a session keeps all stored sessions bounded: no idle limit is past the absolute one, which
  -- lies seven days after the session began.
  pub touch-AreBounded :
      (secret : Text) (now : Timestamp) (db : Db)
      → AreBounded db
      → AreBounded (touch ext secret now db).1
  unfolding touch
  touch-AreBounded secret now db h = ground (
    arith,
    update_where-All IsBounded (has_hash (hash ext secret)) (refresh now) db.sessions
        (refresh-IsBounded now) h,
    delete_where-All IsBounded (has_hash (hash ext secret)) db.sessions h,
  )

  touch_found :
      (secret : Text) (now : Timestamp) (db : Db) {row : SessionRow}
      → find? (has_hash (hash ext secret)) db.sessions ≡ some row
      → IsBounded row
      → now < row.idle_expires_at
      → (touch ext secret now db).0 ≡ some (touched now row)
  unfolding touch
  touch_found secret now db found bounded live = ground arith

  -- A cookie whose stored session is bounded and has its idle limit ahead brings it back with the
  -- same owner and absolute limit; its idle limit then still lies ahead, and is not past the
  -- absolute one.
  pub touch_live :
      (secret : Text) (now : Timestamp) (db : Db) {row : SessionRow}
      → find? (has_hash (hash ext secret)) db.sessions ≡ some row
      → IsBounded row
      → now < row.idle_expires_at
      → (row' : SessionRow) × ((touch ext secret now db).0 ≡ some row')
        × (row'.user_id ≡ row.user_id)
        × (row'.expires_at ≡ row.expires_at)
        × (row'.idle_expires_at ≤ row.expires_at)
        × (now < row'.idle_expires_at)
  touch_live secret now db {row} found bounded live = (
    touched now row,
    touch_found secret now db found bounded live,
    ground arith,
    ground arith,
    ground arith,
    ground arith,
  )

  -- Where the stored session of a cookie is at either of its limits or past it, nothing comes back,
  -- and no row with its hash is left.
  pub touch_over :
      (secret : Text) (now : Timestamp) (db : Db) {row : SessionRow}
      → find? (has_hash (hash ext secret)) db.sessions ≡ some row
      → (row.idle_expires_at ≤ now) ⊎ (row.expires_at ≤ now)
      → ((touch ext secret now db).0 ≡ none)
        × (find? (has_hash (hash ext secret)) (touch ext secret now db).1.sessions ≡ none)
  unfolding touch
  touch_over secret now db found over =
      ground (arith, find?-delete_where (has_hash (hash ext secret)) db.sessions)
