-- ===== src/Auth/Session.antt =====
-- crates/mandraked/src/auth/session.rs: the sessions of the console. Its `sweep` is in
-- Idempotency/Sweep.
pub mod Lifetime
use mandrake.Common.{
  ℕ, suc, ◌*◌, Bool, true, false, not, ◌&&◌, ◌||◌, List, [], ◌∷◌, ◌++◌, Option, none, some, leb,
  min, find?, if◌then◌else◌, or_else, ◌==◌, map,
}
use mandrake.Common.Int.{ℤ, pos, leb_ℤ}
use mandrake.Common.Table.{update_where, delete_where, insert_row}
use mandrake.Common.Text.{Text, codes, same_text}
use mandrake.Common.Text.Parts.{trim, split, split_once}
use mandrake.Core.Time.{Timestamp, plus_seconds, seconds_since}
use mandrake.Core.Role.{Ident}
use mandrake.Daemon.Store.{SessionRow, Db}
use mandrake.Auth.External.{External}
use mandrake.Auth.Token.{hash}

unfoldable pub cookie_name : Text
unfolding codes
cookie_name = codes "mandrake_session"

abbrev pub idle_secs : ℕ
idle_secs = 12 * 3600

abbrev pub absolute_secs : ℕ
absolute_secs = 7 * 24 * 3600

-- How often `last_seen_at` is written back.
abbrev pub touch_secs : ℕ
touch_secs = 60

abbrev pub has_hash : Text → SessionRow → Bool
has_hash h r = same_text r.hash h

-- `now >= row.expires_at || now >= row.idle_expires_at`
abbrev pub is_expired : Timestamp → SessionRow → Bool
is_expired now r = leb r.expires_at now || leb r.idle_expires_at now

-- The row as it is written back on use.
abbrev pub refresh : Timestamp → SessionRow → SessionRow
refresh now r = record r {
  last_seen_at = now;
  idle_expires_at = min (plus_seconds now (pos idle_secs)) r.expires_at;
}

unfoldable pub delete : Text → Db → Db
delete h db = record db { sessions = delete_where (has_hash h) db.sessions }

abbrev pub owned_except : Ident → Option Text → SessionRow → Bool
owned_except user kept r = r.user_id == user && not (same_text r.hash (or_else kept []))

unfoldable pub delete_for_user : Ident → Option Text → Db → Db
delete_for_user user kept db = record db {
  sessions = delete_where (owned_except user kept) db.sessions;
}

module _ (ext : External) where
  -- The secret is the base64url text of 32 random bytes.
  unfoldable pub create : Text → Timestamp → Ident → Option Text → Db → SessionRow × Db
  create secret now user source db =
      let row : SessionRow = record {
        hash = hash ext secret;
        user_id = user;
        created_at = now;
        last_seen_at = now;
        expires_at = plus_seconds now (pos absolute_secs);
        idle_expires_at = plus_seconds now (pos idle_secs);
        source = source;
      } in
      (row, record db { sessions = insert_row row db.sessions })

  unfoldable pub touch : Text → Timestamp → Db → Option SessionRow × Db
  unfolding delete
  touch secret now db =
      let h = hash ext secret in
      elim (find? (has_hash h) db.sessions) [
        | none ↦ (none, db)
        | some row ↦
            if is_expired now row
            then (none, delete h db)
            else if leb_ℤ (pos touch_secs) (seconds_since now row.last_seen_at)
            then (
              some (record row { idle_expires_at = (refresh now row).idle_expires_at }),
              record db { sessions = update_where (has_hash h) (refresh now) db.sessions },
            )
            else (some row, db)
      ]

unfoldable pub clear_cookie : Text
unfolding cookie_name codes
clear_cookie = cookie_name ++ codes "=; Path=/; HttpOnly; Secure; SameSite=Strict; Max-Age=0"

unfoldable pub set_cookie : Text → Text
unfolding cookie_name codes
set_cookie secret =
    cookie_name
    ++ codes "="
    ++ secret
    ++ codes "; Path=/; HttpOnly; Secure; SameSite=Strict; Max-Age=604800"

-- The value of one `name=value` pair, if the name is the cookie's.
abbrev pub pair_value : Text → Option Text
unfolding cookie_name
pair_value pair = elim (split_once b'=' pair) [
  | none ↦ none
  | some (name, value) ↦ if same_text name cookie_name then some value else none
]

abbrev pub find_map {ℓ κ} : {A : Type ℓ} {B : Type κ} → (A → Option B) → List A → Option B
find_map f [] = none
find_map f (x ∷ xs) = let rest = find_map f xs in elim (f x) [ none ↦ rest | some b ↦ some b ]

unfoldable pub from_cookie_header : Text → Option Text
unfolding cookie_name trim
from_cookie_header header = find_map pair_value (map trim (split b';' header))
