-- ===== src/Scenarios.antt =====
-- A small host for trying the theorems out: two users, a session, and a limiter of logins.
mod Accounts
mod Sessions
mod Logins
mod Requests
mod Work
mod Hosting
mod Storage
mod Links
mod Paths
mod Zonecfg
mod Caching
use mandrake.Common.{ℕ, ◌*◌, ◌+◌, Bool, true, false, List, [], ◌∷◌, Option, none, some}
use mandrake.Common.Text.{Text, codes, same_text}
use mandrake.Core.Time.{Timestamp, second}
use mandrake.Core.Role.{Role, Via, Actor}
use mandrake.Daemon.Store.{UserRow, SessionRow, Db, App}
use mandrake.Daemon.Audit.{Context}
use mandrake.Auth.External.{External}
use mandrake.Auth.Limiter.{LoginLimiter}
use mandrake.Auth.Token.{hash}
use mandrake.Auth.Extract.{Auth, Parts}

-- A digest and a password hash that change nothing.
abbrev pub plain : External
plain = record {
  sha256 = λ t. t;
  hash_password = λ salt password. some password;
  verify = λ password stored. same_text password stored;
  to_str = λ raw. some raw;
}

abbrev pub alice : UserRow
alice = record {
  id = 1;
  username = codes "alice";
  display_name = none;
  role = Role.admin;
  password_hash = codes "pw";
  disabled = false;
  failed_logins = 0;
  first_failed_at = none;
  locked_until = none;
  last_login_at = none;
  created_at = 0;
  updated_at = 0;
}

abbrev pub bob : UserRow
bob = record alice { id = 2; username = codes "bob" }

abbrev pub secret : Text
secret = codes "k"

-- Alice's session, begun at the epoch.
abbrev pub session : SessionRow
session = record {
  hash = hash plain secret;
  user_id = 1;
  created_at = 0;
  last_seen_at = 0;
  expires_at = 604800 * second;
  idle_expires_at = 43200 * second;
  source = none;
}

abbrev pub db : Db
db = record {
  users = alice ∷ bob ∷ [];
  sessions = session ∷ [];
  tokens = [];
  audit = [];
  events = [];
  last_event = 0;
}

abbrev pub limiter : LoginLimiter
limiter = record { hits = []; max_hits = 10; window = 60 * second; poisoned = false }

abbrev pub app : App
app = record { db = db; login_limiter = limiter; published = [] }

abbrev pub ctx : Context
ctx = record { source = none; request_id = none }

-- Alice's console, and root on the socket.
abbrev pub by_cookie : Parts
by_cookie = record {
  method = codes "POST";
  headers =
      (codes "cookie", codes "mandrake_session=k")
      ∷ (codes "x-mandrake-request", codes "1")
      ∷ (codes "idempotency-key", codes "n1")
      ∷ [];
  peer = none;
}

abbrev pub by_socket : Parts
by_socket = record { method = codes "GET"; headers = []; peer = some (some 0) }

abbrev pub as_alice : Auth
as_alice = record {
  actor = record {
    id = some 1;
    username = codes "alice";
    role = Role.admin;
    via = Via.session;
    token_id = none;
  };
  session_hash = some session.hash;
  expires_at = some session.expires_at;
  idle_expires_at = some session.idle_expires_at;
}
