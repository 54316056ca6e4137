-- ===== src/Core/Role.antt =====
-- crates/mandrake-core/src/role.rs and actor.rs: roles, and the principal behind a request.
use mandrake.Common.{ℕ, Bool, true, false, Option, none, some, leb, ite, ◌==◌, is_some_and}
use mandrake.Common.Text.{Text, codes, text_dec}

abbrev pub Ident : Type 0
Ident = ℕ

pub data Role : Type 0 where
  viewer operator admin : Role

-- The derived order: that of the declaration.
abbrev pub rank : Role → ℕ
rank viewer = 0
rank operator = 1
rank admin = 2

pub Role-discrete : Discrete Role
Role-discrete = hlevel

abbrev pub is_admin : Role → Bool
is_admin admin = true
is_admin _ = false

-- `self >= required`
abbrev pub allows : Role → Role → Bool
allows self required = leb (rank required) (rank self)

unfoldable pub as_str : Role → Text
as_str viewer = codes "viewer"
as_str operator = codes "operator"
as_str admin = codes "admin"

-- `none` is `UnknownRole`.
unfoldable pub from_str : Text → Option Role
from_str s = ite (text_dec s (codes "viewer")) (some viewer) (
    ite (text_dec s (codes "operator")) (some operator)
      (ite (text_dec s (codes "admin")) (some admin) none))

pub data Via : Type 0 where
  session token socket : Via

pub record Actor : Type 0 where
  pub id : Option Ident
  pub username : Text
  pub role : Role
  pub via : Via
  pub token_id : Option Ident

unfoldable pub root : Actor
root = record {
  id = none;
  username = codes "root";
  role = admin;
  via = Via.socket;
  token_id = none;
}

abbrev pub is_user : Actor → Ident → Bool
is_user a id = is_some_and a.id (λ i. i == id)
