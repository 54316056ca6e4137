-- ===== src/Cursor.antt =====
-- crates/mandraked/src/cursor.rs: opaque pagination cursors. The base64 text of a position, and the
-- text that a cursor decodes to, are parameters.
pub mod Rows
pub mod Walk
use mandrake.Common.{
  ℕ, ◌≡◌, Bool, List, Option, none, some, ltb, if◌then◌else◌, or_else, length, take, last?, min,
  max,
}
use mandrake.Common.Text.{Text}

pub record Base64 : Type 0 where
  pub encode : Text → Text
  pub decode : Text → Option Text

abbrev pub max_limit : ℕ
max_limit = 500

abbrev pub default_limit : ℕ
default_limit = 100

pub record Pagination : Type 0 where
  pub cursor : Option Text
  pub limit : Option ℕ

-- `unwrap_or(DEFAULT_LIMIT).clamp(1, MAX_LIMIT)`
abbrev pub limit_of : Pagination → ℕ
limit_of p = min (max (or_else p.limit default_limit) 1) max_limit

module _ (b64 : Base64) where
  abbrev pub after : Pagination → Option Text
  after p = elim p.cursor [ none ↦ none | some c ↦ b64.decode c ]

  -- The list was fetched with one element more than the limit.
  unfoldable pub page : {A : Type 0} → List A → ℕ → (A → Text) → List A × Option Text
  page items limit position =
      if ltb limit (length items)
      then (let kept = take limit items in
          (kept, elim (last? kept) [ none ↦ none | some last ↦ some (b64.encode (position last)) ]))
      else (items, none)
