-- ===== src/Users/Listing.antt =====
-- `list` of crates/mandraked/src/routes/users.rs: the users by name, a page at a time.
pub mod Sorted
pub mod Pages
use mandrake.Common.{
  ℕ, zero, suc, ◌+◌, ◌≤◌, ◌<◌, ◌≡◌, ◌≢◌, refl, sym, ap, ◌∙◌, Bool, true, false, List, [], ◌∷◌, ◌++◌,
  Option, none, some, arith, map, if◌then◌else◌, length, take, keep, All, Bool-cases, inl, inr,
  or_else, is_some, any, count_if,
}
use mandrake.Common.Text.{Text}
use mandrake.Common.Text.Order.{less, less_trans, less_irrefl, less_asym, less_total}
use mandrake.Core.Time.{Timestamp}
use mandrake.Core.Role.{viewer}
use mandrake.Daemon.Store.{UserRow, Db, App}
use mandrake.Daemon.Handler.{Handler, Result, ok, err, ◌>>=◌, ◌>>◌, pure, check, query}
use mandrake.Auth.Extract.{Auth, require}
use mandrake.Cursor.Rows.{keep-All}
use mandrake.Cursor.{Base64, Pagination, limit_of, after, page}
use mandrake.Cursor.Walk.{IsAscending, later, follow, follow_all, page_after}
use mandrake.Users.{User, from_row}

abbrev pub insert_by_name : UserRow → List UserRow → List UserRow
insert_by_name r [] = r ∷ []
insert_by_name r (x ∷ xs) =
    let rest = insert_by_name r xs in if less x.username r.username then x ∷ rest else r ∷ x ∷ xs

-- `ORDER BY username`
abbrev pub by_name : List UserRow → List UserRow
by_name [] = []
by_name (r ∷ rs) = insert_by_name r (by_name rs)

-- `WHERE username > ?1 ORDER BY username LIMIT ?2`
abbrev pub named_after : Text → ℕ → List UserRow → List UserRow
named_after name n rs = take n (keep (λ r. less name r.username) (by_name rs))

unfoldable pub list : Base64 → Timestamp → Auth → Pagination → Handler (List User × Option Text)
unfolding page
list b64 now auth p = do
  check (require auth viewer)
  rows ←
      query (λ db.
        map (from_row now) (named_after (or_else (after b64 p) []) (limit_of p + 1) db.users))
  pure (page b64 rows (limit_of p) (λ u. u.username))

-- `username` is UNIQUE, and not empty where `validate_username` let it in.
abbrev pub NamesDistinct : List UserRow → Type 0
NamesDistinct [] = Unit
NamesDistinct (r ∷ rs) = (All (λ x. x.username ≢ r.username) rs) × NamesDistinct rs
