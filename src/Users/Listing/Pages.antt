-- ===== src/Users/Listing/Pages.antt =====
-- The pages of `list` in users.rs, one after the other.
use mandrake.Common.{
  ℕ, suc, ◌+◌, ◌<◌, ◌≡◌, ◌≢◌, refl, sym, ap, ◌∙◌, Bool, true, false, List, [], ◌∷◌, Option, none,
  some, arith, length, take, keep, All, or_else, count_if,
}
use mandrake.Common.Text.{Text}
use mandrake.Common.Text.Order.{less}
use mandrake.Core.Time.{Timestamp}
use mandrake.Daemon.Store.{UserRow, App}
use mandrake.Daemon.Handler.{Result, ok, err}
use mandrake.Auth.Extract.{Auth}
use mandrake.Cursor.Rows.{keep-All}
use mandrake.Cursor.{Base64, Pagination, limit_of, after, page}
use mandrake.Cursor.Walk.{IsAscending, later, follow, follow_all, page_after}
use mandrake.Users.{User, from_row}
use mandrake.Users.Listing.{by_name, named_after, list, NamesDistinct}
use mandrake.Users.Listing.Sorted.{
  row_name, All-by_name, by_name-IsAscending, name_of, shown, shown-IsAscending, keep-shown,
  take-shown, count_if-shown, length-shown, length-by_name, less_other,
}

add_one : (n : ℕ) → n + 1 ≡ suc n
add_one n = omega arith

less_empty : (x : Text) → less x [] ≡ false
less_empty [] = refl
less_empty (a ∷ x) = refl

-- What a page that came back shows.
abbrev pub contents : Result (List User × Option Text) → List User × Option Text
contents (ok page) = page
contents (err e) = ([], none)

module _ (b64 : Base64) (now : Timestamp) (auth : Auth) (s : App) where
  list-query :
      (p : Pagination)
      → contents (list b64 now auth p s).0
        ≡ page b64
            (shown now (named_after (or_else (after b64 p) []) (limit_of p + 1) s.db.users))
            (limit_of p)
            name_of
  unfolding list
  list-query p = ground arith

  list-page :
      (p : Pagination)
      → contents (list b64 now auth p s).0
        ≡ page_after b64 name_of
            (shown now (by_name s.db.users))
            (or_else (after b64 p) [])
            (limit_of p)
  unfolding list
  list-page p =
      let c = or_else (after b64 p) [] in
      let n = limit_of p in
      let rows = by_name s.db.users in
      let fetched : shown now (named_after c (n + 1) s.db.users)
          ≡ take (suc n) (keep (later name_of c) (shown now rows)) =
        ap (shown now) (ap (λ m. take m (keep (later row_name c) rows)) (add_one n))
        ∙ sym (take-shown now (suc n) (keep (later row_name c) rows))
        ∙ ap (take (suc n)) (sym (keep-shown now c rows)) in
      list-query p ∙ ap (λ t. page b64 t n name_of) fetched

  -- The pages that a client is shown who starts without a cursor and follows the cursors.
  abbrev pub all_pages : ℕ → Option ℕ → List User
  all_pages fuel limit =
      follow (λ p. contents (list b64 now auth p s).0) fuel
        (record { cursor = none; limit = limit })

  -- Nothing is before the empty name.
  All-named :
      (rs : List UserRow)
      → All (λ r. r.username ≢ []) rs
      → All (λ u. later name_of [] u ≡ true) (shown now rs)
  All-named [] h = tt
  All-named (r ∷ rs) h = (less_other r.username [] h.0 (less_empty r.username), All-named rs h.1)

  -- Whatever limit it asks for, a client that follows the cursors from the first page on is shown
  -- every user exactly once, by ascending name, within as many pages as there are users and one more,
  -- where no two users share a name, no name is empty, and base64 decodes what it encodes.
  pub pages_list_users :
      (fuel : ℕ) (limit : Option ℕ)
      → ((t : Text) → b64.decode (b64.encode t) ≡ some t)
      → NamesDistinct s.db.users
      → All (λ r. r.username ≢ []) s.db.users
      → length s.db.users < fuel
      → IsAscending name_of (all_pages fuel limit)
        × ((p : User → Bool)
            → count_if p (all_pages fuel limit) ≡ count_if (λ r. p (from_row now r)) s.db.users)
  pages_list_users fuel limit round distinct named enough = rw walked (
    shown-IsAscending now (by_name s.db.users) (by_name-IsAscending s.db.users distinct),
    λ p. count_if-shown p now s.db.users,
  )
    where
      kept :
          keep (later name_of []) (shown now (by_name s.db.users)) ≡ shown now (by_name s.db.users)
      kept = keep-All _ _ (All-named (by_name s.db.users) (All-by_name _ s.db.users named))

      walked : all_pages fuel limit ≡ shown now (by_name s.db.users)
      walked =
          follow_all b64 name_of (λ p. contents (list b64 now auth p s).0)
            (shown now (by_name s.db.users)) fuel (record { cursor = none; limit = limit }) round
            list-page
            (shown-IsAscending now (by_name s.db.users) (by_name-IsAscending s.db.users distinct))
            (rw (kept, length-shown now (by_name s.db.users), length-by_name s.db.users) enough)
          ∙ kept
