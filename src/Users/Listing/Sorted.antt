-- ===== src/Users/Listing/Sorted.antt =====
-- The rows of `list` in users.rs, ordered by name.
use mandrake.Common.{
  ℕ, zero, suc, ◌≡◌, ◌≢◌, refl, ap, ◌∙◌, Bool, true, false, List, [], ◌∷◌, arith, map, length, take,
  keep, All, Bool-cases, inl, inr, count_if,
}
use mandrake.Common.Text.{Text}
use mandrake.Common.Text.Order.{less, less_trans, less_total}
use mandrake.Core.Time.{Timestamp}
use mandrake.Daemon.Store.{UserRow}
use mandrake.Cursor.Walk.{IsAscending, later}
use mandrake.Users.{User, from_row}
use mandrake.Users.Listing.{insert_by_name, by_name, NamesDistinct}

abbrev pub row_name : UserRow → Text
row_name r = r.username

All-insert :
    (P : UserRow → Type 0) (r : UserRow) (xs : List UserRow)
    → P r
    → All P xs
    → All P (insert_by_name r xs)
All-insert P r [] h k = (h, tt)
All-insert P r (x ∷ xs) h k = elim (Bool-cases (less x.username r.username)) [
  | inl e ↦ rw e (k.0, All-insert P r xs h k.1)
  | inr e ↦ rw e (h, k)
]

pub All-by_name : (P : UserRow → Type 0) (rs : List UserRow) → All P rs → All P (by_name rs)
All-by_name P [] h = tt
All-by_name P (r ∷ rs) h = All-insert P r (by_name rs) h.0 (All-by_name P rs h.1)

All-weaken :
    (P Q : UserRow → Type 0)
    → ((x : UserRow) → P x → Q x)
    → (xs : List UserRow) → All P xs
    → All Q xs
All-weaken P Q f [] h = tt
All-weaken P Q f (x ∷ xs) h = (f x h.0, All-weaken P Q f xs h.1)

pub less_other : (x y : Text) → x ≢ y → less x y ≡ false → less y x ≡ true
less_other x y d e = elim (Bool-cases (less y x)) [
  | inl h ↦ h
  | inr h ↦ absurd (d (less_total x y e h))
]

insert-IsAscending :
    (r : UserRow) (xs : List UserRow)
    → All (λ x. x.username ≢ r.username) xs
    → IsAscending row_name xs
    → IsAscending row_name (insert_by_name r xs)
insert-IsAscending r [] d asc = (tt, tt)
insert-IsAscending r (x ∷ xs) d asc = elim (Bool-cases (less x.username r.username)) [
  | inl e ↦ rw e (All-insert _ r xs e asc.0, insert-IsAscending r xs d.1 asc.1)
  | inr e ↦
      let ahead = less_other x.username r.username d.0 e in
      rw e (
        (ahead, All-weaken _ _ (λ y. less_trans r.username x.username y.username ahead) xs asc.0),
        asc,
      )
]

pub by_name-IsAscending : (rs : List UserRow) → NamesDistinct rs → IsAscending row_name (by_name rs)
by_name-IsAscending [] d = tt
by_name-IsAscending (r ∷ rs) d =
    insert-IsAscending r (by_name rs) (All-by_name _ rs d.0) (by_name-IsAscending rs d.1)

abbrev pub name_of : User → Text
name_of u = u.username

abbrev pub shown : Timestamp → List UserRow → List User
shown now rs = map (from_row now) rs

All-shown :
    (now : Timestamp) (c : Text) (rs : List UserRow)
    → All (λ r. later row_name c r ≡ true) rs
    → All (λ u. later name_of c u ≡ true) (shown now rs)
All-shown now c [] h = tt
All-shown now c (r ∷ rs) h = (h.0, All-shown now c rs h.1)

pub shown-IsAscending :
    (now : Timestamp) (rs : List UserRow)
    → IsAscending row_name rs
    → IsAscending name_of (shown now rs)
shown-IsAscending now [] h = tt
shown-IsAscending now (r ∷ rs) h = (All-shown now r.username rs h.0, shown-IsAscending now rs h.1)

pub keep-shown :
    (now : Timestamp) (c : Text) (rs : List UserRow)
    → keep (later name_of c) (shown now rs) ≡ shown now (keep (later row_name c) rs)
keep-shown now c [] = refl
keep-shown now c (r ∷ rs) = ground (arith, keep-shown now c rs)

pub take-shown :
    (now : Timestamp) (n : ℕ) (rs : List UserRow) → take n (shown now rs) ≡ shown now (take n rs)
take-shown now zero rs = refl
take-shown now (suc n) [] = refl
take-shown now (suc n) (r ∷ rs) = ap (◌∷◌ (from_row now r)) (take-shown now n rs)

count_if-insert :
    (p : UserRow → Bool) (r : UserRow) (rs : List UserRow)
    → count_if p (insert_by_name r rs) ≡ count_if p (r ∷ rs)
count_if-insert p r [] = refl
count_if-insert p r (x ∷ xs) = ground (arith, count_if-insert p r xs)

pub count_if-shown :
    (p : User → Bool) (now : Timestamp) (rs : List UserRow)
    → count_if p (shown now (by_name rs)) ≡ count_if (λ r. p (from_row now r)) rs
count_if-shown p now rs = mapped (by_name rs) ∙ sorted rs
  where
    mapped : (xs : List UserRow) → count_if p (shown now xs) ≡ count_if (λ r. p (from_row now r)) xs
    mapped [] = refl
    mapped (x ∷ xs) = ground (arith, mapped xs)

    sorted :
        (xs : List UserRow)
        → count_if (λ r. p (from_row now r)) (by_name xs) ≡ count_if (λ r. p (from_row now r)) xs
    sorted [] = refl
    sorted (x ∷ xs) =
        ground (arith, count_if-insert (λ r. p (from_row now r)) x (by_name xs), sorted xs)

length-insert : (r : UserRow) (rs : List UserRow) → length (insert_by_name r rs) ≡ suc (length rs)
length-insert r [] = refl
length-insert r (x ∷ xs) = ground (arith, length-insert r xs)

pub length-shown : (now : Timestamp) (rs : List UserRow) → length (shown now rs) ≡ length rs
length-shown now [] = refl
length-shown now (r ∷ rs) = ap suc (length-shown now rs)

pub length-by_name : (rs : List UserRow) → length (by_name rs) ≡ length rs
length-by_name [] = refl
length-by_name (r ∷ rs) = length-insert r (by_name rs) ∙ ap suc (length-by_name rs)
