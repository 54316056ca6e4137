-- ===== src/Cursor/Walk.antt =====
-- Following the cursors of cursor.rs from page to page over rows in strict order.
use mandrake.Common.{
  ℕ, zero, suc, ◌≤◌, ◌<◌, ◌≡◌, sym, ap, ◌∙◌, Bool, true, List, [], ◌∷◌, ◌++◌, Option, none, some,
  arith, ltb, length, take, drop, last?, keep, All, take-append-drop, length-take, or_else,
  Bool-cases, Option-cases, inl, inr,
}
use mandrake.Common.Text.{Text}
use mandrake.Common.Text.Order.{less, less_trans, less_irrefl, less_asym}
use mandrake.Cursor.Rows.{
  keep-All, keep-keep, All-keep, keep_passes, last-cons, last_none, drop_rest, All-last, take_all,
  take-take, last_some, length-drop, append_nil,
}
use mandrake.Cursor.{Base64, Pagination, limit_of, after, page}

module _ {A : Type 0} (position : A → Text) where
  abbrev pub later : Text → A → Bool
  later c x = less c (position x)

  -- In strictly ascending order of position.
  abbrev pub IsAscending : List A → Type 0
  IsAscending [] = Unit
  IsAscending (x ∷ xs) = All (λ y. later (position x) y ≡ true) xs × IsAscending xs

  keep-IsAscending : (p : A → Bool) (xs : List A) → IsAscending xs → IsAscending (keep p xs)
  keep-IsAscending p [] h = tt
  keep-IsAscending p (x ∷ xs) h = elim (Bool-cases (p x)) [
    | inl e ↦ rw e (All-keep _ p xs h.0, keep-IsAscending p xs h.1)
    | inr e ↦ rw e (keep-IsAscending p xs h.1)
  ]

  -- After the last of a page come the rows that the page leaves.
  keep-later :
      (n : ℕ) (xs : List A) (l : A)
      → IsAscending xs
      → last? (take n xs) ≡ some l
      → keep (later (position l)) xs ≡ drop n xs
  keep-later zero xs l asc e = cc
  keep-later (suc n) [] l asc e = cc
  keep-later (suc n) (x ∷ xs) l asc e = elim (Option-cases (last? (take n xs))) [
    | inl k ↦
        let here : x ≡ l = ground (arith, last-cons x (take n xs)) in
        ground (
          arith,
          less_irrefl (position x),
          keep-All (later (position x)) xs asc.0,
          drop_rest n xs (last_none (take n xs) k),
        )
    | inr (m, k) ↦
        let there : m ≡ l = ground (arith, last-cons x (take n xs)) in
        let ahead = All-last (λ y. later (position x) y ≡ true) n xs asc.0 (k ∙ ap some there) in
        ground (
          arith,
          less_asym (position x) (position l) ahead,
          keep-later n xs l asc.1 (k ∙ ap some there),
        )
  ]

module _ {A : Type 0} (answer : Pagination → List A × Option Text) where
  -- What a client sees that asks for a page, and then for the next one while there is a cursor.
  unfoldable pub follow : ℕ → Pagination → List A
  follow zero p = []
  follow (suc fuel) p =
      let (items, next) = answer p in
      items ++ elim next [ none ↦ [] | some c ↦ follow fuel (record p { cursor = some c }) ]

module _ (b64 : Base64) {A : Type 0} (position : A → Text) where
  -- The page of the rows after a position.
  abbrev pub page_after : List A → Text → ℕ → List A × Option Text
  page_after xs c n = page b64 (take (suc n) (keep (later position c) xs)) n position

  page_last :
      (ys : List A) (n : ℕ) → length ys ≤ n → page b64 (take (suc n) ys) n position ≡ (ys, none)
  unfolding page
  page_last ys n h = rw (take_all (suc n) ys (omega arith)) (ground arith)

  page_more :
      (ys : List A) (n : ℕ) {l : A}
      → n < length ys
      → last? (take n ys) ≡ some l
      → page b64 (take (suc n) ys) n position ≡ (take n ys, some (b64.encode (position l)))
  unfolding page
  page_more ys n h e = ground (arith, length-take (suc n) ys, take-take n ys)

  after-encode :
      (p : Pagination) (t : Text)
      → ((t : Text) → b64.decode (b64.encode t) ≡ some t)
      → or_else (after b64 (record p { cursor = some (b64.encode t) })) [] ≡ t
  after-encode p t round = ground (arith, round t)

  limit_positive : (p : Pagination) → 1 ≤ limit_of p
  limit_positive p = omega arith

  -- The rows after the last of a page are those that the page leaves.
  rest_of_page :
      (xs : List A) (c : Text) (n : ℕ) {l : A}
      → IsAscending position xs
      → last? (take n (keep (later position c) xs)) ≡ some l
      → keep (later position (position l)) xs ≡ drop n (keep (later position c) xs)
  rest_of_page xs c n {l} asc e =
      let ahead =
        All-last (λ y. later position c y ≡ true) n _ (keep_passes (later position c) xs) e in
      sym (
        keep-keep (later position c) (later position (position l)) xs
          (λ x. less_trans c (position l) (position x) ahead))
      ∙ keep-later position n (keep (later position c) xs) l
          (keep-IsAscending position (later position c) xs asc) e

  -- From any position, following the cursors shows the rows after it, each once and in order.
  pub follow_all :
      (answer : Pagination → List A × Option Text) (xs : List A) (fuel : ℕ) (p : Pagination)
      → ((t : Text) → b64.decode (b64.encode t) ≡ some t)
      → ((p : Pagination) → answer p ≡ page_after xs (or_else (after b64 p) []) (limit_of p))
      → IsAscending position xs
      → length (keep (later position (or_else (after b64 p) [])) xs) < fuel
      → follow answer fuel p ≡ keep (later position (or_else (after b64 p) [])) xs
  unfolding follow
  follow_all answer xs zero p round same asc enough = absurd (omega arith)
  follow_all answer xs (suc fuel) p round same asc enough =
      let n = limit_of p in
      let ys = keep (later position (or_else (after b64 p) [])) xs in
      elim (Bool-cases (ltb n (length ys))) [
        | inr ends ↦ rw (same p, page_last ys n (ground arith)) (append_nil ys)
        | inl goes ↦
            let (l, e) = last_some n ys (limit_positive p) (ground arith) in
            let p' : Pagination = record p { cursor = some (b64.encode (position l)) } in
            let left : keep (later position (or_else (after b64 p') [])) xs ≡ drop n ys =
              ap (λ c. keep (later position c) xs) (after-encode p (position l) round)
              ∙ rest_of_page xs (or_else (after b64 p) []) n asc e in
            let shorter : length (drop n ys) < fuel =
              ground (arith, length-drop n ys, limit_positive p) in
            rw (same p, page_more ys n (ground arith) e)
              (ap (λ t. take n ys ++ t)
                  (follow_all answer xs fuel p' round same asc (rw left shorter) ∙ left)
                ∙ take-append-drop n ys)
      ]
