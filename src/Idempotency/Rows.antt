-- ===== src/Idempotency/Rows.antt =====
-- The rows of the table of idempotency.rs, each the only one of its actor and key.
use mandrake.Common.{
  ◌≡◌, refl, ap, Bool, true, false, List, [], ◌∷◌, ◌++◌, Option, none, some, arith, find?,
  if◌then◌else◌, Bool-cases, inl, inr,
}
use mandrake.Common.Table.{delete_where}
use mandrake.Common.Text.{Text, same_text}
use mandrake.Core.Role.{Ident}
use mandrake.Idempotency.{Row, same_actor, is_row, replace}

pub same_actor-eq : (a b : Option Ident) → same_actor a b ≡ true → a ≡ b
same_actor-eq none none h = refl
same_actor-eq none (some b) h = cc
same_actor-eq (some a) none h = cc
same_actor-eq (some a) (some b) h = ground arith

same_actor_refl : (a : Option Ident) → same_actor a a ≡ true
same_actor_refl none = refl
same_actor_refl (some a) = ground arith

same_actor_sym : (a b : Option Ident) → same_actor a b ≡ same_actor b a
same_actor_sym none none = refl
same_actor_sym none (some b) = refl
same_actor_sym (some a) none = refl
same_actor_sym (some a) (some b) = ground arith

same_text_sym : (x y : Text) → same_text x y ≡ same_text y x
same_text_sym x y = ground arith

pub is_row-own : (r : Row) → is_row r.actor_key r.key r ≡ true
is_row-own r = ground (arith, same_actor_refl r.actor_key)

-- Rows of one actor and key are or are not those of another.
same_row :
    (a : Option Ident) (k : Text) (r x : Row)
    → is_row a k x ≡ true
    → is_row r.actor_key r.key x ≡ is_row a k r
same_row a k r x h =
    let actor : x.actor_key ≡ a = same_actor-eq x.actor_key a (ground arith) in
    let key : x.key ≡ k = ground arith in
    ground (arith, actor, key, same_actor_sym a r.actor_key, same_text_sym k r.key)

find-append :
    (p : Row → Bool) (xs : List Row) (r : Row)
    → find? p (xs ++ r ∷ [])
      ≡ (elim (find? p xs) [ none ↦ if p r then some r else none | some x ↦ some x ])
find-append p [] r = refl
find-append p (x ∷ xs) r = ground (arith, find-append p xs r)

find-deleted :
    (a : Option Ident) (k : Text) (r : Row) (xs : List Row)
    → find? (is_row a k) (delete_where (is_row r.actor_key r.key) xs)
      ≡ (if is_row a k r then none else find? (is_row a k) xs)
find-deleted a k r [] = ground arith
find-deleted a k r (x ∷ xs) = elim (Bool-cases (is_row a k x)) [
  | inl e ↦ ground (arith, same_row a k r x e, find-deleted a k r xs)
  | inr e ↦ ground (arith, find-deleted a k r xs)
]

pub find-replace :
    (a : Option Ident) (k : Text) (r : Row) (xs : List Row)
    → find? (is_row a k) (replace r xs) ≡ (if is_row a k r then some r else find? (is_row a k) xs)
find-replace a k r xs = ground (
  arith,
  find-deleted a k r xs,
  find-append (is_row a k) (delete_where (is_row r.actor_key r.key) xs) r,
)

-- The first row that passes stays the first one, where it is not among those deleted.
pub find-kept :
    (p q : Row → Bool) (xs : List Row) (r : Row)
    → find? p xs ≡ some r
    → q r ≡ false
    → find? p (delete_where q xs) ≡ some r
find-kept p q [] r h k = cc
find-kept p q (x ∷ xs) r h k = elim (Bool-cases (p x)) [
  | inl e ↦ let same : x ≡ r = ground arith in ground (arith, ap q same)
  | inr e ↦ ground (arith, find-kept p q xs r)
]
