-- ===== src/Auth/Limiter/Invariant.antt =====
-- The invariant of the limiter of ratelimit.rs: every queue is in order and within the maximum.
use mandrake.Common.{
  ℕ, ◌≤◌, ◌≡◌, refl, ap, sym, ◌∙◌, false, List, [], ◌∷◌, Option, none, some, arith, ltb,
  if◌then◌else◌, Bool-cases, inl, inr, length, length-append, or_else,
}
use mandrake.Common.Text.{Text, text_dec}
use mandrake.Common.Map.{lookup, insert, KeysDistinct, insert-KeysDistinct, lookup-keep}
use mandrake.Auth.Limiter.{LoginLimiter, new, prune, drop_expired, attempt, check_at}
use mandrake.Auth.Limiter.Window.{
  IsOrdered, IsOrdered-later, drop_expired-IsOrdered, push-IsOrdered, recent_none,
  length-drop_expired,
}
use mandrake.Auth.Limiter.Queues.{
  queue_of, is_live, queue_of-insert, prune-queue, prune-KeysDistinct,
}

-- The invariant of the limiter between two attempts.
pub record IsValid (s : LoginLimiter) (now : ℕ) : Type 0 where
  pub healthy : s.poisoned ≡ false
  pub distinct : KeysDistinct text_dec s.hits
  pub ordered : (k : Text) → IsOrdered now (queue_of k s.hits)
  pub bounded : (k : Text) → length (queue_of k s.hits) ≤ s.max_hits

length_zero : (q : List ℕ) → length q ≡ 0 → q ≡ []
length_zero [] e = refl
length_zero (t ∷ q) e = absurd (omega arith)

kept_same :
    (window now : ℕ) (o : Option (List ℕ)) (k : Text)
    → IsOrdered now (or_else o [])
    → let o' : Option (List ℕ) = elim o [
      | none ↦ none
      | some v ↦ if is_live window now (k, v) then some v else none
    ] in
      (drop_expired window now (or_else o' []) ≡ drop_expired window now (or_else o []))
      × (length (or_else o' []) ≤ length (or_else o []))
unfolding drop_expired
kept_same window now none k h = (refl, omega arith)
kept_same window now (some v) k h = elim (Bool-cases (is_live window now (k, v))) [
  | inl e ↦ rw e (refl, omega arith)
  | inr e ↦ rw e (
    sym (
        length_zero _
          (length-drop_expired window now v h ∙ recent_none window now now v (omega arith) h e)),
    omega arith,
  )
]

-- For the key of the attempt it makes no difference whether the keys have been pruned.
drop_expired-prune :
    (window now : ℕ) (hits : List (Text × List ℕ)) (k : Text)
    → KeysDistinct text_dec hits
    → IsOrdered now (queue_of k hits)
    → (drop_expired window now (queue_of k (prune window now hits))
        ≡ drop_expired window now (queue_of k hits))
      × (length (queue_of k (prune window now hits)) ≤ length (queue_of k hits))
unfolding prune
drop_expired-prune window now hits k d o = elim (Bool-cases (ltb 10000 (length hits))) [
  | inl e ↦
      rw (e, lookup-keep text_dec (is_live window now) k hits d)
        (kept_same window now (lookup text_dec k hits) k o)
  | inr e ↦ rw e (refl, omega arith)
]

queue_of-insert_self :
    (key : Text) (q : List ℕ) (hits : List (Text × List ℕ))
    → queue_of key (insert text_dec key q hits) ≡ q
queue_of-insert_self key q hits = rw (queue_of-insert key key q hits) (ground arith)

-- An attempt is an attempt at the queue of its key.
pub check_at-attempt :
    (s : LoginLimiter) (key : Text) (before now : ℕ)
    → IsValid s before
    → before ≤ now
    → let (v, q) =
        attempt s.window s.max_hits now (drop_expired s.window now (queue_of key s.hits)) in
      let (v', s') = check_at s key now in (v' ≡ v) × (queue_of key s'.hits ≡ q)
unfolding check_at
check_at-attempt s key before now valid le =
    let ordered = IsOrdered-later before now _ le (valid.ordered key) in
    let same = (drop_expired-prune s.window now s.hits key valid.distinct ordered).0 in
    let hits = prune s.window now s.hits in
    rw valid.healthy (
      ap (λ q. (attempt s.window s.max_hits now q).0) same,
      queue_of-insert_self key
            (attempt s.window s.max_hits now (drop_expired s.window now (queue_of key hits))).1 hits
          ∙ ap (λ q. (attempt s.window s.max_hits now q).1) same,
    )

pub length-drop_expired-le :
    (window now : ℕ) (q : List ℕ) → length (drop_expired window now q) ≤ length q
unfolding drop_expired
length-drop_expired-le window now [] = omega arith
length-drop_expired-le window now (t ∷ q) = ground (arith, length-drop_expired-le window now q)

length-attempt :
    (window most now : ℕ) (q : List ℕ)
    → length q ≤ most
    → length (attempt window most now (drop_expired window now q)).1 ≤ most
unfolding attempt
length-attempt window most now q le = ground (
  arith,
  length-drop_expired-le window now q,
  length-append (drop_expired window now q) (now ∷ []),
)

attempt-IsOrdered :
    (window most now : ℕ) (q : List ℕ)
    → IsOrdered now q
    → IsOrdered now (attempt window most now (drop_expired window now q)).1
unfolding attempt
attempt-IsOrdered window most now q h = ground (
  arith,
  drop_expired-IsOrdered window now q h,
  push-IsOrdered now (drop_expired window now q) (drop_expired-IsOrdered window now q h),
)

-- An attempt no earlier than the last keeps the limiter valid: not poisoned, its keys distinct, and
-- each queue in order of time, none later than now, and no longer than the maximum.
pub check_at-IsValid :
    (s : LoginLimiter) (key : Text) (before now : ℕ)
    → IsValid s before
    → before ≤ now
    → IsValid (check_at s key now).1 now
unfolding check_at
check_at-IsValid s key before now valid le =
    let hits = prune s.window now s.hits in
    let o = λ (k : Text). IsOrdered-later before now _ le (valid.ordered k) in
    let pruned = λ (k : Text). drop_expired-prune s.window now s.hits k valid.distinct (o k) in
    let still = λ (k : Text). prune-queue s.window now s.hits k valid.distinct (o k) in
    let q' = (attempt s.window s.max_hits now (drop_expired s.window now (queue_of key hits))).1 in
    rw valid.healthy (record {
      healthy = refl;
      distinct =
          insert-KeysDistinct text_dec key q' hits
            (prune-KeysDistinct s.window now s.hits valid.distinct);
      ordered = λ k. rw (queue_of-insert k key q' hits) (
          ground (
            arith,
            (still k).0,
            attempt-IsOrdered s.window s.max_hits now (queue_of key hits) (still key).0,
          ));
      bounded = λ k. rw (queue_of-insert k key q' hits) (
          ground (
            arith,
            (pruned k).1,
            (pruned key).1,
            valid.bounded k,
            valid.bounded key,
            length-attempt s.window s.max_hits now (queue_of key hits),
          ));
    })

pub new-IsValid : (most window : ℕ) → IsValid (new most window) 0
unfolding new
new-IsValid most window = record {
  healthy = refl;
  distinct = tt;
  ordered = λ k. tt;
  bounded = λ k. omega arith;
}
