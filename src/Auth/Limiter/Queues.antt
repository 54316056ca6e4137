-- ===== src/Auth/Limiter/Queues.antt =====
-- The limiter against its specification: a log of every admitted attempt, in which an attempt is
-- admitted when fewer than `max` admitted ones of its key are younger than the window.
use mandrake.Common.{
  ℕ, suc, ◌+◌, ◌≤◌, ◌≡◌, refl, ap, sym, ◌∙◌, Bool, true, false, List, [], ◌∷◌, Option, none, some,
  arith, ltb, if◌then◌else◌, length, last?, count_if-append, ite, is_some_and, or_else, Bool-cases,
  inl, inr,
}
use mandrake.Common.Text.{Text, text_dec}
use mandrake.Common.Map.{
  lookup, insert, KeysDistinct, lookup-keep, keep-KeysDistinct, insert-KeysDistinct, lookup-insert,
}
use mandrake.Auth.Limiter.{
  LoginLimiter, Verdict, allowed, refused, prune, drop_expired, attempt, check_at,
}
use mandrake.Auth.Limiter.Window.{
  IsOrdered, is_recent, recent, IsOrdered-later, length-drop_expired, recent-drop_expired,
  drop_expired-IsOrdered, push-IsOrdered, recent_none,
}

-- An attempt: its key and its instant.
abbrev pub Attempt : Type 0
Attempt = Text × ℕ

-- The attempts do not go back in time.
abbrev pub IsChronological : ℕ → List Attempt → Type 0
IsChronological now [] = Unit
IsChronological now ((k, t) ∷ later) = (now ≤ t) × IsChronological t later

abbrev pub log_if : Verdict → Attempt → List Attempt → List Attempt
log_if allowed a log = a ∷ log
log_if (refused n) a log = log

-- The attempts that the limiter admits, newest first.
unfoldable pub admitted : LoginLimiter → List Attempt → List Attempt → List Attempt
admitted s log [] = log
admitted s log ((k, t) ∷ later) =
    let (v, s') = check_at s k t in admitted s' (log_if v (k, t) log) later

-- How many admitted attempts of the key are younger than the window.
abbrev pub logged : ℕ → Text → ℕ → List Attempt → ℕ
logged window k now [] = 0
logged window k now ((j, t) ∷ log) =
    let n = logged window k now log in
    ite (text_dec j k) (if is_recent window now t then suc n else n) n

unfoldable pub specified : ℕ → ℕ → List Attempt → List Attempt → List Attempt
specified most window log [] = log
specified most window log ((k, t) ∷ later) =
    specified most window (if ltb (logged window k t log) most then (k, t) ∷ log else log) later

abbrev pub queue_of : Text → List (Text × List ℕ) → List ℕ
queue_of k hits = or_else (lookup text_dec k hits) []

-- The queues hold what of the log can still count.
pub record Represents (window : ℕ) (hits : List (Text × List ℕ)) (log : List Attempt) (now : ℕ)
    : Type 0 where
  pub distinct : KeysDistinct text_dec hits
  pub ordered : (k : Text) → IsOrdered now (queue_of k hits)
  pub counted :
      (k : Text) (at : ℕ) → now ≤ at → recent window at (queue_of k hits) ≡ logged window k at log

-- The test by which pruning keeps an entry.
abbrev pub is_live : ℕ → ℕ → Text × List ℕ → Bool
is_live window now e = is_some_and (last? e.1) (is_recent window now)

-- What one key sees of pruning, by what it held.
kept_queue :
    (window now : ℕ) (o : Option (List ℕ)) (k : Text)
    → IsOrdered now (or_else o [])
    → let o' : Option (List ℕ) = elim o [
      | none ↦ none
      | some v ↦ if is_live window now (k, v) then some v else none
    ] in
      IsOrdered now (or_else o' [])
      × ((at : ℕ) → now ≤ at → recent window at (or_else o' []) ≡ recent window at (or_else o []))
kept_queue window now none k h = (h, λ at le. refl)
kept_queue window now (some v) k h = elim (Bool-cases (is_live window now (k, v))) [
  | inl e ↦ rw e (h, λ at le. refl)
  | inr e ↦ rw e (tt, λ at le. sym (recent_none window now at v le h e))
]

-- Pruning keeps the queues in order and drops nothing that counts now or later.
pub prune-queue :
    (window now : ℕ) (hits : List (Text × List ℕ)) (k : Text)
    → KeysDistinct text_dec hits
    → IsOrdered now (queue_of k hits)
    → IsOrdered now (queue_of k (prune window now hits))
      × ((at : ℕ)
          → now ≤ at
          → recent window at (queue_of k (prune window now hits))
            ≡ recent window at (queue_of k hits))
unfolding prune
prune-queue window now hits k d o = elim (Bool-cases (ltb 10000 (length hits))) [
  | inl e ↦
      rw (e, lookup-keep text_dec (is_live window now) k hits d)
        (kept_queue window now (lookup text_dec k hits) k o)
  | inr e ↦ rw e (o, λ at le. refl)
]

pub prune-KeysDistinct :
    (window now : ℕ) (hits : List (Text × List ℕ))
    → KeysDistinct text_dec hits
    → KeysDistinct text_dec (prune window now hits)
unfolding prune
prune-KeysDistinct window now hits d =
    ground (arith, keep-KeysDistinct text_dec (is_live window now) hits d)

-- How much an attempt adds to what counts.
abbrev pub gain : Verdict → ℕ → ℕ → ℕ → ℕ
gain allowed window now at = if is_recent window at now then 1 else 0
gain (refused n) window now at = 0

abbrev pub is_allowed : Verdict → Bool
is_allowed allowed = true
is_allowed (refused n) = false

-- One attempt at the queue of its key.
attempt-queue :
    (window most now at : ℕ) (q : List ℕ)
    → now ≤ at
    → IsOrdered now q
    → let (v, q') = attempt window most now (drop_expired window now q) in
      IsOrdered now q'
      × (recent window at q' ≡ recent window at q + gain v window now at)
      × (is_allowed v ≡ ltb (recent window now q) most)
unfolding attempt
attempt-queue window most now at q le h = ground (
  arith,
  length-drop_expired window now q h,
  recent-drop_expired window now at q le,
  drop_expired-IsOrdered window now q h,
  push-IsOrdered now (drop_expired window now q) (drop_expired-IsOrdered window now q h),
  count_if-append (is_recent window at) (drop_expired window now q) (now ∷ []),
)

pub queue_of-insert :
    (k key : Text) (q : List ℕ) (hits : List (Text × List ℕ))
    → queue_of k (insert text_dec key q hits) ≡ ite (text_dec key k) q (queue_of k hits)
queue_of-insert k key q hits = rw (lookup-insert text_dec k key q hits) (ground arith)

-- Admission by the specification.
abbrev pub may_enter : ℕ → ℕ → Text → ℕ → List Attempt → Bool
may_enter most window key now log = ltb (logged window key now log) most

pub prune-Represents :
    (window : ℕ) (hits : List (Text × List ℕ)) (log : List Attempt) (before now : ℕ)
    → before ≤ now
    → Represents window hits log before
    → Represents window (prune window now hits) log now
prune-Represents window hits log before now le r = record {
  distinct = prune-KeysDistinct window now hits r.distinct;
  ordered = λ k.
      (prune-queue window now hits k r.distinct (IsOrdered-later before now _ le (r.ordered k))).0;
  counted = λ k at le'.
      (prune-queue window now hits k r.distinct (IsOrdered-later before now _ le (r.ordered k))).1
        at le'
      ∙ r.counted k at (omega arith);
}

module _ (window : ℕ) (hits : List (Text × List ℕ)) (log : List Attempt) (key : Text) (now : ℕ)
    (r : Represents window hits log now) where
  counted_after :
      (v : Verdict) (q' : List ℕ) (k : Text) (at : ℕ)
      → now ≤ at
      → recent window at q' ≡ recent window at (queue_of key hits) + gain v window now at
      → recent window at (queue_of k (insert text_dec key q' hits))
        ≡ logged window k at (log_if v (key, now) log)
  counted_after allowed q' k at le c =
      rw (queue_of-insert k key q' hits) (ground (arith, r.counted k at le, r.counted key at le))
  counted_after (refused n) q' k at le c =
      rw (queue_of-insert k key q' hits) (ground (arith, r.counted k at le, r.counted key at le))

  after-Represents :
      (v : Verdict) (q' : List ℕ)
      → IsOrdered now q'
      → ((at : ℕ)
          → now ≤ at
          → recent window at q' ≡ recent window at (queue_of key hits) + gain v window now at)
      → Represents window (insert text_dec key q' hits) (log_if v (key, now) log) now
  after-Represents v q' o c = record {
    distinct = insert-KeysDistinct text_dec key q' hits r.distinct;
    ordered = λ k. rw (queue_of-insert k key q' hits) (ground (arith, r.ordered k));
    counted = λ k at le. counted_after v q' k at le (c at le);
  }

  -- The queue of the key after the attempt stands for the log with the attempt.
  pub enter-Represents :
      (most : ℕ)
      → let (v, q') = attempt window most now (drop_expired window now (queue_of key hits)) in
        (is_allowed v ≡ may_enter most window key now log)
        × Represents window (insert text_dec key q' hits) (log_if v (key, now) log) now
  enter-Represents most =
      let q = queue_of key hits in
      let (v, q') = attempt window most now (drop_expired window now q) in
      let facts =
        λ (at : ℕ) (le : now ≤ at). attempt-queue window most now at q le (r.ordered key) in
      (
        (facts now (omega arith)).2 ∙ ap (λ n. ltb n most) (r.counted key now (omega arith)),
        after-Represents v q' (facts now (omega arith)).0 (λ at le. (facts at le).1),
      )
