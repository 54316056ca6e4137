-- ===== src/Auth/Limiter/Retry.antt =====
-- What a refusal of ratelimit.rs says: its number of seconds, and the attempts that follow it.
use mandrake.Common.{
  ℕ, ◌+◌, ◌-◌, ◌*◌, ◌/◌, ◌%◌, ◌≤◌, ◌<◌, ◌≡◌, ◌≢◌, ap, sym, ◌∙◌, subst, List, ◌∷◌, arith, length,
  max,
}
use mandrake.Common.Text.{Text}
use mandrake.Auth.Limiter.{
  second, LoginLimiter, allowed, refused, drop_expired, retry_after, attempt, check_at,
}
use mandrake.Auth.Limiter.Window.{IsOrdered}
use mandrake.Auth.Limiter.Queues.{queue_of}
use mandrake.Auth.Limiter.Exact.{check_at-settings}
use mandrake.Auth.Limiter.Invariant.{
  IsValid, check_at-attempt, check_at-IsValid, length-drop_expired-le,
}

-- A refused attempt leaves the popped queue, which is full, and says how long its front counts.
refused-attempt :
    (window most now : ℕ) (q : List ℕ) {n : ℕ}
    → (attempt window most now q).0 ≡ refused n
    → ((attempt window most now q).1 ≡ q) × (most ≤ length q) × (n ≡ retry_after window now q)
unfolding attempt
refused-attempt window most now q h = ground arith

-- Nothing is popped while the front is in the window.
drop_front :
    (window now t : ℕ) (q : List ℕ) → now - t < window → drop_expired window now (t ∷ q) ≡ t ∷ q
unfolding drop_expired
drop_front window now t q h = ground arith

drop_expired_front :
    (window now t : ℕ) (q : List ℕ)
    → window ≤ now - t
    → length (drop_expired window now (t ∷ q)) ≤ length q
unfolding drop_expired
drop_expired_front window now t q h = ground (arith, length-drop_expired-le window now q)

attempt_full :
    (window most now : ℕ) (q : List ℕ)
    → most ≤ length q
    → (n : ℕ) × ((attempt window most now q).0 ≡ refused n)
unfolding attempt
attempt_full window most now q h = (retry_after window now q, ground arith)

attempt_room :
    (window most now : ℕ) (q : List ℕ) → length q < most → (attempt window most now q).0 ≡ allowed
unfolding attempt
attempt_room window most now q h = ground arith

module _ (s : LoginLimiter) (key : Text) (before now : ℕ) (t : ℕ) (q : List ℕ) (n : ℕ)
    (valid : IsValid s before) (le : before ≤ now) (refusal : (check_at s key now).0 ≡ refused n)
    (oldest : queue_of key (check_at s key now).1.hits ≡ t ∷ q) where
  popped : List ℕ
  popped = drop_expired s.window now (queue_of key s.hits)

  refused_queue :
      (popped ≡ t ∷ q) × (s.max_hits ≤ length (t ∷ q)) × (n ≡ retry_after s.window now (t ∷ q))
  unfolding popped
  refused_queue =
      let (verdict, queue) = check_at-attempt s key before now valid le in
      let (same, full, seconds) =
        refused-attempt s.window s.max_hits now popped (sym verdict ∙ refusal) in
      let front : popped ≡ t ∷ q = sym same ∙ sym queue ∙ oldest in
      (
        front,
        subst (λ l. s.max_hits ≤ length l) front full,
        seconds ∙ ap (retry_after s.window now) front,
      )

  -- The next attempt is an attempt at the full queue.
  next_attempt :
      (later : ℕ)
      → now ≤ later
      → (check_at (check_at s key now).1 key later).0
        ≡ (attempt s.window s.max_hits later (drop_expired s.window later (t ∷ q))).0
  next_attempt later le' =
      let s' = (check_at s key now).1 in
      let (same_window, same_max, same_poison) = check_at-settings s key now in
      (check_at-attempt s' key now later (check_at-IsValid s key before now valid le) le').0
      ∙ ap (λ l. (attempt s'.window s'.max_hits later (drop_expired s'.window later l)).0) oldest
      ∙ ap (λ w. (attempt w s'.max_hits later (drop_expired w later (t ∷ q))).0) same_window
      ∙ ap (λ m. (attempt s.window m later (drop_expired s.window later (t ∷ q))).0) same_max

  within : length (t ∷ q) ≤ s.max_hits
  within =
      let after = check_at-IsValid s key before now valid le in
      omega (arith, after.bounded key, ap (length {0}) oldest, (check_at-settings s key now).1)

  front_le : t ≤ now
  front_le =
      let after = check_at-IsValid s key before now valid le in
      let ordered : IsOrdered now (t ∷ q) = subst (IsOrdered now) oldest (after.ordered key) in
      ordered.0

  -- The seconds that a refusal of a valid limiter names are those for which the oldest hit of the
  -- key still counts, rounded down, and one at least.
  pub refused_seconds : n ≡ max ((s.window - (now - t)) / second) 1
  unfolding retry_after
  refused_seconds = refused_queue.2

  -- With a positive maximum, the next attempt of a refused key is admitted where it comes one second
  -- after the time that the refusal names, or later.
  pub retry_admits :
      (later : ℕ)
      → 0 < s.max_hits
      → now + (n + 1) * second ≤ later
      → (check_at (check_at s key now).1 key later).0 ≡ allowed
  retry_admits later p wait =
      next_attempt later (omega arith)
      ∙ attempt_room s.window s.max_hits later (drop_expired s.window later (t ∷ q)) (
          omega (
            arith,
            within,
            refused_seconds,
            front_le,
            drop_expired_front s.window later t q (omega (arith, refused_seconds, front_le)),
          ))

  -- Where the oldest hit of a refused key counts for one second or more, and not for a whole number
  -- of seconds, the next attempt after exactly the time that the refusal names is refused once more.
  pub retry_too_early :
      second ≤ s.window - (now - t)
      → (s.window - (now - t)) % second ≢ 0
      → (m : ℕ) × ((check_at (check_at s key now).1 key (now + n * second)).0 ≡ refused m)
  retry_too_early whole rest =
      let later = now + n * second in
      let kept = drop_front s.window later t q (omega (arith, refused_seconds)) in
      let (m, e) = attempt_full s.window s.max_hits later (t ∷ q) refused_queue.1 in
      (
        m,
        next_attempt later (omega arith)
            ∙ ap (λ l. (attempt s.window s.max_hits later l).0) kept
            ∙ e,
      )
