-- ===== src/Auth/Limiter.antt =====
-- crates/mandraked/src/auth/ratelimit.rs: the sliding-window limiter of login attempts. Durations
-- and instants are whole nanoseconds, and `duration_since` is 0 for a later instant, as truncated
-- subtraction is.
pub mod Window
pub mod Queues
pub mod Exact
pub mod Invariant
pub mod Retry
mod Tests
use mandrake.Common.{
  ℕ, ◌+◌, ◌-◌, ◌*◌, ◌/◌, max, Bool, true, false, List, [], ◌∷◌, ◌++◌, Option, none, some, leb, ltb,
  if◌then◌else◌, is_some_and, or_else, length, last?, keep,
}
use mandrake.Common.Text.{Text, text_dec}
use mandrake.Common.Map.{lookup, insert}

abbrev pub second : ℕ
second = 1000000000

pub record LoginLimiter : Type 0 where
  pub window : ℕ
  pub max_hits : ℕ
  pub hits : List (Text × List ℕ)
  -- a thread has panicked while it held the lock
  pub poisoned : Bool

-- `Ok(())` or `Err(seconds)`.
pub data Verdict : Type 0 where
  allowed : Verdict
  refused : ℕ → Verdict

unfoldable pub new : ℕ → ℕ → LoginLimiter
new most span = record { window = span; max_hits = most; hits = []; poisoned = false }

unfoldable pub default_login : LoginLimiter
unfolding new
default_login = new 10 (60 * second)

-- More keys than this are first pruned.
abbrev pub prune_above : ℕ
prune_above = 10000

-- Every key whose newest hit has left the window is dropped, once there are many keys.
unfoldable pub prune : ℕ → ℕ → List (Text × List ℕ) → List (Text × List ℕ)
prune window now hits =
    if ltb prune_above (length hits)
    then keep (λ e. is_some_and (last? e.1) (λ t. ltb (now - t) window)) hits
    else hits

-- The `while` loop that pops the front of the queue.
unfoldable pub drop_expired : ℕ → ℕ → List ℕ → List ℕ
drop_expired window now [] = []
drop_expired window now (t ∷ q) =
    let rest = drop_expired window now q in if leb window (now - t) then rest else t ∷ q

-- How long to wait, in whole seconds, from the oldest hit that counts.
unfoldable pub retry_after : ℕ → ℕ → List ℕ → ℕ
retry_after window now [] = max 1 1
retry_after window now (t ∷ q) = max ((window - (now - t)) / second) 1

-- The attempt as the queue of its key sees it.
unfoldable pub attempt : ℕ → ℕ → ℕ → List ℕ → Verdict × List ℕ
unfolding retry_after
attempt window max_hits now queue =
    if leb max_hits (length queue)
    then (refused (retry_after window now queue), queue)
    else (allowed, queue ++ now ∷ [])

unfoldable pub check_at : LoginLimiter → Text → ℕ → Verdict × LoginLimiter
unfolding prune drop_expired attempt text_dec
check_at s key now =
    if s.poisoned
    then (allowed, s)
    else (let hits = prune s.window now s.hits in
        let queue = drop_expired s.window now (or_else (lookup text_dec key hits) []) in
        let (verdict, queue') = attempt s.window s.max_hits now queue in
        (verdict, record s { hits = insert text_dec key queue' hits }))
