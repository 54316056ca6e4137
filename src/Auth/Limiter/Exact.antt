-- ===== src/Auth/Limiter/Exact.antt =====
-- What the limiter of ratelimit.rs admits, over any chronological sequence of attempts.
use mandrake.Common.{
  ℕ, ◌≤◌, ◌≡◌, refl, ap, sym, ◌∙◌, subst, Bool, false, List, [], ◌∷◌, arith, ltb, if◌then◌else◌,
}
use mandrake.Common.Text.{Text}
use mandrake.Auth.Limiter.{LoginLimiter, Verdict, allowed, refused, new, prune, check_at}
use mandrake.Auth.Limiter.Queues.{
  Attempt, IsChronological, log_if, admitted, logged, specified, Represents, is_allowed, may_enter,
  prune-Represents, enter-Represents,
}

check_at-Represents :
    (s : LoginLimiter) (log : List Attempt) (key : Text) (before now : ℕ)
    → s.poisoned ≡ false
    → before ≤ now
    → Represents s.window s.hits log before
    → let (v, s') = check_at s key now in
      (is_allowed v ≡ may_enter s.max_hits s.window key now log)
      × Represents s.window s'.hits (log_if v (key, now) log) now
unfolding check_at
check_at-Represents s log key before now healthy le r = rw healthy (
    enter-Represents s.window (prune s.window now s.hits) log key now
      (prune-Represents s.window s.hits log before now le r) s.max_hits)

-- A check changes the queues only.
pub check_at-settings :
    (s : LoginLimiter) (key : Text) (now : ℕ)
    → let s' = (check_at s key now).1 in
      (s'.window ≡ s.window) × (s'.max_hits ≡ s.max_hits) × (s'.poisoned ≡ s.poisoned)
unfolding check_at
check_at-settings s key now = ground arith

log_if-is_allowed :
    (v : Verdict) (b : Bool) (a : Attempt) (log : List Attempt)
    → is_allowed v ≡ b
    → log_if v a log ≡ (if b then a ∷ log else log)
log_if-is_allowed allowed b a log e = rw (← e)
log_if-is_allowed (refused n) b a log e = rw (← e)

admitted_from :
    (s : LoginLimiter) (log : List Attempt) (before : ℕ) (attempts : List Attempt)
    → s.poisoned ≡ false
    → Represents s.window s.hits log before
    → IsChronological before attempts
    → admitted s log attempts ≡ specified s.max_hits s.window log attempts
unfolding admitted specified
admitted_from s log before [] p r c = refl
admitted_from s log before ((k, t) ∷ later) p r c =
    let (v, s') = check_at s k t in
    let log' = log_if v (k, t) log in
    let (same_window, same_max, same_poison) = check_at-settings s k t in
    let (agrees, r') = check_at-Represents s log k before t p c.0 r in
    let ih =
      admitted_from s' log' t later (same_poison ∙ p)
        (subst (λ x. Represents x s'.hits log' t) (sym same_window) r') c.1 in
    ih
    ∙ ap (λ m. specified m s'.window log' later) same_max
    ∙ ap (λ w. specified s.max_hits w log' later) same_window
    ∙ ap (λ l. specified s.max_hits s.window l later)
        (log_if-is_allowed v (may_enter s.max_hits s.window k t log) (k, t) log agrees)

Represents-new : (most window : ℕ) → Represents window (new most window).hits [] 0
unfolding new
Represents-new most window = record { distinct = tt; ordered = λ k. tt; counted = λ k at le. refl }

-- For attempts in order of time, a new limiter, whatever it prunes on the way, admits exactly those
-- of whose key fewer than the maximum of admitted attempts are younger than the window.
pub admitted-eq-specified :
    (most window : ℕ) (attempts : List Attempt)
    → IsChronological 0 attempts
    → admitted (new most window) [] attempts ≡ specified most window [] attempts
unfolding new
admitted-eq-specified most window attempts c =
    admitted_from (new most window) [] 0 attempts refl (Represents-new most window) c

-- The last instant of the attempts.
abbrev pub end_of : ℕ → List Attempt → ℕ
end_of now [] = now
end_of now ((k, t) ∷ later) = end_of t later

logged_later :
    (window : ℕ) (k : Text) (now at : ℕ) (log : List Attempt)
    → now ≤ at
    → logged window k at log ≤ logged window k now log
logged_later window k now at [] le = omega arith
logged_later window k now at ((j, t) ∷ log) le = ground (arith, logged_later window k now at log le)

specified_bounded :
    (most window : ℕ) (log : List Attempt) (before : ℕ) (attempts : List Attempt) (k : Text)
    (at : ℕ)
    → IsChronological before attempts
    → ((at : ℕ) → before ≤ at → logged window k at log ≤ most)
    → end_of before attempts ≤ at
    → logged window k at (specified most window log attempts) ≤ most
unfolding specified
specified_bounded most window log before [] k at c b le = b at le
specified_bounded most window log before ((j, t) ∷ later) k at c b le =
    specified_bounded most window (if ltb (logged window j t log) most then (j, t) ∷ log else log) t
      later k at c.1 (λ at' le'. grown at' le') le
  where
    grown :
        (at' : ℕ)
        → t ≤ at'
        → logged window k at' (if ltb (logged window j t log) most then (j, t) ∷ log else log)
          ≤ most
    grown at' le' = ground (arith, b at', logged_later window k t at' log, c.0)

-- For attempts in order of time on a new limiter, at their end and at any later instant, at most the
-- maximum of admitted attempts of a key are younger than the window.
pub admitted_bounded :
    (most window : ℕ) (attempts : List Attempt) (k : Text) (at : ℕ)
    → IsChronological 0 attempts
    → end_of 0 attempts ≤ at
    → logged window k at (admitted (new most window) [] attempts) ≤ most
admitted_bounded most window attempts k at c le =
    rw (admitted-eq-specified most window attempts c)
      (specified_bounded most window [] 0 attempts k at c (λ at' le'. omega arith) le)
