-- ===== src/Auth/Limiter/Tests.antt =====
-- Runs of the limiter, and its theorems at concrete attempts.
use mandrake.Common.{ℕ, ◌+◌, ◌*◌, ◌≡◌, refl, List, [], ◌∷◌, arith}
use mandrake.Common.Text.{Text, codes}
use mandrake.Auth.Limiter.{second, LoginLimiter, allowed, refused, new, check_at}
use mandrake.Auth.Limiter.Queues.{Attempt, admitted, specified}
use mandrake.Auth.Limiter.Exact.{admitted-eq-specified}
use mandrake.Auth.Limiter.Invariant.{IsValid, new-IsValid, check_at-IsValid}
use mandrake.Auth.Limiter.Retry.{retry_admits, retry_too_early}

abbrev a : Text
a = codes "a"

abbrev b : Text
b = codes "b"

abbrev minute : ℕ
minute = 60000000000

abbrev rush : List Attempt
rush = (a, 0) ∷ (a, 0) ∷ (b, 0) ∷ (a, 5 * second) ∷ (a, 10 * second) ∷ (a, 61 * second) ∷ []

-- The test of the source: three are admitted, the fourth must wait 50 seconds, others go on.
rush-admitted :
    admitted (new 3 minute) [] rush
    ≡ (a, 61 * second) ∷ (a, 5 * second) ∷ (b, 0) ∷ (a, 0) ∷ (a, 0) ∷ []
unfolding admitted new check_at codes
rush-admitted = refl

admitted-eq-specified_example : admitted (new 3 minute) [] rush ≡ specified 3 minute [] rush
admitted-eq-specified_example = admitted-eq-specified 3 minute rush (omega arith)

-- One admitted attempt, and a second one 10.5 seconds later.
abbrev busy : LoginLimiter
unfolding new check_at
busy = (check_at (new 1 minute) a 0).1

busy-IsValid : IsValid busy 0
unfolding new check_at
busy-IsValid = check_at-IsValid (new 1 minute) a 0 0 (new-IsValid 1 minute) (omega arith)

retry_admits_example : (check_at (check_at busy a 10500000000).1 a 60500000000).0 ≡ allowed
unfolding busy new check_at codes
retry_admits_example =
    retry_admits busy a 0 10500000000 0 [] 49 busy-IsValid (omega arith) refl refl 60500000000
      (omega arith) (omega arith)

retry_too_early_example :
    (m : ℕ) × ((check_at (check_at busy a 10500000000).1 a (10500000000 + 49 * second)).0
      ≡ refused m)
unfolding busy new check_at codes
retry_too_early_example =
    retry_too_early busy a 0 10500000000 0 [] 49 busy-IsValid (omega arith) refl refl (omega arith)
      (omega arith)
