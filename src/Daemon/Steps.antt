-- ===== src/Daemon/Steps.antt =====
-- Handlers step by step: what a composition does on either outcome of its first step.
use mandrake.Common.{◌≡◌, refl, arith, ◌⊎◌, inl, inr}
use mandrake.Core.Problem.{Problem}
use mandrake.Daemon.Store.{App}
use mandrake.Daemon.Handler.{Handler, Result, ok, err, ◌>>=◌}

pub Result-cases :
    {A : Type 0} (r : Result A) → ((a : A) × (r ≡ ok a)) ⊎ ((e : Problem) × (r ≡ err e))
Result-cases (ok a) = inl (a, refl)
Result-cases (err e) = inr (e, refl)

-- The state of a handler of two steps.
pub bind_ok :
    {A B : Type 0} (m : Handler A) (f : A → Handler B) (s : App) {a : A}
    → (m s).0 ≡ ok a
    → (m >>= f) s ≡ f a (m s).1
bind_ok m f s h = ground arith

pub bind_err :
    {A B : Type 0} (m : Handler A) (f : A → Handler B) (s : App) {e : Problem}
    → (m s).0 ≡ err e
    → (m >>= f) s ≡ (err e, (m s).1)
bind_err m f s h = ground arith

-- A success of a handler of two steps is a success of both.
pub bind_inv :
    {A B : Type 0} (m : Handler A) (f : A → Handler B) (s : App) {b : B}
    → ((m >>= f) s).0 ≡ ok b
    → (a : A) × ((m >>= f) s ≡ f a (m s).1)
bind_inv m f s h = elim (Result-cases (m s).0) [
  | inl (a, e) ↦ (a, bind_ok m f s e)
  | inr (p, e) ↦ absurd (ground (arith, bind_err m f s e))
]
