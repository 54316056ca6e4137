-- ===== src/Daemon/Handler.antt =====
-- `ApiResult` handlers: a state of the application goes in, and comes back with the outcome. What
-- was written stays written when a later step fails, as in the source.
use mandrake.Common.{Bool, Option, none, some, if◌then◌else◌}
use mandrake.Daemon.Store.{App, Db}
use mandrake.Core.Problem.{Problem}

pub data Result {ℓ} (A : Type ℓ) : Type ℓ where
  ok : A → Result A
  err : Problem → Result A

abbrev pub Handler : Type 0 → Type 0
Handler A = App → Result A × App

module _ {A : Type 0} where
  abbrev pub pure : A → Handler A
  pure a s = (ok a, s)

  abbrev pub raise : Problem → Handler A
  raise e s = (err e, s)

  -- `ok_or_else`
  abbrev pub or_raise : Option A → Problem → Handler A
  or_raise none e = raise e
  or_raise (some a) e = pure a

  -- A step that only checks.
  abbrev pub check : Result A → Handler A
  check r s = (r, s)

  -- `state.db.call(…)`: one step on the database, under its lock.
  abbrev pub call : (Db → A × Db) → Handler A
  call f s = let (a, db) = f s.db in (ok a, record s { db = db })

  -- A call that only reads.
  abbrev pub query : (Db → A) → Handler A
  query f s = (ok (f s.db), s)

-- A call whose result is not used.
abbrev pub change : (Db → Db) → Handler (Unit {0})
change f s = (ok tt, record s { db = f s.db })

infixl 5 ◌>>=◌ ◌>>◌
abbrev pub ◌>>=◌ : {A B : Type 0} → Handler A → (A → Handler B) → Handler B
◌>>=◌ m f s = let (r, s') = m s in elim r [ ok a ↦ f a s' | err e ↦ (err e, s') ]

abbrev pub ◌>>◌ : {A B : Type 0} → Handler A → Handler B → Handler B
m >> k = m >>= λ _. k

abbrev pub raise_if : Bool → Problem → Handler (Unit {0})
raise_if c e s = (if c then err e else ok tt, s)
