-- ===== src/Net/Outcomes.antt =====
-- What holds of the result of a call or a check, if there is one.
use mandrake.Common.{◌≡◌, refl, subst, Bool, true, false, not, if◌then◌else◌}
use mandrake.Common.Text.{Text}
use mandrake.Net.{State, NetError, Outcome, ok, err, and_then, commit, require}

unfoldable pub Turns {ℓ} : {A : Type 0} → (A → Type ℓ) → Outcome A → Type ℓ
Turns P (ok t) = P t
Turns P (err e) = Unit

module _ {A : Type 0} (P : A → Type 0) where
  pub ok-Turns : {a : A} → P a → Turns P (ok a)
  unfolding Turns
  ok-Turns h = h

  pub err-Turns : (why : NetError) → Turns P (err why)
  unfolding Turns
  err-Turns why = tt

  pub and_then-Turns :
      {B : Type 0} (o : Outcome B) (f : B → Outcome A)
      → ((b : B) → o ≡ ok b → Turns P (f b))
      → Turns P (and_then o f)
  unfolding and_then Turns
  and_then-Turns (ok b) f h = h b refl
  and_then-Turns (err e) f h = tt

  pub if_not-Turns :
      (test : Bool) (why : NetError) (o : Outcome A)
      → Turns P o
      → Turns P (if not test then err why else o)
  unfolding Turns
  if_not-Turns true why o h = h
  if_not-Turns false why o h = tt

  pub Turns-mono : (Q : A → Type 0) (o : Outcome A) → ((a : A) → P a → Q a) → Turns P o → Turns Q o
  unfolding Turns
  Turns-mono Q (ok a) f h = f a h
  Turns-mono Q (err e) f h = tt

  of_ok : (a : A) → Turns P (ok a) → P a
  unfolding Turns
  of_ok a h = h

  pub Turns-ok : (o : Outcome A) (a : A) → Turns P o → o ≡ ok a → P a
  Turns-ok o a h e = of_ok a (subst (Turns P) e h)

pub commit-Turns :
    (P : State → Type 0) (o : Outcome State) (s : State) → P s → Turns P o → P (commit o s).1
unfolding commit Turns
commit-Turns P (ok t) s p h = h
commit-Turns P (err e) s p h = p

pub require-ok :
    (test : Bool) (message : Text) {u : Unit {0}} → require test message ≡ ok u → test ≡ true
unfolding require
require-ok true message e = refl
require-ok false message e = cc
