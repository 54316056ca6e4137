-- ===== src/Auth/Login/Guesses.antt =====
-- How many passwords can be tried against one account.
use mandrake.Common.{
  ℕ, suc, ◌+◌, ◌-◌, ◌*◌, ◌/◌, ◌≤◌, ◌<◌, ◌≡◌, refl, ap, ◌∙◌, Bool, true, false, List, [], ◌∷◌,
  Option, none, some, arith, ltb, if◌then◌else◌, Option-cases, Bool-cases, inl, inr, All,
}
use mandrake.Common.Text.{Text}
use mandrake.Core.Time.{Timestamp, second}
use mandrake.Daemon.Store.{UserRow, Db}
use mandrake.Auth.External.{External}
use mandrake.Auth.Login.{
  LoginRequest, Outcome, logged_in, locked, bad, load, lock_of, set_failure, attempt, in_window,
  lock_after, lock_secs,
}
use mandrake.Auth.Login.Lock.{load_wrong}

-- A try: its time and its password.
abbrev pub Try : Type 0
Try = Timestamp × Text

-- The tries come in order of time, from `now` to `end`.
abbrev pub AreBetween : Timestamp → Timestamp → List Try → Type 0
AreBetween now end [] = now ≤ end
AreBetween now end ((t, password) ∷ later) = (now ≤ t) × AreBetween t end later

AreBetween-le : (now end : ℕ) (tries : List Try) → AreBetween now end tries → now ≤ end
AreBetween-le now end [] h = h
AreBetween-le now end ((t, password) ∷ later) h = omega (arith, AreBetween-le t end later h.1)

abbrev pub lock_span : ℕ
lock_span = lock_secs * second

-- A hash that every password fits.
abbrev pub fits_all : External → External
fits_all ext = record ext { verify = λ password stored. true }

abbrev pub is_logged_in : Outcome → Bool
is_logged_in (logged_in cookie session) = true
is_logged_in (locked until) = false
is_logged_in bad = false

-- The tries of which the password is compared: those that `attempt` would let in if it fitted.
unfoldable pub compared : External → Text → Option Text → Db → List Try → ℕ
compared ext username source db [] = 0
compared ext username source db ((t, password) ∷ later) =
    let req : LoginRequest = record { username = username; password = password } in
    let n = compared ext username source (attempt ext [] t req source db).1 later in
    if is_logged_in (attempt (fits_all ext) [] t req source db).0 then suc n else n

-- The tries that are not locked out, on the account's row alone.
tried : UserRow → List Try → ℕ
tried u [] = 0
tried u ((t, password) ∷ later) = elim (lock_of t u) [
  | some until ↦ tried u later
  | none ↦ suc (tried (set_failure t u u) later)
]

tried_held :
    (u : UserRow) (t : Timestamp) (password : Text) (later : List Try) {until : Timestamp}
    → lock_of t u ≡ some until
    → tried u ((t, password) ∷ later) ≡ tried u later
unfolding tried
tried_held u t password later h = ground arith

tried_free :
    (u : UserRow) (t : Timestamp) (password : Text) (later : List Try)
    → lock_of t u ≡ none
    → tried u ((t, password) ∷ later) ≡ suc (tried (set_failure t u u) later)
unfolding tried
tried_free u t password later h = ground arith

-- The row counts `n` failures since `first`, and from the fifth on it is locked long enough for the
-- window to pass.
record Counting (u : UserRow) (first n : ℕ) : Type 0 where
  since : u.first_failed_at ≡ some first
  number : u.failed_logins ≡ n
  few : n < lock_after → u.locked_until ≡ none
  many : lock_after ≤ n → (until : ℕ) × (u.locked_until ≡ some until) × (first + lock_span ≤ until)
  most : n ≤ lock_after

in_window-eq :
    (u : UserRow) (first t : ℕ)
    → u.first_failed_at ≡ some first
    → first ≤ t
    → in_window t u ≡ ltb (t - first) lock_span
in_window-eq u first t since le = ground arith

-- A free row has counted fewer than five failures, or its window has passed.
free_few :
    (u : UserRow) (first n t : ℕ)
    → Counting u first n
    → lock_of t u ≡ none
    → t - first < lock_span
    → n < lock_after
free_few u first n t c free young = elim (Bool-cases (ltb n 5)) [
  | inl few ↦ ground arith
  | inr many ↦ let (until, lock, far) = c.many (ground arith) in absurd (ground (arith, lock, far))
]

Counting-in :
    (u : UserRow) (first n t : ℕ)
    → Counting u first n
    → n < lock_after
    → first ≤ t
    → in_window t u ≡ true
    → Counting (set_failure t u u) first (suc n)
Counting-in u first n t c few le e = record {
  since = rw e c.since;
  number = rw e (omega (arith, c.number));
  few = λ h. rw (e, c.number) (ground arith);
  many = λ h. (t + lock_span, rw (e, c.number) (ground arith), omega arith);
  most = omega arith;
}

Counting-out : (u : UserRow) (t : ℕ) → in_window t u ≡ false → Counting (set_failure t u u) t 1
Counting-out u t e = record {
  since = rw e;
  number = rw e;
  few = λ h. rw e;
  many = λ h. absurd (omega arith);
  most = omega arith;
}

tried_bounded :
    (u : UserRow) (first n now end : ℕ) (tries : List Try)
    → Counting u first n
    → first ≤ now
    → AreBetween now end tries
    → tried u tries ≤ (lock_after - n) + lock_after * ((end - first) / lock_span)
unfolding tried
tried_bounded u first n now end [] c le between = omega arith
tried_bounded u first n now end ((t, password) ∷ later) c le between =
    elim (Option-cases (lock_of t u)) [
      | inr (until, held) ↦
          rw (tried_held u t password later held)
            (tried_bounded u first n t end later c (omega arith) between.1)
      | inl free ↦ elim (Bool-cases (ltb (t - first) lock_span)) [
        | inl young ↦
            let few = free_few u first n t c free (ground arith) in
            let e = in_window-eq u first t c.since (omega arith) ∙ young in
            rw (tried_free u t password later free) (
              omega (
                arith,
                few,
                tried_bounded (set_failure t u u) first (suc n) t end later
                    (Counting-in u first n t c few (omega arith) e) (omega arith) between.1,
              ))
        | inr old ↦
            let e = in_window-eq u first t c.since (omega arith) ∙ old in
            let past : first + lock_span ≤ t = ground arith in
            rw (tried_free u t password later free) (
              omega (
                arith,
                past,
                tried_bounded (set_failure t u u) t 1 t end later (Counting-out u t e) (omega arith)
                    between.1,
                AreBetween-le t end later between.1,
              ))
      ]
    ]

-- From a row without failures.
tried_fresh :
    (u : UserRow) (now end : ℕ) (tries : List Try)
    → u.first_failed_at ≡ none
    → u.locked_until ≡ none
    → AreBetween now end tries
    → tried u tries ≤ lock_after * ((end - now) / lock_span + 1)
unfolding tried
tried_fresh u now end [] fresh free between = omega arith
tried_fresh u now end ((t, password) ∷ later) fresh free between =
    rw (tried_free u t password later (rw free)) (
      omega (
        arith,
        tried_bounded (set_failure t u u) t 1 t end later (Counting-out u t (rw fresh))
            (omega arith) between.1,
        AreBetween-le t end later between.1,
      ))

module _ (ext : External) (username : Text) (source : Option Text) where
  asked : Text → LoginRequest
  asked password = record { username = username; password = password }

  after : Timestamp → Text → Db → Db
  unfolding asked
  after t password db = (attempt ext [] t (asked password) source db).1

  compared_open :
      (db : Db) (t : Timestamp) (password : Text) (later : List Try)
      → compared ext username source db ((t, password) ∷ later)
        ≤ suc (compared ext username source (after t password db) later)
  unfolding compared after
  compared_open db t password later =
      elim (Bool-cases (is_logged_in (attempt (fits_all ext) [] t (asked password) source db).0)) [
        | inl e ↦ rw e (omega arith)
        | inr e ↦ rw e (omega arith)
      ]

  -- Even the right password is not let in while the account is locked.
  held_out :
      (u : UserRow) (db : Db) (t : Timestamp) (password : Text) {until : Timestamp}
      → load username db ≡ some u
      → lock_of t u ≡ some until
      → is_logged_in (attempt (fits_all ext) [] t (asked password) source db).0 ≡ false
  unfolding attempt asked
  held_out u db t password found held = ground arith

  compared_shut :
      (u : UserRow) (db : Db) (t : Timestamp) (password : Text) (later : List Try)
      {until : Timestamp}
      → load username db ≡ some u
      → lock_of t u ≡ some until
      → compared ext username source db ((t, password) ∷ later)
        ≡ compared ext username source (after t password db) later
  unfolding compared after
  compared_shut u db t password later found held = rw (held_out u db t password found held) refl

  -- A locked account's row is left as it is.
  after-locked :
      (u : UserRow) (db : Db) (t : Timestamp) (password : Text) {until : Timestamp}
      → load username db ≡ some u
      → lock_of t u ≡ some until
      → after t password db ≡ db
  unfolding after attempt
  after-locked u db t password found held = ground arith

  load-after :
      (u : UserRow) (db : Db) (t : Timestamp) (password : Text)
      → load username db ≡ some u
      → lock_of t u ≡ none
      → ext.verify password u.password_hash ≡ false
      → load username (after t password db) ≡ some (set_failure t u u)
  unfolding after
  load-after u db t password found free wrong =
      load_wrong ext [] t (asked password) source db u found free wrong

  -- Of the tries that are not locked out, no other password is compared.
  compared-tried :
      (u : UserRow) (db : Db) (tries : List Try)
      → load username db ≡ some u
      → All (λ t. ext.verify t.1 u.password_hash ≡ false) tries
      → compared ext username source db tries ≤ tried u tries
  unfolding compared tried
  compared-tried u db [] found wrong = omega arith
  compared-tried u db ((t, password) ∷ later) found wrong = elim (Option-cases (lock_of t u)) [
    | inl free ↦ rw (tried_free u t password later free) (
        omega (
          arith,
          compared_open db t password later,
          compared-tried (set_failure t u u) (after t password db) later
              (load-after u db t password found free wrong.0) wrong.1,
        ))
    | inr (until, held) ↦ rw (tried_held u t password later held) (
        omega (
          arith,
          compared_shut u db t password later found held,
          compared-tried u (after t password db) later
              (ap (load username) (after-locked u db t password found held) ∙ found) wrong.1,
        ))
  ]

  -- Against an account with no failures counted, of any number of wrong passwords, tried in order of
  -- time, at most five for every quarter of an hour that has begun are compared with its hash: only
  -- so many of the attempts would be let in if the hash fitted every password.
  pub guesses_bounded :
      (u : UserRow) (db : Db) (now end : ℕ) (tries : List Try)
      → load username db ≡ some u
      → u.first_failed_at ≡ none
      → u.locked_until ≡ none
      → All (λ t. ext.verify t.1 u.password_hash ≡ false) tries
      → AreBetween now end tries
      → compared ext username source db tries ≤ lock_after * ((end - now) / lock_span + 1)
  guesses_bounded u db now end tries found fresh free wrong between =
      omega (
        arith,
        compared-tried u db tries found wrong,
        tried_fresh u now end tries fresh free between,
      )
