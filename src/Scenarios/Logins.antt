-- ===== src/Scenarios/Logins.antt =====
-- The theorems on logins and on listing users, on the scenario's host.
use mandrake.Common.{
  ℕ, ◌+◌, ◌-◌, ◌*◌, ◌/◌, ◌≤◌, ◌≡◌, ◌≢◌, refl, Bool, true, false, List, [], ◌∷◌, Option, none, some,
  arith, count_if,
}
use mandrake.Common.Text.{codes, text_dec}
use mandrake.Core.Time.{second}
use mandrake.Daemon.Store.{UserRow, Db}
use mandrake.Auth.Login.{LoginRequest, load, lock_of, lock_after, attempt}
use mandrake.Auth.Login.Lock.{attempt-logged_in}
use mandrake.Auth.Login.Guesses.{Try, lock_span, compared, guesses_bounded}
use mandrake.Cursor.{Base64}
use mandrake.Cursor.Walk.{IsAscending}
use mandrake.Users.{User, from_row}
use mandrake.Users.Listing.Pages.{pages_list_users, all_pages}
use mandrake.Users.Listing.Sorted.{name_of}
use mandrake.Scenarios.{plain, alice, bob, db, app, as_alice}

abbrev right : LoginRequest
right = record { username = codes "alice"; password = codes "pw" }

abbrev wrong : LoginRequest
wrong = record { username = codes "alice"; password = codes "guess" }

-- Alice is locked until 100 seconds after the epoch.
abbrev held : Db
held = record db { users = record alice { locked_until = some (100 * second) } ∷ bob ∷ [] }

attempt-logged_in_example :
    (u : UserRow) × (load (codes "alice") db ≡ some u)
    × (lock_of 5 u ≡ none)
    × (u.disabled ≡ false)
    × (plain.verify (codes "pw") u.password_hash ≡ true)
    × (◌≡◌ {A = Option ℕ} (some 1) (some u.id))
    × (as_alice.actor.role ≡ u.role)
unfolding attempt text_dec codes
attempt-logged_in_example =
    attempt-logged_in plain (codes "k3") 5 right none db
      {session = record {
        actor = as_alice.actor;
        expires_at = some (5 + 604800 * second);
        idle_expires_at = some (5 + 43200 * second);
      }}
      refl

-- Six wrong guesses in six seconds.
abbrev guesses : List Try
guesses =
    (1 * second, codes "a")
    ∷ (2 * second, codes "b")
    ∷ (3 * second, codes "c")
    ∷ (4 * second, codes "d")
    ∷ (5 * second, codes "e")
    ∷ (6 * second, codes "f")
    ∷ []

guesses_bounded_example :
    compared plain (codes "alice") none db guesses ≤ lock_after * ((7 * second - 0) / lock_span + 1)
unfolding text_dec codes
guesses_bounded_example =
    guesses_bounded plain (codes "alice") none alice db 0 (7 * second) guesses refl refl refl
      (refl, (refl, (refl, (refl, (refl, (refl, tt))))))
      (
        omega arith,
        (omega arith, (omega arith, (omega arith, (omega arith, (omega arith, omega arith))))),
      )

abbrev base64 : Base64
base64 = record { encode = λ t. t; decode = λ t. some t }

pages_list_users_example :
    IsAscending name_of (all_pages base64 7 as_alice app 3 (some 1))
    × ((p : User → Bool)
        → count_if p (all_pages base64 7 as_alice app 3 (some 1))
          ≡ count_if (λ r. p (from_row 7 r)) (alice ∷ bob ∷ []))
unfolding codes
pages_list_users_example =
    pages_list_users base64 7 as_alice app 3 (some 1) (λ t. refl) ((other_names, tt), (tt, tt))
      (named_alice, (named_bob, tt)) (omega arith)
  where
    other_names : codes "bob" ≢ codes "alice"
    other_names e = cc

    named_alice : codes "alice" ≢ []
    named_alice e = cc

    named_bob : codes "bob" ≢ []
    named_bob e = cc
