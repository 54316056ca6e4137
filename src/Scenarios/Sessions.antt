-- ===== src/Scenarios/Sessions.antt =====
-- The theorems on sessions, tokens and requests, on the scenario's host.
use mandrake.Common.{ℕ, ◌*◌, ◌≡◌, ◌≢◌, refl, true, none, arith, find?, Memᴰ, inl, sym, ap, ◌∙◌}
use mandrake.Common.Text.{codes, text_dec}
use mandrake.Common.Text.Parts.{trim, is_whitespace}
use mandrake.Core.Time.{second}
use mandrake.Daemon.Store.{UserRow}
use mandrake.Auth.Token.{hex, hash}
use mandrake.Auth.Session.{cookie_name, has_hash, touch, delete, from_cookie_header}
use mandrake.Auth.Session.Lifetime.{AreBounded, touch_over}
use mandrake.Auth.Extract.{authenticate, bearer, cookie, has_csrf_header, lookup_session, mutating}
use mandrake.Auth.Extract.Sound.{Authentic, authenticate-Authentic}
use mandrake.Scenarios.{plain, secret, session, db, app, as_alice, by_cookie}

bounded : AreBounded db
bounded = (record { idle_le = omega arith; absolute = refl }, tt)

touch_over_example :
    ((touch plain secret (43200 * second) db).0 ≡ none)
    × (find? (has_hash (hash plain secret)) (touch plain secret (43200 * second) db).1.sessions
        ≡ none)
unfolding touch hash hex codes text_dec
touch_over_example =
    touch_over plain secret (43200 * second) db {row = session} refl (inl (omega arith))

authenticate-Authentic_example : Authentic plain 5 by_cookie db as_alice
unfolding authenticate bearer cookie has_csrf_header lookup_session mutating touch hash hex
    from_cookie_header cookie_name trim is_whitespace codes text_dec delete
authenticate-Authentic_example = authenticate-Authentic plain 5 by_cookie app refl

no_third : (u : UserRow) → Memᴰ u app.db.users → u.id ≡ 3 → u.disabled ≡ true
no_third u (Memᴰ.head p) e = absurd (one_not_three (sym (ap (λ r. r.id) p) ∙ e))
  where
    one_not_three : ◌≢◌ {A = ℕ} 1 3
    one_not_three = omega arith
no_third u (Memᴰ.tail (Memᴰ.head p)) e = absurd (two_not_three (sym (ap (λ r. r.id) p) ∙ e))
  where
    two_not_three : ◌≢◌ {A = ℕ} 2 3
    two_not_three = omega arith
no_third u (Memᴰ.tail (Memᴰ.tail m)) e = elim m [ ]
