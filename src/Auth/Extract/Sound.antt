-- ===== src/Auth/Extract/Sound.antt =====
-- Who `from_request_parts` lets in.
use mandrake.Common.{
  ℕ, ◌≡◌, ◌≢◌, ◌∙◌, sym, ap, Bool, true, false, Option, none, some, Memᴰ, arith, Option-cases, inl,
  inr,
}
use mandrake.Common.Text.{Text}
use mandrake.Core.Time.{Timestamp}
use mandrake.Core.Role.{root}
use mandrake.Daemon.Store.{UserRow, Db, App}
use mandrake.Daemon.Handler.{ok}
use mandrake.Auth.External.{External}
use mandrake.Auth.Token.{hash}
use mandrake.Auth.Extract.{
  Auth, Parts, mutating, root_auth, lookup_token, bearer, cookie, has_csrf_header, lookup_session,
  authenticate,
}
use mandrake.Auth.Extract.Lookup.{
  IsAccount, IsToken, IsSession, lookup_token-IsToken, lookup_session-IsSession,
}

module _ (ext : External) where
  -- How a request may be authentic.
  pub data Authentic (now : Timestamp) (parts : Parts) (db : Db) (auth : Auth) : Type 0 where
    socket : parts.peer ≡ some (some 0) → auth ≡ root_auth → Authentic now parts db auth
    token :
        (secret : Text)
        → parts.peer ≡ none
        → bearer ext parts ≡ some secret
        → IsToken now db (hash ext secret) auth
        → Authentic now parts db auth
    session :
        (secret : Text)
        → parts.peer ≡ none
        → bearer ext parts ≡ none
        → cookie ext parts ≡ some secret
        → IsSession ext now db secret auth
        → (mutating parts.method ≡ true → has_csrf_header ext parts ≡ true)
        → Authentic now parts db auth

  by_bearer_inv :
      (now : Timestamp) (parts : Parts) (s : App) (secret : Text) {auth : Auth}
      → parts.peer ≡ none
      → bearer ext parts ≡ some secret
      → (authenticate ext now parts s).0 ≡ ok auth
      → (lookup_token now (hash ext secret) s.db).0 ≡ some auth
  unfolding authenticate
  by_bearer_inv now parts s secret p b h = ground arith

  by_cookie_inv :
      (now : Timestamp) (parts : Parts) (s : App) (secret : Text) {auth : Auth}
      → parts.peer ≡ none
      → bearer ext parts ≡ none
      → cookie ext parts ≡ some secret
      → (authenticate ext now parts s).0 ≡ ok auth
      → ((lookup_session ext now secret s.db).0 ≡ some auth)
        × (mutating parts.method ≡ true → has_csrf_header ext parts ≡ true)
  unfolding authenticate
  by_cookie_inv now parts s secret p b c h = ground arith

  by_socket_inv :
      (now : Timestamp) (parts : Parts) (s : App) (uid : Option ℕ) {auth : Auth}
      → parts.peer ≡ some uid
      → (authenticate ext now parts s).0 ≡ ok auth
      → (uid ≡ some 0) × (auth ≡ root_auth)
  unfolding authenticate
  by_socket_inv now parts s uid p h = ground arith

  anonymous_inv :
      (now : Timestamp) (parts : Parts) (s : App) {auth : Auth}
      → parts.peer ≡ none
      → bearer ext parts ≡ none
      → cookie ext parts ≡ none
      → (authenticate ext now parts s).0 ≢ ok auth
  unfolding authenticate
  anonymous_inv now parts s p b c = ground arith

  -- Whoever is let in came by the socket as root, or by a stored, unexpired token, or by a stored
  -- session within both of its limits and, on a mutating method, with the CSRF header; and the
  -- account behind a token or a session exists and is enabled, and gives the actor its role.
  pub authenticate-Authentic :
      (now : Timestamp) (parts : Parts) (s : App) {auth : Auth}
      → (authenticate ext now parts s).0 ≡ ok auth
      → Authentic now parts s.db auth
  authenticate-Authentic now parts s h = elim (Option-cases parts.peer) [
    | inr (uid, p) ↦
        let (is_root, granted) = by_socket_inv now parts s uid p h in
        socket (p ∙ ap some is_root) granted
    | inl p ↦ elim (Option-cases (bearer ext parts)) [
      | inr (secret, b) ↦
          token secret p b (
            lookup_token-IsToken now (hash ext secret) s.db
              (by_bearer_inv now parts s secret p b h))
      | inl b ↦ elim (Option-cases (cookie ext parts)) [
        | inr (secret, c) ↦
            let (found, csrf) = by_cookie_inv now parts s secret p b c h in
            session secret p b c (lookup_session-IsSession ext now secret s.db found) csrf
        | inl c ↦ absurd (anonymous_inv now parts s p b c h)
      ]
    ]
  ]

  account_enabled :
      (db : Db) (id i : ℕ) (user : UserRow)
      → IsAccount db id user
      → ((u : UserRow) → Memᴰ u db.users → u.id ≡ i → u.disabled ≡ true)
      → ◌≢◌ {A = Option ℕ} (some user.id) (some i)
  account_enabled db id i user a locked e = true_false (locked user a.stored (same e)) a.enabled
    where
      same : ◌≡◌ {A = Option ℕ} (some user.id) (some i) → user.id ≡ i
      same f = cc

      true_false : {b : Bool} → b ≡ true → b ≡ false → ⊥
      true_false p q = cc

  -- Where every row of an id is disabled, or there is none, no request is let in as the user of that
  -- id.
  pub disabled_locked_out :
      (now : Timestamp) (parts : Parts) (s : App) (i : ℕ) {auth : Auth}
      → ((u : UserRow) → Memᴰ u s.db.users → u.id ≡ i → u.disabled ≡ true)
      → (authenticate ext now parts s).0 ≡ ok auth
      → auth.actor.id ≢ some i
  disabled_locked_out now parts s i locked h e = by_cases (authenticate-Authentic now parts s h) e
    where
      by_cases : {auth : Auth} → Authentic now parts s.db auth → auth.actor.id ≢ some i
      by_cases (socket p g) f = unfold root in ground arith
      by_cases (token secret p b t) f =
          account_enabled s.db t.row.user_id i t.user t.account locked
            (sym (ap (λ a. a.actor.id) t.granted) ∙ f)
      by_cases (session secret p b c t csrf) f =
          account_enabled s.db t.row.user_id i t.user t.account locked
            (sym (ap (λ a. a.id) t.granted) ∙ f)
