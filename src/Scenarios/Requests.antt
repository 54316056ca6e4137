-- ===== src/Scenarios/Requests.antt =====
-- The theorems on the `Idempotency-Key`, with a router that counts the requests that it sees.
use mandrake.Common.{
  ℕ, zero, suc, true, ◌<◌, ◌/◌, ◌*◌, length, ap, ◌≡◌, ◌≢◌, refl, List, [], ◌∷◌, Option, some, arith,
}
use mandrake.Common.Text.{Text, codes, text_dec, ne_head, ne_tail}
use mandrake.Common.Text.Order.{less}
use mandrake.Common.Text.Parts.{trim, is_whitespace}
use mandrake.Core.Problem.{Problem}
use mandrake.Core.Time.{Timestamp, second}
use mandrake.Daemon.Store.{App}
use mandrake.Auth.Token.{hex, hash}
use mandrake.Auth.Session.{cookie_name, touch, delete, from_cookie_header}
use mandrake.Auth.Extract.{authenticate, bearer, cookie, has_csrf_header, lookup_session, mutating}
use mandrake.Idempotency.{
  Bytes, Request, Response, State, lookup, key_of, body_hash, store, layer, mismatch,
}
use mandrake.Idempotency.Sweep.{KeepsOrder, sweep}
use mandrake.Idempotency.Kept.{Event, asks, sweeps, serve}
use mandrake.Idempotency.Replay.{repeat_replays, reuse_refused}
use mandrake.Idempotency.Refusal.{large_answer_repeated}
use mandrake.Scenarios.{plain, app, as_alice, by_cookie}

abbrev digest : Bytes → Bytes
digest b = b

abbrev from_str : Text → Option Bytes
from_str t = some t

abbrev into_response : Problem → Response
into_response p = record { status = p.status; headers = []; body = [] }

-- Each request is answered by how many have been.
abbrev counting : Request → App → Response × App
counting req a = (
  record { status = 201; headers = []; body = a.db.last_event ∷ [] },
  record a { db = record a.db { last_event = suc a.db.last_event } },
)

abbrev post : Request
post = record { parts = by_cookie; body = 7 ∷ [] }

abbrev other : Request
other = record { parts = by_cookie; body = 8 ∷ [] }

abbrev before : State
before = record { app = app; rows = [] }

-- A text for each second: as many strokes as there are seconds.
unfoldable marks : ℕ → Text
marks zero = []
marks (suc n) = b'I' ∷ marks n

less-marks : (m n : ℕ) → m < n → less (marks m) (marks n) ≡ true
unfolding marks
less-marks zero zero h = absurd (omega arith)
less-marks zero (suc n) h = refl
less-marks (suc m) zero h = absurd (omega arith)
less-marks (suc m) (suc n) h = ground (arith, less-marks m n)

abbrev strokes : Timestamp → Text
strokes t = marks (t / second)

strokes-KeepsOrder : KeepsOrder strokes
strokes-KeepsOrder t u h k = less-marks (t / second) (u / second) h

-- After the first request comes one with another body, and then the sweeper.
abbrev between : List Event
between = asks (2 * second) other ∷ sweeps (3 * second) ∷ []

abbrev after : State
after =
    serve plain digest from_str into_response strokes counting between
      (layer plain digest from_str into_response counting second post before).1

abbrev again : Response × State
again = layer plain digest from_str into_response counting (4 * second) post after

repeat_replays_example :
    (again.0.status ≡ 201)
    × (again.0.body ≡ 0 ∷ [])
    × (again.1 ≡ record after { app = (authenticate plain (4 * second) by_cookie after.app).1 })
unfolding serve sweep marks layer store lookup key_of body_hash authenticate bearer cookie
    has_csrf_header lookup_session mutating touch hash hex from_cookie_header cookie_name trim
    is_whitespace codes text_dec delete
repeat_replays_example =
    repeat_replays plain digest from_str into_response strokes counting second post before between
      (4 * second) post {key = codes "n1"} {auth = as_alice} {auth' = as_alice} strokes-KeepsOrder
      (omega arith) (omega arith, tt) refl refl refl (omega arith) refl refl (omega arith) refl refl
      refl refl refl

reuse_refused_example :
    layer plain digest from_str into_response counting (4 * second) other after ≡ (
      into_response mismatch,
      record after { app = (authenticate plain (4 * second) by_cookie after.app).1 },
    )
unfolding serve sweep marks layer store lookup key_of body_hash authenticate bearer cookie
    has_csrf_header lookup_session mutating touch hash hex from_cookie_header cookie_name trim
    is_whitespace codes text_dec delete
reuse_refused_example =
    reuse_refused plain digest from_str into_response strokes counting second post before between
      (4 * second) other {key = codes "n1"} {auth = as_alice} {auth' = as_alice} strokes-KeepsOrder
      (omega arith) (omega arith, tt) refl refl refl (omega arith) refl refl (omega arith) refl refl
      refl refl (omega arith) differs
  where
    differs : ◌≢◌ {A = Text} (48 ∷ 55 ∷ []) (48 ∷ 56 ∷ [])
    differs = ne_tail 48 48 (55 ∷ []) (56 ∷ []) (ne_head 55 56 [] [] (omega arith))

zeros : ℕ → Bytes
zeros zero = []
zeros (suc n) = 0 ∷ zeros n

length-zeros : (n : ℕ) → length (zeros n) ≡ n
unfolding zeros
length-zeros zero = refl
length-zeros (suc n) = ap suc (length-zeros n)

-- An answer of one byte more than the limit, which counts as well.
abbrev large : Request → App → Response × App
large req a = (record { status = 200; headers = []; body = zeros 1048577 }, (counting req a).1)

abbrev emptied : State
emptied = (layer plain digest from_str into_response large 5 post before).1

large_answer_repeated_example :
    ((layer plain digest from_str into_response large 5 post before).0.status ≡ 200)
    × ((layer plain digest from_str into_response large 5 post before).0.body ≡ [])
    × ((layer plain digest from_str into_response large 7 post emptied).1.app
        ≡ (large post (authenticate plain 7 by_cookie emptied.app).1).1)
unfolding layer store lookup key_of body_hash authenticate bearer cookie has_csrf_header
    lookup_session mutating touch hash hex from_cookie_header cookie_name trim is_whitespace codes
    text_dec delete
large_answer_repeated_example =
    large_answer_repeated plain digest from_str into_response large 5 7 post post before
      {key = codes "n1"} {auth = as_alice} {auth' = as_alice} refl refl refl (omega arith) refl refl
      (rw (length-zeros 1048577) (omega arith)) refl refl refl refl (omega arith)
