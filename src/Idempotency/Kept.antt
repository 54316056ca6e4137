-- ===== src/Idempotency/Kept.antt =====
-- What requests and the sweeper leave in the table of idempotency.rs.
use mandrake.Common.{
  ◌≡◌, not, ◌&&◌, List, [], ◌∷◌, Option, none, some, arith, length, ltb, Bool-cases, Option-cases,
  find?, ap, ◌<◌, ◌/◌, Bool, inl, inr, ◌⊎◌,
}
use mandrake.Common.Text.{Text, same_text, codes}
use mandrake.Core.Time.{Timestamp, second}
use mandrake.Core.Role.{Ident}
use mandrake.Core.Problem.{Problem}
use mandrake.Daemon.Store.{App}
use mandrake.Daemon.Steps.{Result-cases}
use mandrake.Auth.External.{External}
use mandrake.Auth.Extract.{authenticate}
use mandrake.Idempotency.{
  Bytes, body_limit, Request, Response, Row, State, is_row, lookup, key_of, body_hash, stored_of,
  store, layer,
}
use mandrake.Idempotency.Rows.{same_actor-eq, find-replace, find-kept}
use mandrake.Idempotency.Sweep.{day_before, last_second, KeepsOrder, outdated, sweep}

-- A request that the daemon serves, or a round of the sweeper.
pub data Event : Type 0 where
  asks : Timestamp → Request → Event
  sweeps : Timestamp → Event

-- Every round of the sweeper comes when the day before it began in an earlier second than that time.
abbrev pub AreWithin : Timestamp → List Event → Type 0
AreWithin at [] = Unit
AreWithin at (asks now req ∷ rest) = AreWithin at rest
AreWithin at (sweeps now ∷ rest) = (day_before now / second < at / second) × AreWithin at rest

module _ (ext : External) (digest : Bytes → Bytes) (from_str : Text → Option Bytes)
    (into_response : Problem → Response) where
  -- The row that is stored under one key leaves that of another.
  store-row :
      (now : Timestamp) (actor : Option Ident) (key h : Text) (r : Response) (rows : List Row)
      (a : Option Ident) (k : Text) {found : Row}
      → lookup actor key rows ≡ none
      → find? (is_row a k) rows ≡ some found
      → find? (is_row a k) (store ext digest from_str into_response now actor key h r rows).1
        ≡ some found
  unfolding store lookup
  store-row now actor key h r rows a k free there =
      let row : Row = record {
        actor_key = actor;
        key = key;
        stored = stored_of ext digest from_str into_response h r;
        created_at = now;
      } in
      elim (Bool-cases (is_row a k row)) [
        | inr e ↦ ground (arith, find-replace a k row rows)
        | inl e ↦
            let same_a : actor ≡ a = same_actor-eq actor a (ground arith) in
            let same_k : key ≡ k = ground arith in absurd (ground (arith, same_a, same_k))
      ]

  -- What a request does to the table: nothing, or it stores an answer where there is none.
  pub layer-rows :
      (next : Request → App → Response × App) (now : Timestamp) (req : Request) (s : State)
      → ((layer ext digest from_str into_response next now req s).1.rows ≡ s.rows)
        ⊎ ((actor : Option Ident) × (key : Text) × (h : Text) × (r : Response) × (lookup actor key
                s.rows
              ≡ none)
            × ((layer ext digest from_str into_response next now req s).1.rows
                ≡ (store ext digest from_str into_response now actor key h r s.rows).1))
  unfolding layer
  layer-rows next now req s =
      elim (Option-cases (key_of ext digest from_str into_response req.parts)) [
        | inl e ↦ inl (ground arith)
        | inr (key, e) ↦ elim (Result-cases (authenticate ext now req.parts s.app).0) [
          | inr (p, f) ↦ inl (ground arith)
          | inl (auth, f) ↦ elim (Option-cases (lookup auth.actor.id key s.rows)) [
            | inr (st, g) ↦ inl (ground arith)
            | inl g ↦
                elim (Bool-cases (
                  same_text req.parts.method (codes "POST")
                  && not (ltb body_limit (length req.body)))) [
                    | inr c ↦ inl (ground arith)
                    | inl c ↦ inr (
                      auth.actor.id,
                      key,
                      body_hash ext digest from_str into_response req.body,
                      (next req (authenticate ext now req.parts s.app).1).0,
                      g,
                      ground arith,
                    )
                  ]
          ]
        ]
      ]

  -- A row that is stored stays as it is.
  layer-row :
      (next : Request → App → Response × App) (now : Timestamp) (req : Request) (s : State)
      (a : Option Ident) (k : Text) {found : Row}
      → find? (is_row a k) s.rows ≡ some found
      → find? (is_row a k) (layer ext digest from_str into_response next now req s).1.rows
        ≡ some found
  layer-row next now req s a k there = elim (layer-rows next now req s) [
    | inl same ↦ rw same there
    | inr (actor, key, h, r, free, stored) ↦
        rw stored (store-row now actor key h r s.rows a k free there)
  ]

  module _ (to_rfc3339 : Timestamp → Text) where
    -- What the daemon does, one after the other.
    unfoldable pub serve : (Request → App → Response × App) → List Event → State → State
    serve next [] s = s
    serve next (asks now req ∷ rest) s =
        serve next rest (layer ext digest from_str into_response next now req s).1
    serve next (sweeps now ∷ rest) s = serve next rest (sweep to_rfc3339 now s).1

    sweep-row :
        (now : Timestamp) (s : State) (p : Row → Bool) {found : Row}
        → KeepsOrder to_rfc3339
        → found.created_at / second < last_second
        → day_before now / second < found.created_at / second
        → find? p s.rows ≡ some found
        → find? p (sweep to_rfc3339 now s).1.rows ≡ some found
    unfolding sweep
    sweep-row now s p {found} order bound young there =
        find-kept p (outdated to_rfc3339 now) s.rows found there
          (ap not (order (day_before now) found.created_at young bound))

    pub serve-row :
        (next : Request → App → Response × App) (events : List Event) (s : State) (a : Option Ident)
        (k : Text) {found : Row}
        → KeepsOrder to_rfc3339
        → found.created_at / second < last_second
        → AreWithin found.created_at events
        → find? (is_row a k) s.rows ≡ some found
        → find? (is_row a k) (serve next events s).rows ≡ some found
    unfolding serve
    serve-row next [] s a k order bound w there = there
    serve-row next (asks now req ∷ rest) s a k order bound w there =
        serve-row next rest _ a k order bound w (layer-row next now req s a k there)
    serve-row next (sweeps now ∷ rest) s a k order bound w there =
        serve-row next rest _ a k order bound w.1
          (sweep-row now s (is_row a k) order bound w.0 there)
