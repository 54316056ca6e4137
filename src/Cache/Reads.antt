-- ===== src/Cache/Reads.antt =====
-- Reads and writes one after the other.
use mandrake.Common.{ℕ, ◌≡◌, inl, inr, List, [], ◌∷◌, some, arith, Option-cases}
use mandrake.Cache.{TtlCache, fresh, store, clear, get_or}

-- What the driver would answer, and the cache before it.
pub record Served (T : Type 0) : Type 0 where
  pub value : T
  pub cache : TtlCache T

-- A read, with the times at which it begins and ends; a read whose fill fails; a write of the daemon.
pub data Op (T : Type 0) : Type 0 where
  reads : ℕ → ℕ → Op T
  fails : ℕ → ℕ → Op T
  writes : T → Op T

module _ {T : Type 0} where
  abbrev pub perform : Op T → Served T → Served T
  perform (reads now later) s = record s {
    cache = (get_or {E = Unit} now later (inr s.value) s.cache).1;
  }
  perform (fails now later) s = record s {
    cache = (get_or {E = Unit} now later (inl tt) s.cache).1;
  }
  perform (writes v) s = record { value = v; cache = clear s.cache }

  unfoldable pub perform_all : List (Op T) → Served T → Served T
  perform_all [] s = s
  perform_all (o ∷ ops) s = perform_all ops (perform o s)

  -- What is fresh is what the driver would answer.
  abbrev pub IsCurrent : Served T → Type 0
  IsCurrent s = (now : ℕ) (v : T) → fresh now s.cache ≡ some v → v ≡ s.value

  store-fresh :
      (now later : ℕ) (u v : T) (cache : TtlCache T)
      → fresh now (store later u cache) ≡ some v
      → v ≡ u
  unfolding fresh store
  store-fresh now later u v cache h = ground arith

  clear-fresh : (now : ℕ) (v : T) (cache : TtlCache T) → fresh now (clear cache) ≡ some v → ⊥
  unfolding fresh clear
  clear-fresh now v cache h = ground arith

  perform-IsCurrent : (o : Op T) (s : Served T) → IsCurrent s → IsCurrent (perform o s)
  unfolding get_or
  perform-IsCurrent (reads now later) s h t v e = elim (Option-cases (fresh now s.cache)) [
    | inl empty ↦ store-fresh t later s.value v s.cache (ground arith)
    | inr (u, full) ↦ h t v (ground arith)
  ]
  perform-IsCurrent (fails now later) s h t v e = h t v (ground arith)
  perform-IsCurrent (writes u) s h t v e = absurd (clear-fresh t v s.cache e)

  perform_all-IsCurrent :
      (ops : List (Op T)) (s : Served T) → IsCurrent s → IsCurrent (perform_all ops s)
  unfolding perform_all
  perform_all-IsCurrent [] s h = h
  perform_all-IsCurrent (o ∷ ops) s h =
      perform_all-IsCurrent ops (perform o s) (perform-IsCurrent o s h)

  get_or-current :
      (now later : ℕ) (s : Served T)
      → IsCurrent s
      → (get_or {E = Unit} now later (inr s.value) s.cache).0 ≡ inr s.value
  unfolding get_or
  get_or-current now later s h = elim (Option-cases (fresh now s.cache)) [
    | inl empty ↦ ground arith
    | inr (u, full) ↦ ground (arith, h now u full)
  ]

  -- Where what is fresh in the cache is what the driver would answer, then after any reads, failed
  -- reads and writes that do not overlap, a read gives what the driver would answer.
  pub get_or-last_write :
      (ops : List (Op T)) (s : Served T) (now later : ℕ)
      → IsCurrent s
      → (get_or {E = Unit} now later (inr (perform_all ops s).value) (perform_all ops s).cache).0
        ≡ inr (perform_all ops s).value
  get_or-last_write ops s now later h =
      get_or-current now later (perform_all ops s) (perform_all-IsCurrent ops s h)
