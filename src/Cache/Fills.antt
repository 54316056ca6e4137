-- ===== src/Cache/Fills.antt =====
-- Fills that overlap with writes: a call reads the driver outside the lock.
use mandrake.Common.{ℕ, suc, ◌≡◌, refl, ◌<◌, false, List, [], ◌∷◌, ◌++◌, none, some, arith}
use mandrake.Cache.{TtlCache, fresh, store, clear}

-- What the driver would answer, the cache, what the fills in flight have read, and how many writes have
-- changed the driver and not yet cleared the cache.
pub record World (T : Type 0) : Type 0 where
  pub value : T
  pub cache : TtlCache T
  pub filling : List T
  pub unclear : ℕ

module _ {T : Type 0} where
  -- A call that finds nothing fresh reads the driver; later it stores what it read, or fails. A write
  -- changes the driver, and then clears the cache, once.
  pub data Step : World T → World T → Type 0 where
    begins :
        {w : World T} (now : ℕ)
        → fresh now w.cache ≡ none
        → Step w (record w { filling = w.value ∷ w.filling })
    ends :
        {w : World T} (now : ℕ) (before : List T) (v : T) (after : List T)
        → w.filling ≡ before ++ v ∷ after
        → Step w (record w { cache = store now v w.cache; filling = before ++ after })
    breaks :
        {w : World T} (before : List T) (v : T) (after : List T)
        → w.filling ≡ before ++ v ∷ after
        → Step w (record w { filling = before ++ after })
    changes : {w : World T} (v : T) → Step w (record w { value = v; unclear = suc w.unclear })
    clears :
        {w : World T} (n : ℕ)
        → w.unclear ≡ suc n
        → Step w (record w { cache = clear w.cache; unclear = n })

  pub data Steps : World T → World T → Type 0 where
    done : {w : World T} → Steps w w
    step : {u v w : World T} → Step u v → Steps v w → Steps u w

  stored_fresh :
      (now : ℕ) (v : T) (cache : TtlCache T)
      → cache.poisoned ≡ false
      → 0 < cache.ttl
      → fresh now (store now v (clear cache)) ≡ some v
  unfolding fresh store clear
  stored_fresh now v cache e h = ground arith

  cleared_empty : (now : ℕ) (cache : TtlCache T) → fresh now (clear cache) ≡ none
  unfolding fresh clear
  cleared_empty now cache = ground arith

  -- Where nothing is fresh, no write is under way, the mutex is sound and the time to live is
  -- positive, a write can be over, with the cache cleared and nothing fresh in it, and yet a fill
  -- that began before the write ends after it and leaves the value from before the write as fresh,
  -- with as many fills in flight as before.
  pub fill_race :
      (w : World T) (now : ℕ) (new : T)
      → w.cache.poisoned ≡ false
      → 0 < w.cache.ttl
      → fresh now w.cache ≡ none
      → w.unclear ≡ 0
      → (written : World T) × (end : World T) × Steps w written
        × (written.value ≡ new)
        × (written.unclear ≡ 0)
        × (fresh now written.cache ≡ none)
        × Steps written end
        × (end.value ≡ new)
        × (end.unclear ≡ 0)
        × (end.filling ≡ w.filling)
        × (fresh now end.cache ≡ some w.value)
  fill_race w now new sane long empty settled =
      let written : World T = record w {
        value = new;
        cache = clear w.cache;
        filling = w.value ∷ w.filling;
      } in
      (
        written,
        record w { value = new; cache = store now w.value (clear w.cache) },
        step (begins now empty) (step (changes new) (step (clears w.unclear refl) done)),
        refl,
        settled,
        cleared_empty now w.cache,
        step (ends now [] w.value w.filling refl) done,
        refl,
        settled,
        refl,
        stored_fresh now w.value w.cache sane long,
      )
