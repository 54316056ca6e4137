-- ===== src/Cache.antt =====
-- crates/mandraked/src/cache.rs: the cache of one value that stands before each list of a driver. An
-- `Instant` is a number, and a fill ends with an error or the value.
pub mod Reads
pub mod Fills
use mandrake.Common.{ℕ, ◌-◌, ◌⊎◌, inl, inr, Bool, Option, none, some, ltb, if◌then◌else◌}

-- The mutex may be poisoned.
pub record TtlCache (T : Type 0) : Type 0 where
  pub ttl : ℕ
  pub slot : Option (ℕ × T)
  pub poisoned : Bool

module _ {T : Type 0} where
  unfoldable pub fresh : ℕ → TtlCache T → Option T
  fresh now cache = if cache.poisoned then none else elim cache.slot [
    | none ↦ none
    | some (at, v) ↦ if ltb (now - at) cache.ttl then some v else none
  ]

  unfoldable pub store : ℕ → T → TtlCache T → TtlCache T
  store now v cache = if cache.poisoned then cache else record cache { slot = some (now, v) }

  unfoldable pub clear : TtlCache T → TtlCache T
  clear cache = if cache.poisoned then cache else record cache { slot = none }

  -- The call begins at `now`, and a fill that it makes ends at `later`.
  unfoldable pub get_or : {E : Type 0} → ℕ → ℕ → E ⊎ T → TtlCache T → (E ⊎ T) × TtlCache T
  get_or now later fill cache = elim (fresh now cache) [
    | some v ↦ (inr v, cache)
    | none ↦ elim fill [ inl e ↦ (inl e, cache) | inr v ↦ (inr v, store later v cache) ]
  ]
