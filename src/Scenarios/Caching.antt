-- ===== src/Scenarios/Caching.antt =====
-- The theorems on the cache, with a number for the list of a driver.
use mandrake.Common.{ℕ, ◌≡◌, refl, inr, false, List, [], ◌∷◌, none, some, arith}
use mandrake.Cache.{TtlCache, fresh, get_or}
use mandrake.Cache.Reads.{
  Served, Op, reads, fails, writes, perform_all, IsCurrent, get_or-last_write,
}
use mandrake.Cache.Fills.{World, Steps, fill_race}

abbrev empty : TtlCache ℕ
empty = record { ttl = 60; slot = none; poisoned = false }

abbrev served : Served ℕ
served = record { value = 7; cache = empty }

abbrev ops : List (Op ℕ)
ops = reads 1 2 ∷ reads 5 5 ∷ writes 8 ∷ fails 6 7 ∷ reads 8 9 ∷ []

served-IsCurrent : IsCurrent served
unfolding fresh
served-IsCurrent now v h = cc

get_or-last_write_example :
    (get_or {E = Unit {0}} 10 11
      (inr (perform_all ops served).value)
      (perform_all ops served).cache).0
    ≡ inr (perform_all ops served).value
get_or-last_write_example = get_or-last_write ops served 10 11 served-IsCurrent

abbrev world : World ℕ
world = record { value = 7; cache = empty; filling = []; unclear = 0 }

fill_race_example :
    (written : World ℕ) × (end : World ℕ) × Steps world written
    × (written.value ≡ 8)
    × (written.unclear ≡ 0)
    × (fresh 1 written.cache ≡ none)
    × Steps written end
    × (end.value ≡ 8)
    × (end.unclear ≡ 0)
    × (end.filling ≡ [])
    × (fresh 1 end.cache ≡ some 7)
unfolding fresh
fill_race_example = fill_race world 1 8 refl (omega arith) refl refl
