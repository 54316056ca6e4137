-- ===== src/Common/Map.antt =====
-- Rust's `HashMap` and `BTreeMap`: association lists, with the updates that the daemon makes.
use mathlib.Core.Path.{◌≡◌, refl}
use mathlib.Core.Logic.{ite}
use mathlib.Core.Bool.{Bool, true, false}
use mathlib.Core.Option.{Option, none, some}
use mathlib.Core.List.{List, [], ◌∷◌}
use native.Mathlib.Omega.{arith}
use mandrake.Common.Tests.{if◌then◌else◌}
use mandrake.Common.Lists.{keep}

module _ {ℓ} {K V : Type ℓ} (dec : Discrete K) where
  abbrev pub lookup : K → List (K × V) → Option V
  lookup k [] = none
  lookup k ((j, v) ∷ m) = let rest = lookup k m in ite (dec j k) (some v) rest

  abbrev pub contains : K → List (K × V) → Bool
  contains k m = elim (lookup k m) [ none ↦ false | some _ ↦ true ]

  -- `HashMap::insert`: the order of the entries is not observed.
  abbrev pub insert : K → V → List (K × V) → List (K × V)
  insert k v [] = (k, v) ∷ []
  insert k v ((j, w) ∷ m) = let rest = insert k v m in ite (dec j k) ((k, v) ∷ m) ((j, w) ∷ rest)

  abbrev pub remove : K → List (K × V) → List (K × V)
  remove k [] = []
  remove k ((j, w) ∷ m) = let rest = remove k m in ite (dec j k) rest ((j, w) ∷ rest)

  pub lookup-insert :
      (j k : K) (v : V) (m : List (K × V))
      → lookup j (insert k v m) ≡ ite (dec k j) (some v) (lookup j m)
  lookup-insert j k v [] = refl
  lookup-insert j k v ((i, w) ∷ m) = ground (arith, lookup-insert j k v m)

  pub lookup-remove :
      (j k : K) (m : List (K × V)) → lookup j (remove k m) ≡ ite (dec k j) none (lookup j m)
  lookup-remove j k [] = ground arith
  lookup-remove j k ((i, w) ∷ m) = ground (arith, lookup-remove j k m)

  -- No key stands twice, as in a map.
  abbrev pub KeysDistinct : List (K × V) → Type ℓ
  KeysDistinct [] = Unit
  KeysDistinct ((j, w) ∷ m) = (lookup j m ≡ none) × KeysDistinct m

  -- `retain`, by a test on the entry.
  pub lookup-keep-none :
      (p : K × V → Bool) (k : K) (m : List (K × V)) → lookup k m ≡ none → lookup k (keep p m) ≡ none
  lookup-keep-none p k [] h = refl
  lookup-keep-none p k ((j, w) ∷ m) h = ground (arith, lookup-keep-none p k m)

  pub lookup-keep :
      (p : K × V → Bool) (k : K) (m : List (K × V))
      → KeysDistinct m
      → lookup k (keep p m)
        ≡ elim (lookup k m) [ none ↦ none | some v ↦ if p (k, v) then some v else none ]
  lookup-keep p k [] h = refl
  lookup-keep p k ((j, w) ∷ m) h = ground (arith, lookup-keep p k m h.1, lookup-keep-none p k m)

  pub keep-KeysDistinct :
      (p : K × V → Bool) (m : List (K × V)) → KeysDistinct m → KeysDistinct (keep p m)
  keep-KeysDistinct p [] h = h
  keep-KeysDistinct p ((j, w) ∷ m) h =
      ground (arith, keep-KeysDistinct p m h.1, lookup-keep-none p j m)

  pub insert-KeysDistinct :
      (k : K) (v : V) (m : List (K × V)) → KeysDistinct m → KeysDistinct (insert k v m)
  insert-KeysDistinct k v [] h = (refl, tt)
  insert-KeysDistinct k v ((j, w) ∷ m) h =
      ground (arith, insert-KeysDistinct k v m h.1, lookup-insert j k v m)
