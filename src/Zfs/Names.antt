-- ===== src/Zfs/Names.antt =====
-- Looking up by name after entries were removed, by name or by a test on their names.
use mandrake.Common.{
  ◌≡◌, refl, sym, ap, Bool, true, false, not, ◌&&◌, List, [], ◌∷◌, ◌++◌, none, arith, if◌then◌else◌,
  keep, any,
}
use mandrake.Common.Map.{lookup, contains, remove, lookup-remove}
use mandrake.Common.Text.{Text, codes, same_text, text_dec}
use mandrake.Common.Text.Parts.{starts_with}
use mandrake.Zfs.{SnapshotInfo, keys_of}
use mandrake.Zfs.Destroy.{remove_all, drop_snapshots}

abbrev pub is_in : Text → List Text → Bool
is_in k ks = any (λ j. same_text j k) ks

module _ {V : Type 0} where
  -- A test on the names alone decides for every entry of a name.
  pub lookup-keep_named :
      (q : Text → Bool) (k : Text) (m : List (Text × V))
      → lookup text_dec k (keep (λ e. q e.0) m) ≡ (if q k then lookup text_dec k m else none)
  lookup-keep_named q k [] = ground arith
  lookup-keep_named q k ((j, w) ∷ m) = elim (text_dec j k) [
    | yes e ↦ ground (arith, lookup-keep_named q k m, ap q e)
    | no n ↦ ground (arith, lookup-keep_named q k m, n)
  ]

  pub lookup-remove_all :
      (k : Text) (ks : List Text) (m : List (Text × V))
      → lookup text_dec k (remove_all ks m) ≡ (if is_in k ks then none else lookup text_dec k m)
  lookup-remove_all k [] m = refl
  lookup-remove_all k (j ∷ ks) m =
      ground (arith, lookup-remove_all k ks (remove text_dec j m), lookup-remove text_dec k j m)

  pub is_in-keys_of :
      (q : Text → Bool) (k : Text) (m : List (Text × V))
      → is_in k (keep q (keys_of m)) ≡ (contains text_dec k m && q k)
  is_in-keys_of q k [] = refl
  is_in-keys_of q k ((j, w) ∷ m) = elim (text_dec j k) [
    | yes e ↦ ground (arith, is_in-keys_of q k m, ap q e)
    | no n ↦ ground (arith, is_in-keys_of q k m, n)
  ]

-- No snapshot of these datasets is left.
pub lookup-drop_snapshots :
    (k : Text) (cs : List Text) (m : List (Text × SnapshotInfo))
    → lookup text_dec k (drop_snapshots cs m)
      ≡ (if any (λ c. starts_with (c ++ codes "@") k) cs then none else lookup text_dec k m)
lookup-drop_snapshots k [] m = refl
lookup-drop_snapshots k (c ∷ cs) m = ground (
  arith,
  lookup-drop_snapshots k cs (keep (λ e. not (starts_with (c ++ codes "@") e.0)) m),
  lookup-keep_named (λ j. not (starts_with (c ++ codes "@") j)) k m,
)

-- What holds of one that is in holds of some.
pub any-is_in :
    (p : Text → Bool) (k : Text) (ks : List Text) → is_in k ks ≡ true → p k ≡ true → any p ks ≡ true
any-is_in p k [] h e = absurd_of h
  where
    absurd_of : false ≡ true → any p [] ≡ true
    absurd_of h = cc
any-is_in p k (j ∷ ks) h e = elim (text_dec j k) [
  | yes same ↦ ground (arith, any-is_in p k ks, ap p same)
  | no n ↦ ground (arith, any-is_in p k ks, n)
]

pub same_text-sym : (a b : Text) → same_text a b ≡ same_text b a
same_text-sym a b = elim (text_dec a b) [ yes e ↦ ground (arith, sym e) | no n ↦ ground (arith, n) ]

pub is_in-keep :
    (q : Text → Bool) (k : Text) (ks : List Text) → is_in k (keep q ks) ≡ (is_in k ks && q k)
is_in-keep q k [] = refl
is_in-keep q k (j ∷ ks) = elim (text_dec j k) [
  | yes e ↦ ground (arith, is_in-keep q k ks, ap q e)
  | no n ↦ ground (arith, is_in-keep q k ks, n)
]
