-- ===== src/Zfs/Volumes.antt =====
-- What `set_properties` of fake.rs does to the size of a volume.
use mandrake.Common.{
  ℕ, ◌≡◌, ◌≢◌, ◌≤◌, ◌<◌, ◌^◌, ◌-◌, refl, sym, ◌∙◌, subst, false, List, [], ◌∷◌, some, arith,
  or_else, Bool-cases, inl, inr, Option-cases, ℕ_discrete,
}
use mandrake.Common.Float.{Float}
use mandrake.Common.Map.{lookup, lookup-insert}
use mandrake.Common.Text.{Text, codes, text_dec}
use mandrake.Common.Text.Decimal.{parse_uint}
use mandrake.Zfs.{State, DatasetInfo}
use mandrake.Zfs.Datasets.{apply_property, set_all, set_properties, shrinks, bytes}

-- A volume of that size or more.
abbrev pub HasVolume : ℕ → DatasetInfo → Type 0
HasVolume old d = (n : ℕ) × (d.volsize ≡ some n) × (old ≤ n)

apply_property-other :
    (float : Float) (d : DatasetInfo) (k v : Text)
    → k ≢ codes "volsize"
    → (apply_property float d k v).volsize ≡ d.volsize
unfolding apply_property
apply_property-other float d k v h = ground (arith, h)

apply_property-volsize :
    (float : Float) (d : DatasetInfo) (v : Text)
    → (apply_property float d (codes "volsize") v).volsize ≡ bytes float v
unfolding apply_property codes text_dec ℕ_discrete
apply_property-volsize float d v = refl

not_smaller :
    (d : DatasetInfo) (k v : Text) (n : ℕ)
    → k ≡ codes "volsize"
    → d.volsize ≡ some n
    → shrinks d k v ≡ false
    → n ≤ or_else (parse_uint (2 ^ 64 - 1) v) 0
not_smaller d k v n p e h = ground arith

apply_property-HasVolume :
    (float : Float) (old : ℕ) (d : DatasetInfo) (k v : Text)
    → 0 < old
    → HasVolume old d
    → shrinks d k v ≡ false
    → HasVolume old (apply_property float d k v)
apply_property-HasVolume float old d k v pos (n, e, le) h = elim (text_dec k (codes "volsize")) [
  | no other ↦ (n, apply_property-other float d k v other ∙ e, le)
  | yes p ↦
      let least = not_smaller d k v n p e h in
      elim (Option-cases (parse_uint (2 ^ 64 - 1) v)) [
        | inl bad ↦ absurd (no_room n old le pos (subst (λ o. n ≤ or_else o 0) bad least))
        | inr (m, good) ↦ (
          m,
          subst (λ j. (apply_property float d j v).volsize ≡ some m) (sym p)
              (apply_property-volsize float d v ∙ ground arith),
          ground (arith, subst (λ o. n ≤ or_else o 0) good least),
        )
      ]
]
  where
    no_room : (n old : ℕ) → old ≤ n → 0 < old → n ≤ 0 → ⊥
    no_room n old a b c = omega arith

set_all-HasVolume :
    (float : Float) (name : Text) (old : ℕ) (props : List (Text × Text)) (d : DatasetInfo)
    → 0 < old
    → HasVolume old d
    → HasVolume old (set_all float name props d).1
set_all-HasVolume float name old [] d pos h = h
set_all-HasVolume float name old ((k, v) ∷ props) d pos h = elim (Bool-cases (shrinks d k v)) [
  | inl e ↦ rw e h
  | inr e ↦ rw e (
      set_all-HasVolume float name old props (apply_property float d k v) pos
        (apply_property-HasVolume float old d k v pos h e))
]

-- Where a stored dataset has a volume size of at least some positive number, it still has one of at
-- least that number after any properties are set, whether or not one of them is refused.
pub set_properties-HasVolume :
    (float : Float) (name : Text) (old : ℕ) (props : List (Text × Text)) (s : State)
    (d : DatasetInfo)
    → 0 < old
    → lookup text_dec name s.datasets ≡ some d
    → HasVolume old d
    → (after : DatasetInfo) × (lookup text_dec name (set_properties float name props s).1.datasets
        ≡ some after)
      × HasVolume old after
unfolding set_properties
set_properties-HasVolume float name old props s d pos e h = (
  (set_all float name props d).1,
  ground (arith, lookup-insert text_dec name name (set_all float name props d).1 s.datasets),
  set_all-HasVolume float name old props d pos h,
)
