-- ===== src/Zones/Attributes.antt =====
-- What an update of fake.rs makes of the attributes of a zone.
use mandrake.Common.{◌≡◌, refl, not, ◌||◌, List, [], ◌∷◌, none, some, if◌then◌else◌, arith, keep}
use mandrake.Common.Map.{lookup, insert, contains, lookup-insert, KeysDistinct, lookup-keep}
use mandrake.Common.Text.{Text, text_dec}
use mandrake.Zones.{ZoneConfig, ZoneSpec, is_managed_attr, insert_all, apply_spec}

-- Inserting the entries of a map puts its values before the old ones.
lookup-insert_all :
    (k : Text) (more m : List (Text × Text))
    → KeysDistinct text_dec more
    → lookup text_dec k (insert_all more m)
      ≡ (elim (lookup text_dec k more) [ none ↦ lookup text_dec k m | some v ↦ some v ])
lookup-insert_all k [] m d = refl
lookup-insert_all k ((j, v) ∷ more) m d =
    ground
      (arith, lookup-insert_all k more (insert text_dec j v m) d.1, lookup-insert text_dec k j v m)

-- After an update an attribute has the value that the update gives it; one that it does not give is
-- gone if it is a managed one, and is as it was if not, where neither map has a key twice.
pub apply_spec-attrs :
    (spec : ZoneSpec) (config : ZoneConfig) (k : Text)
    → KeysDistinct text_dec spec.attrs
    → KeysDistinct text_dec config.attrs
    → lookup text_dec k (apply_spec spec config).attrs ≡ (elim (lookup text_dec k spec.attrs) [
      | some v ↦ some v
      | none ↦ if is_managed_attr k then none else lookup text_dec k config.attrs
    ])
unfolding apply_spec
apply_spec-attrs spec config k d e = ground (
  arith,
  lookup-insert_all k spec.attrs
      (keep (λ x. not (is_managed_attr x.0) || contains text_dec x.0 spec.attrs) config.attrs) d,
  lookup-keep text_dec (λ x. not (is_managed_attr x.0) || contains text_dec x.0 spec.attrs) k
      config.attrs e,
)
