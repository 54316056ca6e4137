-- ===== src/Zfs/Datasets.antt =====
-- The calls of fake.rs on datasets.
use mandrake.Common.{
  ℕ, ◌^◌, ◌-◌, Bool, not, ◌&&◌, ◌||◌, List, [], ◌∷◌, ◌++◌, Option, none, some, if◌then◌else◌, ltb,
  or_else, is_some_and,
}
use mandrake.Common.Float.{Float}
use mandrake.Common.Map.{lookup, contains, insert}
use mandrake.Common.Text.{Text, codes, same_text, text_dec}
use mandrake.Common.Text.Parts.{rsplit_once, split}
use mandrake.Common.Text.Decimal.{parse_uint}
use mandrake.Core.Time.{Timestamp}
use mandrake.Zfs.{
  filesystem, volume, DatasetInfo, SnapshotInfo, DatasetSpec, State, Outcome, ok, Answer,
  tool_error, cannot_open, id_property, has_dataset, dataset,
}
use mandrake.Zfs.Size.{size}

-- A number of bytes, plain or with a unit.
abbrev pub bytes : Float → Text → Option ℕ
bytes float v = elim (parse_uint (2 ^ 64 - 1) v) [ none ↦ size float v | some n ↦ some n ]

abbrev pub unless_none {ℓ} : {A : Type ℓ} → Text → Option A → Option A
unless_none value a = if same_text value (codes "none") then none else a

unfoldable pub apply_property : Float → DatasetInfo → Text → Text → DatasetInfo
apply_property float d key value =
    if same_text key (codes "compression")
    then record d { compression = some value }
    else if same_text key (codes "quota")
    then record d { quota = unless_none value (bytes float value) }
    else if same_text key (codes "reservation") || same_text key (codes "refreservation")
    then record d { reservation = unless_none value (bytes float value) }
    else if same_text key (codes "mountpoint")
    then record d { mountpoint = unless_none value (some value) }
    else if same_text key (codes "atime")
    then record d { atime = some (same_text value (codes "on")) }
    else if same_text key (codes "recordsize")
    then record d { recordsize = bytes float value }
    else if same_text key (codes "volblocksize")
    then record d { volblocksize = bytes float value }
    else if same_text key (codes "volsize")
    then record d { volsize = bytes float value }
    else if same_text key id_property
    then record d { mandrake_id = some value }
    else d

abbrev pub apply_properties : Float → List (Text × Text) → DatasetInfo → DatasetInfo
apply_properties float [] d = d
apply_properties float ((k, v) ∷ props) d =
    apply_properties float props (apply_property float d k v)

abbrev pub join_path : Text → Text → Text
join_path [] part = part
join_path (c ∷ path) part = (c ∷ path) ++ codes "/" ++ part

-- Every missing dataset on the way to the parent.
abbrev pub make_parents :
    Timestamp → Text → List Text → List (Text × DatasetInfo) → List (Text × DatasetInfo)
make_parents now path [] datasets = datasets
make_parents now path (part ∷ parts) datasets =
    let here = join_path path part in
    make_parents now here parts (
      if contains text_dec here datasets
      then datasets
      else insert text_dec here (dataset now here filesystem) datasets)

abbrev pub sized : DatasetSpec → DatasetInfo → DatasetInfo
sized spec d = elim spec.kind [
  | filesystem ↦ d
  | volume ↦
      let n = if spec.sparse then 0 else or_else spec.volsize 0 in
      record d { volsize = spec.volsize; referenced = n; used = n }
]

abbrev pub new_dataset : Float → Timestamp → DatasetSpec → DatasetInfo
new_dataset float now spec =
    apply_properties float spec.properties (sized spec (dataset now spec.name spec.kind))

abbrev cannot_create : Text → Text → Outcome (Unit {0})
cannot_create name why = tool_error (codes "cannot create '" ++ name ++ codes "': " ++ why)

unfoldable pub create_dataset : Float → Timestamp → DatasetSpec → State → Answer
create_dataset float now spec s =
    if has_dataset s spec.name
    then (cannot_create spec.name (codes "dataset already exists"), s)
    else elim (rsplit_once b'/' spec.name) [
      | none ↦ (cannot_create spec.name (codes "missing dataset name"), s)
      | some (parent, _) ↦
          if not (has_dataset s parent) && not spec.create_parents
          then (cannot_create spec.name (codes "parent does not exist"), s)
          else (
            ok tt,
            record s {
              datasets = insert text_dec spec.name (new_dataset float now spec) (
                  if has_dataset s parent
                  then s.datasets
                  else make_parents now [] (split b'/' parent) s.datasets);
            },
          )
    ]

-- A volume does not shrink; what is no plain number counts as 0.
abbrev pub shrinks : DatasetInfo → Text → Text → Bool
shrinks d k v =
    same_text k (codes "volsize")
    && is_some_and d.volsize (ltb (or_else (parse_uint (2 ^ 64 - 1) v) 0))

abbrev cannot_shrink : Text → Outcome (Unit {0})
cannot_shrink name = tool_error (
    codes "cannot set property for '"
    ++ name
    ++ codes "': 'volsize' must be a multiple of volume block size and cannot shrink")

-- The properties before one that is refused stay set.
abbrev pub set_all :
    Float → Text → List (Text × Text) → DatasetInfo → Outcome (Unit {0}) × DatasetInfo
set_all float name [] d = (ok tt, d)
set_all float name ((k, v) ∷ props) d =
    let rest = set_all float name props (apply_property float d k v) in
    if shrinks d k v then (cannot_shrink name, d) else rest

abbrev pub mark : List (Text × Text) → SnapshotInfo → SnapshotInfo
mark [] snap = snap
mark ((k, v) ∷ props) snap =
    mark props (if same_text k id_property then record snap { mandrake_id = some v } else snap)

unfoldable pub set_properties : Float → Text → List (Text × Text) → State → Answer
set_properties float name props s = elim (lookup text_dec name s.datasets) [
  | some d ↦
      let (answer, after) = set_all float name props d in
      (answer, record s { datasets = insert text_dec name after s.datasets })
  | none ↦ elim (lookup text_dec name s.snapshots) [
    | some snap ↦
        (ok tt, record s { snapshots = insert text_dec name (mark props snap) s.snapshots })
    | none ↦ (cannot_open name, s)
  ]
]
