-- ===== src/Zfs/Destroyed.antt =====
-- What `destroy_dataset` and `create_snapshot` of fake.rs leave, name by name.
use mandrake.Common.{
  ◌≡◌, ap, ◌∙◌, Bool, false, ◌&&◌, ◌||◌, [], ◌++◌, none, arith, if◌then◌else◌, any, Bool-cases, inl,
  inr, Option-cases, ◌⊎◌,
}
use mandrake.Common.Map.{lookup, remove, lookup-remove}
use mandrake.Common.Text.{Text, codes, same_text, text_dec}
use mandrake.Common.Text.Parts.{starts_with}
use mandrake.Zfs.{State, ok, has_dataset, children_of, snapshots_of}
use mandrake.Zfs.Destroy.{destroy_dataset, remove_all, drop_snapshots, first_with_clones, is_empty}
use mandrake.Zfs.Names.{lookup-remove_all, is_in-keys_of, lookup-drop_snapshots}

-- The dataset itself, or one below it.
abbrev pub within : Text → Text → Bool
within name k = same_text name k || starts_with (name ++ codes "/") k

-- A snapshot of the dataset, or of one of those below it.
abbrev pub snapshot_within : State → Text → Text → Bool
snapshot_within s name k =
    starts_with (name ++ codes "@") k
    || any (λ c. starts_with (c ++ codes "@") k) (children_of s name)

-- The state that a call which goes ahead leaves.
abbrev pub destroyed : Text → State → State
destroyed name s = record s {
  datasets = remove_all (children_of s name) (remove text_dec name s.datasets);
  snapshots = remove_all (snapshots_of s name) (drop_snapshots (children_of s name) s.snapshots);
}

pub destroyed-datasets :
    (name : Text) (s : State) (k : Text)
    → lookup text_dec k (destroyed name s).datasets
      ≡ (if within name k then none else lookup text_dec k s.datasets)
unfolding children_of
destroyed-datasets name s k = ground (
  arith,
  lookup-remove_all k (children_of s name) (remove text_dec name s.datasets),
  lookup-remove text_dec k name s.datasets,
  is_in-keys_of (starts_with (name ++ codes "/")) k s.datasets,
)

pub destroyed-snapshots :
    (name : Text) (s : State) (k : Text)
    → lookup text_dec k (destroyed name s).snapshots
      ≡ (if snapshot_within s name k then none else lookup text_dec k s.snapshots)
unfolding snapshots_of
destroyed-snapshots name s k = ground (
  arith,
  lookup-remove_all k (snapshots_of s name) (drop_snapshots (children_of s name) s.snapshots),
  lookup-drop_snapshots k (children_of s name) s.snapshots,
  is_in-keys_of (starts_with (name ++ codes "@")) k s.snapshots,
)

destroy_dataset-destroyed :
    (name : Text) (recursive : Bool) (s : State)
    → (destroy_dataset name recursive s).0 ≡ ok tt
    → (destroy_dataset name recursive s).1 ≡ destroyed name s
unfolding destroy_dataset
destroy_dataset-destroyed name recursive s h = ground arith

-- A call that is refused changes nothing.
pub destroy_dataset-cases :
    (name : Text) (recursive : Bool) (s : State)
    → ((destroy_dataset name recursive s).1 ≡ s)
      ⊎ ((destroy_dataset name recursive s).1 ≡ destroyed name s)
unfolding destroy_dataset
destroy_dataset-cases name recursive s =
    elim (Option-cases (first_with_clones s (snapshots_of s name))) [
      | inl e ↦
          elim (Bool-cases (
            has_dataset s name
            && (recursive || (is_empty (children_of s name) && is_empty (snapshots_of s name))))) [
              | inl goes ↦ inr (ground arith)
              | inr stops ↦ inl (ground arith)
            ]
      | inr (snap, e) ↦ inl (ground arith)
    ]

destroy_dataset-childless :
    (name : Text) (recursive : Bool) (s : State)
    → (destroy_dataset name recursive s).0 ≡ ok tt
    → recursive ≡ false
    → (children_of s name ≡ []) × (snapshots_of s name ≡ [])
unfolding destroy_dataset
destroy_dataset-childless name recursive s h e = (ground arith, ground arith)

-- After a destroy that went ahead, every dataset that is the named one or below it is gone, and
-- every snapshot with the name of one of these and `@` at its head; all other datasets and snapshots
-- are as before, and without `recursive` there was nothing below and no snapshot.
pub destroy_dataset-exact :
    (name : Text) (recursive : Bool) (s : State)
    → (destroy_dataset name recursive s).0 ≡ ok tt
    → (k : Text)
    → (lookup text_dec k (destroy_dataset name recursive s).1.datasets
        ≡ (if within name k then none else lookup text_dec k s.datasets))
      × (lookup text_dec k (destroy_dataset name recursive s).1.snapshots
          ≡ (if snapshot_within s name k then none else lookup text_dec k s.snapshots))
      × (recursive ≡ false → (children_of s name ≡ []) × (snapshots_of s name ≡ []))
destroy_dataset-exact name recursive s h k =
    let e = destroy_dataset-destroyed name recursive s h in
    (
      ap (λ t. lookup text_dec k t.datasets) e ∙ destroyed-datasets name s k,
      ap (λ t. lookup text_dec k t.snapshots) e ∙ destroyed-snapshots name s k,
      destroy_dataset-childless name recursive s h,
    )
