-- ===== src/Zfs/Snapshots.antt =====
-- The calls of fake.rs on snapshots.
use mandrake.Common.{
  Bool, true, false, not, ◌&&◌, ◌||◌, List, [], ◌∷◌, ◌++◌, none, some, if◌then◌else◌, ltb, keep,
  find?, is_some_and,
}
use mandrake.Common.Map.{lookup, contains, insert, remove}
use mandrake.Common.Text.{Text, codes, same_text, text_dec}
use mandrake.Common.Text.Parts.{starts_with, split_head, split_once, join}
use mandrake.Core.Time.{Timestamp}
use mandrake.Zfs.{
  filesystem, DatasetInfo, SnapshotInfo, State, Outcome, ok, Answer, tool_error, cannot_open,
  has_dataset, dataset, keys_of, children_of, snapshots_of,
}
use mandrake.Zfs.Destroy.{remove_all, has_clones, dependent}

abbrev pub full_name : Text → Text → Text
full_name dataset name = dataset ++ codes "@" ++ name

abbrev pub new_snapshot : State → Timestamp → Text → Text → SnapshotInfo
new_snapshot s now target name = record {
  name = full_name target name;
  used = 0;
  referenced = elim (lookup text_dec target s.datasets) [ none ↦ 0 | some d ↦ d.referenced ];
  created_at = now;
  clones = [];
  mandrake_id = none;
}

abbrev pub insert_snapshots :
    State → Timestamp → Text → List Text → List (Text × SnapshotInfo) → List (Text × SnapshotInfo)
insert_snapshots s now name [] m = m
insert_snapshots s now name (t ∷ ts) m =
    insert_snapshots s now name ts
      (insert text_dec (full_name t name) (new_snapshot s now t name) m)

abbrev pub has_snapshot : State → Text → Bool
has_snapshot s name = contains text_dec name s.snapshots

abbrev pub targets_of : State → Text → Bool → List Text
targets_of s dataset recursive = if recursive then dataset ∷ children_of s dataset else dataset ∷ []

unfoldable pub create_snapshot : Timestamp → Text → Text → Bool → State → Answer
create_snapshot now dataset name recursive s =
    if not (has_dataset s dataset)
    then (cannot_open dataset, s)
    else elim (find? (λ t. has_snapshot s (full_name t name)) (targets_of s dataset recursive)) [
      | some t ↦ (
        tool_error (
            codes "cannot create snapshot '"
            ++ full_name t name
            ++ codes "': dataset already exists"),
        s,
      )
      | none ↦ (
        ok tt,
        record s {
          snapshots = insert_snapshots s now name (targets_of s dataset recursive) s.snapshots;
        },
      )
    ]

unfoldable pub destroy_snapshot : Text → State → Answer
destroy_snapshot name s =
    if not (has_snapshot s name)
    then (tool_error (codes "could not find any snapshots to destroy; check snapshot names."), s)
    else if has_clones s name
    then (dependent name, s)
    else (ok tt, record s { snapshots = remove text_dec name s.snapshots })

-- The snapshot of that short name, of the dataset or of one below it.
abbrev pub is_doomed : Text → Text → Text → Text → Bool
is_doomed dataset short d sn =
    same_text sn short && (same_text d dataset || starts_with (dataset ++ codes "/") d)

abbrev pub same_short : Text → Text → Text → Bool
same_short dataset short key = elim (split_once b'@' key) [
  | none ↦ is_doomed dataset short key []
  | some (d, sn) ↦ is_doomed dataset short d sn
]

unfoldable pub destroy_snapshot_recursive : Text → State → Answer
destroy_snapshot_recursive name s = elim (split_once b'@' name) [
  | none ↦ (tool_error (codes "invalid snapshot name: " ++ name), s)
  | some (dataset, short) ↦ if not (has_snapshot s name) then (cannot_open name, s) else (
    ok tt,
    record s {
      snapshots = remove_all (keep (same_short dataset short) (keys_of s.snapshots)) s.snapshots;
    },
  )
]

-- `SnapshotInfo::dataset`: what stands before the first `@`.
abbrev pub dataset_part : Text → Text
dataset_part name = split_head b'@' name

abbrev pub is_newer : State → Timestamp → Text → Bool
is_newer s time name = is_some_and (lookup text_dec name s.snapshots) (λ sn. ltb time sn.created_at)

-- The snapshots of the target's dataset that were made after it.
abbrev pub newer : State → SnapshotInfo → List Text
newer s target = keep (is_newer s target.created_at) (snapshots_of s (dataset_part target.name))

abbrev none_of {ℓ} : {A : Type ℓ} → List A → Bool
none_of [] = true
none_of (x ∷ xs) = false

abbrev newer_exist : Text → List Text → Outcome (Unit {0})
newer_exist name names = tool_error (
    codes "cannot rollback to '"
    ++ name
    ++ codes
        "': more recent snapshots exist\nuse '-r' to force deletion of the following snapshots:\n"
    ++ join (codes "\n") names)

unfoldable pub rollback : Text → Bool → State → Answer
rollback name discard_newer s = elim (lookup text_dec name s.snapshots) [
  | none ↦ (cannot_open name, s)
  | some target ↦
      if not (none_of (newer s target)) && not discard_newer
      then (newer_exist name (newer s target), s)
      else (ok tt, record s { snapshots = remove_all (newer s target) s.snapshots })
]

abbrev pub cloned : State → Timestamp → SnapshotInfo → Text → Text → DatasetInfo
cloned s now src snapshot target =
    let of_source = lookup text_dec (dataset_part src.name) s.datasets in
    record (dataset now target (elim of_source [ none ↦ filesystem | some d ↦ d.kind ])) {
      origin = some snapshot;
      referenced = src.referenced;
      volsize = elim of_source [ none ↦ none | some d ↦ d.volsize ];
    }

unfoldable pub clone_snapshot : Timestamp → Text → Text → State → Answer
clone_snapshot now snapshot target s = elim (lookup text_dec snapshot s.snapshots) [
  | none ↦ (cannot_open snapshot, s)
  | some src ↦
      if has_dataset s target
      then (tool_error (codes "cannot create '" ++ target ++ codes "': dataset already exists"), s)
      else (
        ok tt,
        record s {
          datasets = insert text_dec target (cloned s now src snapshot target) s.datasets;
          snapshots =
              insert text_dec snapshot (record src { clones = src.clones ++ target ∷ [] })
                s.snapshots;
        },
      )
]
