-- ===== src/Zfs/Destroy.antt =====
-- `destroy_dataset` of fake.rs.
use mandrake.Common.{
  Bool, true, false, not, ◌&&◌, List, [], ◌∷◌, ◌++◌, Option, none, some, if◌then◌else◌, keep,
  is_some_and,
}
use mandrake.Common.Map.{lookup, remove}
use mandrake.Common.Text.{Text, codes, text_dec}
use mandrake.Common.Text.Parts.{starts_with, join}
use mandrake.Zfs.{
  SnapshotInfo, State, Outcome, ok, Answer, tool_error, cannot_open, has_dataset, children_of,
  snapshots_of,
}

abbrev pub remove_all : {V : Type 0} → List Text → List (Text × V) → List (Text × V)
remove_all [] m = m
remove_all (k ∷ ks) m = remove_all ks (remove text_dec k m)

-- No snapshot of any of these datasets.
abbrev pub drop_snapshots : List Text → List (Text × SnapshotInfo) → List (Text × SnapshotInfo)
drop_snapshots [] m = m
drop_snapshots (c ∷ cs) m = drop_snapshots cs (keep (λ e. not (starts_with (c ++ codes "@") e.0)) m)

abbrev pub has_clones : State → Text → Bool
has_clones s snap =
    is_some_and (lookup text_dec snap s.snapshots)
      (λ sn. elim sn.clones [ [] ↦ false | _ ∷ _ ↦ true ])

abbrev pub first_with_clones : State → List Text → Option Text
first_with_clones s [] = none
first_with_clones s (snap ∷ snaps) =
    if has_clones s snap then some snap else first_with_clones s snaps

abbrev pub is_empty {ℓ} : {A : Type ℓ} → List A → Bool
is_empty [] = true
is_empty (x ∷ xs) = false

abbrev cannot_destroy : Text → Text → Outcome (Unit {0})
cannot_destroy name why = tool_error (codes "cannot destroy '" ++ name ++ codes "': " ++ why)

abbrev pub dependent : Text → Outcome (Unit {0})
dependent snap = cannot_destroy snap (codes "snapshot has dependent clones")

unfoldable pub destroy_dataset : Text → Bool → State → Answer
destroy_dataset name recursive s =
    if not (has_dataset s name)
    then (cannot_open name, s)
    else if not recursive && not (is_empty (children_of s name))
    then (
      cannot_destroy name (
          codes "filesystem has children\nuse '-r' to destroy the following datasets:\n"
          ++ join (codes "\n") (children_of s name)),
      s,
    )
    else if not recursive && not (is_empty (snapshots_of s name))
    then (cannot_destroy name (codes "filesystem has snapshots"), s)
    else elim (first_with_clones s (snapshots_of s name)) [
      | some snap ↦ (dependent snap, s)
      | none ↦ (
        ok tt,
        record s {
          datasets = remove_all (children_of s name) (remove text_dec name s.datasets);
          snapshots =
              remove_all (snapshots_of s name) (drop_snapshots (children_of s name) s.snapshots);
        },
      )
    ]
