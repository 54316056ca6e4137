-- ===== src/Zfs/RolledBack.antt =====
-- What `rollback` of fake.rs removes.
use mandrake.Common.{◌≡◌, ap, ◌∙◌, Bool, false, ◌&&◌, [], ◌++◌, none, some, arith, if◌then◌else◌}
use mandrake.Common.Map.{lookup}
use mandrake.Common.Text.{Text, codes, text_dec}
use mandrake.Common.Text.Parts.{starts_with}
use mandrake.Zfs.{State, ok, SnapshotInfo, snapshots_of}
use mandrake.Zfs.Destroy.{remove_all}
use mandrake.Zfs.Snapshots.{rollback, newer, is_newer, dataset_part}
use mandrake.Zfs.Names.{is_in-keep, is_in-keys_of, lookup-remove_all}

-- A snapshot of the target's dataset that was made after the target.
abbrev pub discarded : State → SnapshotInfo → Text → Bool
discarded s target k =
    starts_with (dataset_part target.name ++ codes "@") k && is_newer s target.created_at k

lookup-newer :
    (s : State) (target : SnapshotInfo) (k : Text)
    → lookup text_dec k (remove_all (newer s target) s.snapshots)
      ≡ (if discarded s target k then none else lookup text_dec k s.snapshots)
unfolding snapshots_of
lookup-newer s target k = ground (
  arith,
  lookup-remove_all k (newer s target) s.snapshots,
  is_in-keep (is_newer s target.created_at) k (snapshots_of s (dataset_part target.name)),
  is_in-keys_of (starts_with (dataset_part target.name ++ codes "@")) k s.snapshots,
)

rollback-kept :
    (name : Text) (discard_newer : Bool) (s : State) (target : SnapshotInfo)
    → lookup text_dec name s.snapshots ≡ some target
    → (rollback name discard_newer s).0 ≡ ok tt
    → (rollback name discard_newer s).1.snapshots ≡ remove_all (newer s target) s.snapshots
unfolding rollback
rollback-kept name discard_newer s target e h = ground arith

rollback-nothing_newer :
    (name : Text) (discard_newer : Bool) (s : State) (target : SnapshotInfo)
    → lookup text_dec name s.snapshots ≡ some target
    → (rollback name discard_newer s).0 ≡ ok tt
    → discard_newer ≡ false
    → newer s target ≡ []
unfolding rollback
rollback-nothing_newer name discard_newer s target e h f = ground arith

not-discarded :
    (s : State) (target : SnapshotInfo) (name : Text)
    → lookup text_dec name s.snapshots ≡ some target
    → discarded s target name ≡ false
not-discarded s target name e = ground arith

-- After a rollback to a stored snapshot that went ahead, exactly the snapshots of its dataset that
-- were made after it are gone, the snapshot itself is still there, and unless newer ones may be
-- discarded all snapshots are as before.
pub rollback-exact :
    (name : Text) (discard_newer : Bool) (s : State) (target : SnapshotInfo)
    → lookup text_dec name s.snapshots ≡ some target
    → (rollback name discard_newer s).0 ≡ ok tt
    → ((k : Text)
        → lookup text_dec k (rollback name discard_newer s).1.snapshots
          ≡ (if discarded s target k then none else lookup text_dec k s.snapshots))
      × (lookup text_dec name (rollback name discard_newer s).1.snapshots ≡ some target)
      × (discard_newer ≡ false → (rollback name discard_newer s).1.snapshots ≡ s.snapshots)
rollback-exact name discard_newer s target e h =
    let kept = rollback-kept name discard_newer s target e h in
    let found : (k : Text)
        → lookup text_dec k (rollback name discard_newer s).1.snapshots
          ≡ (if discarded s target k then none else lookup text_dec k s.snapshots) =
      λ k. ap (lookup text_dec k) kept ∙ lookup-newer s target k in
    (
      found,
      found name ∙ ground (arith, not-discarded s target name e),
      λ f.
          kept
          ∙ ap (λ ks. remove_all ks s.snapshots)
              (rollback-nothing_newer name discard_newer s target e h f),
    )
