-- ===== src/Zfs/Reached.antt =====
-- What holds of every state that calls of the driver of fake.rs reach.
use mandrake.Common.{
  ◌≡◌, refl, sym, Bool, true, List, [], ◌∷◌, ◌++◌, some, arith, keep, inl, inr, Option-cases, find?,
  subst,
}
use mandrake.Common.Float.{Float}
use mandrake.Common.Text.{Text, codes, text_dec}
use mandrake.Common.Text.Parts.{starts_with, split_once}
use mandrake.Core.Time.{Timestamp}
use mandrake.Zfs.{State, keys_of, has_dataset, children_of}
use mandrake.Zfs.Snapshots.{create_snapshot, targets_of, destroy_snapshot_recursive, same_short}
use mandrake.Zfs.Calls.{
  Call, creates_pool, destroys_pool, scrubs, creates, sets, destroys, snapshots, drops, drops_below,
  rolls_back, clones, perform, perform_all,
}
use mandrake.Zfs.Names.{is_in, is_in-keys_of, lookup-remove_all}
use mandrake.Zfs.Snapshotted.{
  taken_by, taken_by-full_name, lookup-insert_snapshots, snapshotted, create_snapshot-cases,
}
use mandrake.Zfs.Owned.{
  Owned, Grown-Owned, create_dataset-Owned, set_properties-Owned, scrub-Owned,
  destroy_snapshot-Owned, rollback-Owned, clone_snapshot-Owned,
}
use mandrake.Zfs.Orphans.{create_pool-Owned, destroy_dataset-Owned, destroy_pool-Owned}

destroy_snapshot_recursive-Owned :
    (name : Text) (s : State) → Owned s → Owned (destroy_snapshot_recursive name s).1
unfolding destroy_snapshot_recursive
destroy_snapshot_recursive-Owned name s h = elim (Option-cases (split_once b'@' name)) [
  | inl e ↦
      Grown-Owned s (destroy_snapshot_recursive name s).1 (λ d g. ground arith)
        (λ k g. ground arith) h
  | inr ((dataset, short), e) ↦
      Grown-Owned s (destroy_snapshot_recursive name s).1 (λ d g. ground arith)
        (λ k g. ground (
          arith,
          lookup-remove_all k (keep (same_short dataset short) (keys_of s.snapshots)) s.snapshots,
        ))
        h
]

find?-is_in :
    (p : Text → Bool) (ts : List Text) (t : Text) → find? p ts ≡ some t → is_in t ts ≡ true
find?-is_in p [] t h = cc
find?-is_in p (u ∷ ts) t h = elim (text_dec u t) [
  | yes e ↦ ground arith
  | no n ↦ ground (arith, find?-is_in p ts t, n)
]

is_in-children_of :
    (s : State) (dataset t : Text) → is_in t (children_of s dataset) ≡ true → has_dataset s t ≡ true
unfolding children_of
is_in-children_of s dataset t h =
    ground (arith, is_in-keys_of (starts_with (dataset ++ codes "/")) t s.datasets)

-- A target is a dataset that exists.
is_in-targets_of :
    (s : State) (dataset t : Text) (recursive : Bool)
    → has_dataset s dataset ≡ true
    → is_in t (targets_of s dataset recursive) ≡ true
    → has_dataset s t ≡ true
is_in-targets_of s dataset t recursive h e = elim (text_dec dataset t) [
  | yes p ↦ subst (λ d. has_dataset s d ≡ true) p h
  | no n ↦ ground (arith, is_in-children_of s dataset t)
]

starts_with-prefix : (p x : Text) → starts_with p (p ++ x) ≡ true
starts_with-prefix [] x = refl
starts_with-prefix (c ∷ p) x = ground (arith, starts_with-prefix p x)

snapshotted-Owned :
    (now : Timestamp) (dataset name : Text) (recursive : Bool) (s : State)
    → has_dataset s dataset ≡ true
    → Owned s
    → Owned (snapshotted now dataset name recursive s)
snapshotted-Owned now dataset name recursive s there h k e =
    let ts = targets_of s dataset recursive in
    elim (Option-cases (taken_by name k ts)) [
      | inl free ↦ h k (ground (arith, lookup-insert_snapshots s now name k ts s.snapshots))
      | inr (t, taken) ↦ (
        t,
        is_in-targets_of s dataset t recursive there (find?-is_in _ ts t taken),
        subst (λ j. starts_with (t ++ codes "@") j ≡ true) (taken_by-full_name name k ts t taken)
            (starts_with-prefix (t ++ codes "@") name),
      )
    ]

create_snapshot-Owned :
    (now : Timestamp) (dataset name : Text) (recursive : Bool) (s : State)
    → Owned s
    → Owned (create_snapshot now dataset name recursive s).1
create_snapshot-Owned now dataset name recursive s h =
    elim (create_snapshot-cases now dataset name recursive s) [
      | inl e ↦ subst Owned (sym e) h
      | inr (there, e) ↦
          subst Owned (sym e) (snapshotted-Owned now dataset name recursive s there h)
    ]

perform-Owned :
    (float : Float) (call : Timestamp × Call) (s : State) → Owned s → Owned (perform float call s).1
perform-Owned float (now, creates_pool spec) s h = create_pool-Owned now spec s h
perform-Owned float (now, destroys_pool name) s h = destroy_pool-Owned name s h
perform-Owned float (now, scrubs name stop) s h = scrub-Owned now name stop s h
perform-Owned float (now, creates spec) s h = create_dataset-Owned float now spec s h
perform-Owned float (now, sets name props) s h = set_properties-Owned float name props s h
perform-Owned float (now, destroys name recursive) s h = destroy_dataset-Owned name recursive s h
perform-Owned float (now, snapshots dataset name recursive) s h =
    create_snapshot-Owned now dataset name recursive s h
perform-Owned float (now, drops name) s h = destroy_snapshot-Owned name s h
perform-Owned float (now, drops_below name) s h = destroy_snapshot_recursive-Owned name s h
perform-Owned float (now, rolls_back name discard_newer) s h = rollback-Owned name discard_newer s h
perform-Owned float (now, clones snapshot target) s h = clone_snapshot-Owned now snapshot target s h

-- Where every snapshot has a dataset whose name and `@` are at the head of its name, this still
-- holds after any calls of the driver, refused ones included.
pub perform_all-Owned :
    (float : Float) (calls : List (Timestamp × Call)) (s : State)
    → Owned s
    → Owned (perform_all float calls s)
unfolding perform_all
perform_all-Owned float [] s h = h
perform_all-Owned float (c ∷ calls) s h =
    perform_all-Owned float calls (perform float c s).1 (perform-Owned float c s h)
