-- ===== src/Zfs/Owned.antt =====
-- Every snapshot belongs to a dataset that exists: calls that only add datasets or remove snapshots.
use mandrake.Common.{
  ◌≡◌, Bool, true, List, [], ◌∷◌, ◌++◌, arith, Bool-cases, inl, inr, Option-cases,
}
use mandrake.Common.Float.{Float}
use mandrake.Common.Map.{lookup, contains, insert, lookup-insert, lookup-remove}
use mandrake.Common.Text.{Text, codes, text_dec}
use mandrake.Common.Text.Parts.{starts_with, rsplit_once, split}
use mandrake.Core.Time.{Timestamp}
use mandrake.Zfs.{State, filesystem, DatasetSpec, DatasetInfo, dataset}
use mandrake.Zfs.Datasets.{
  create_dataset, set_properties, make_parents, join_path, set_all, mark, new_dataset,
}
use mandrake.Zfs.Snapshots.{destroy_snapshot, rollback, clone_snapshot, newer, cloned}
use mandrake.Zfs.Scrubs.{scrub}
use mandrake.Zfs.Names.{lookup-remove_all}

-- The owner is a dataset `d` with `d@` at the head of the snapshot's name.
abbrev pub Owner : State → Text → Type 0
Owner s k =
    (d : Text) × (contains text_dec d s.datasets ≡ true) × (starts_with (d ++ codes "@") k ≡ true)

abbrev pub Owned : State → Type 0
Owned s = (k : Text) → contains text_dec k s.snapshots ≡ true → Owner s k

-- Nothing but datasets came, and no snapshots.
pub Grown-Owned :
    (s t : State)
    → ((d : Text) → contains text_dec d s.datasets ≡ true → contains text_dec d t.datasets ≡ true)
    → ((k : Text) → contains text_dec k t.snapshots ≡ true → contains text_dec k s.snapshots ≡ true)
    → Owned s
    → Owned t
Grown-Owned s t more fewer h k e = let (d, in_s, at) = h k (fewer k e) in (d, more d in_s, at)

contains-insert :
    {V : Type 0} (d k : Text) (v : V) (m : List (Text × V))
    → contains text_dec d m ≡ true
    → contains text_dec d (insert text_dec k v m) ≡ true
contains-insert d k v m h = ground (arith, lookup-insert text_dec d k v m)

contains-make_parents :
    (now : Timestamp) (path : Text) (parts : List Text) (m : List (Text × DatasetInfo)) (d : Text)
    → contains text_dec d m ≡ true
    → contains text_dec d (make_parents now path parts m) ≡ true
contains-make_parents now path [] m d h = h
contains-make_parents now path (part ∷ parts) m d h =
    let here = join_path path part in
    elim (Bool-cases (contains text_dec here m)) [
      | inl e ↦ rw e (contains-make_parents now here parts m d h)
      | inr e ↦ rw e (
          contains-make_parents now here parts
            (insert text_dec here (dataset now here filesystem) m) d
            (contains-insert d here (dataset now here filesystem) m h))
    ]

pub create_dataset-Owned :
    (float : Float) (now : Timestamp) (spec : DatasetSpec) (s : State)
    → Owned s
    → Owned (create_dataset float now spec s).1
unfolding create_dataset
create_dataset-Owned float now spec s h = elim (Option-cases (rsplit_once b'/' spec.name)) [
  | inl e ↦
      Grown-Owned s (create_dataset float now spec s).1 (λ d g. ground arith) (λ k g. ground arith)
        h
  | inr ((parent, _), e) ↦
      let made = make_parents now [] (split b'/' parent) s.datasets in
      Grown-Owned s (create_dataset float now spec s).1
        (λ d g. ground (
          arith,
          lookup-insert text_dec d spec.name (new_dataset float now spec) s.datasets,
          lookup-insert text_dec d spec.name (new_dataset float now spec) made,
          contains-make_parents now [] (split b'/' parent) s.datasets d,
        ))
        (λ k g. ground arith) h
]

pub set_properties-Owned :
    (float : Float) (name : Text) (props : List (Text × Text)) (s : State)
    → Owned s
    → Owned (set_properties float name props s).1
unfolding set_properties
set_properties-Owned float name props s h =
    Grown-Owned s (set_properties float name props s).1
      (λ d g. elim (Option-cases (lookup text_dec name s.datasets)) [
        | inl e ↦ ground arith
        | inr (x, e) ↦
            ground (arith, lookup-insert text_dec d name (set_all float name props x).1 s.datasets)
      ])
      (λ k g. elim (Option-cases (lookup text_dec name s.snapshots)) [
        | inl e ↦ ground arith
        | inr (x, e) ↦ ground (arith, lookup-insert text_dec k name (mark props x) s.snapshots)
      ])
      h

pub scrub-Owned :
    (now : Timestamp) (name : Text) (stop : Bool) (s : State)
    → Owned s
    → Owned (scrub now name stop s).1
unfolding scrub
scrub-Owned now name stop s h =
    Grown-Owned s (scrub now name stop s).1 (λ d g. ground arith) (λ k g. ground arith) h

pub destroy_snapshot-Owned : (name : Text) (s : State) → Owned s → Owned (destroy_snapshot name s).1
unfolding destroy_snapshot
destroy_snapshot-Owned name s h =
    Grown-Owned s (destroy_snapshot name s).1 (λ d g. ground arith)
      (λ k g. ground (arith, lookup-remove text_dec k name s.snapshots)) h

pub rollback-Owned :
    (name : Text) (discard_newer : Bool) (s : State)
    → Owned s
    → Owned (rollback name discard_newer s).1
unfolding rollback
rollback-Owned name discard_newer s h = elim (Option-cases (lookup text_dec name s.snapshots)) [
  | inl e ↦
      Grown-Owned s (rollback name discard_newer s).1 (λ d g. ground arith) (λ k g. ground arith) h
  | inr (target, e) ↦
      Grown-Owned s (rollback name discard_newer s).1 (λ d g. ground arith)
        (λ k g. ground (arith, lookup-remove_all k (newer s target) s.snapshots)) h
]

pub clone_snapshot-Owned :
    (now : Timestamp) (snapshot target : Text) (s : State)
    → Owned s
    → Owned (clone_snapshot now snapshot target s).1
unfolding clone_snapshot
clone_snapshot-Owned now snapshot target s h =
    elim (Option-cases (lookup text_dec snapshot s.snapshots)) [
      | inl e ↦
          Grown-Owned s (clone_snapshot now snapshot target s).1 (λ d g. ground arith)
            (λ k g. ground arith) h
      | inr (src, e) ↦
          Grown-Owned s (clone_snapshot now snapshot target s).1
            (λ d g. ground (
              arith,
              lookup-insert text_dec d target (cloned s now src snapshot target) s.datasets,
            ))
            (λ k g. ground (
              arith,
              lookup-insert text_dec k snapshot (record src { clones = src.clones ++ target ∷ [] })
                  s.snapshots,
            ))
            h
    ]
