-- ===== src/Zfs/Snapshotted.antt =====
-- What `create_snapshot` of fake.rs adds, name by name.
use mathlib.Core.List.{append_cancel_right}
use mandrake.Common.{
  ℕ, ◌≢◌, ◌&&◌, ◌||◌, ◌≡◌, refl, sym, ap, ◌∙◌, Bool, true, List, [], ◌∷◌, ◌++◌, Option, none, some,
  arith, Bool-cases, inl, inr, Option-cases, ◌⊎◌, find?,
}
use mandrake.Common.Map.{lookup, contains, insert, lookup-insert}
use mandrake.Common.Text.{Text, codes, same_text, text_dec}
use mandrake.Core.Time.{Timestamp}
use mandrake.Common.Text.Parts.{starts_with}
use mandrake.Zfs.{State, ok, SnapshotInfo, DatasetInfo, has_dataset, children_of}
use mandrake.Zfs.Names.{is_in, is_in-keys_of}
use mandrake.Zfs.Snapshots.{create_snapshot, insert_snapshots, new_snapshot, full_name, targets_of}

-- The first of these datasets whose snapshot has that name.
abbrev pub taken_by : Text → Text → List Text → Option Text
taken_by name k ts = find? (λ t. same_text (full_name t name) k) ts

pub taken_by-full_name :
    (name k : Text) (ts : List Text) (t : Text) → taken_by name k ts ≡ some t → full_name t name ≡ k
taken_by-full_name name k [] t h = cc
taken_by-full_name name k (u ∷ ts) t h = elim (text_dec (full_name u name) k) [
  | yes e ↦ ground (arith, taken_by-full_name name k ts t)
  | no n ↦ ground (arith, taken_by-full_name name k ts t)
]

full_name_injective : (t u name : Text) → full_name t name ≡ full_name u name → t ≡ u
full_name_injective t u name e =
    append_cancel_right t u (codes "@")
      (append_cancel_right (t ++ codes "@") (u ++ codes "@") name e)

-- What is looked up once the snapshots are in.
abbrev pub after_insert :
    State → Timestamp → Text → Text → Option Text → Option SnapshotInfo → Option SnapshotInfo
after_insert s now name k none before = before
after_insert s now name k (some t) before = some (new_snapshot s now t name)

pub lookup-insert_snapshots :
    (s : State) (now : Timestamp) (name k : Text) (ts : List Text) (m : List (Text × SnapshotInfo))
    → lookup text_dec k (insert_snapshots s now name ts m)
      ≡ after_insert s now name k (taken_by name k ts) (lookup text_dec k m)
lookup-insert_snapshots s now name k [] m = refl
lookup-insert_snapshots s now name k (t ∷ ts) m =
    lookup-insert_snapshots s now name k ts
      (insert text_dec (full_name t name) (new_snapshot s now t name) m)
    ∙ elim (Option-cases (taken_by name k ts)) [
      | inl e ↦
          ground (arith, lookup-insert text_dec k (full_name t name) (new_snapshot s now t name) m)
      | inr (u, e) ↦ elim (text_dec (full_name t name) k) [
        | yes p ↦
            let same = full_name_injective t u name (p ∙ sym (taken_by-full_name name k ts u e)) in
            ground arith
        | no n ↦ ground arith
      ]
    ]

-- The state that a call which goes ahead leaves.
abbrev pub snapshotted : Timestamp → Text → Text → Bool → State → State
snapshotted now dataset name recursive s = record s {
  snapshots = insert_snapshots s now name (targets_of s dataset recursive) s.snapshots;
}

create_snapshot-snapshotted :
    (now : Timestamp) (dataset name : Text) (recursive : Bool) (s : State)
    → (create_snapshot now dataset name recursive s).0 ≡ ok tt
    → (create_snapshot now dataset name recursive s).1 ≡ snapshotted now dataset name recursive s
unfolding create_snapshot
create_snapshot-snapshotted now dataset name recursive s h = ground arith

-- A call that is refused changes nothing.
pub create_snapshot-cases :
    (now : Timestamp) (dataset name : Text) (recursive : Bool) (s : State)
    → ((create_snapshot now dataset name recursive s).1 ≡ s)
      ⊎ ((has_dataset s dataset ≡ true)
          × ((create_snapshot now dataset name recursive s).1
              ≡ snapshotted now dataset name recursive s))
unfolding create_snapshot
create_snapshot-cases now dataset name recursive s = elim (Bool-cases (has_dataset s dataset)) [
  | inl e ↦
      elim (Option-cases (
        find? (λ t. contains text_dec (full_name t name) s.snapshots)
          (targets_of s dataset recursive))) [
            | inl free ↦ inr (e, ground arith)
            | inr (t, bad) ↦ inl (ground arith)
          ]
  | inr e ↦ inl (ground arith)
]

create_snapshot-free :
    (now : Timestamp) (dataset name : Text) (recursive : Bool) (s : State)
    → (create_snapshot now dataset name recursive s).0 ≡ ok tt
    → find? (λ t. contains text_dec (full_name t name) s.snapshots) (targets_of s dataset recursive)
      ≡ none
unfolding create_snapshot
create_snapshot-free now dataset name recursive s h = ground arith

-- No name that a target's new snapshot gets was taken.
free_name :
    (s : State) (name k : Text) (ts : List Text)
    → find? (λ t. contains text_dec (full_name t name) s.snapshots) ts ≡ none
    → (t : Text) → taken_by name k ts ≡ some t
    → lookup text_dec k s.snapshots ≡ none
free_name s name k [] none_taken t e = cc
free_name s name k (u ∷ ts) none_taken t e = elim (text_dec (full_name u name) k) [
  | yes p ↦ ground (arith, ap (λ j. contains text_dec j s.snapshots) p)
  | no n ↦ free_name s name k ts (ground arith) t (ground arith)
]

-- The dataset itself, or with `recursive` one below it.
abbrev pub targeted : Text → Bool → Text → Bool
targeted dataset recursive t =
    same_text dataset t || (recursive && starts_with (dataset ++ codes "/") t)

is_in-targets_of :
    (s : State) (dataset : Text) (recursive : Bool) (t : Text)
    → contains text_dec dataset s.datasets ≡ true
    → is_in t (targets_of s dataset recursive)
      ≡ (contains text_dec t s.datasets && targeted dataset recursive t)
unfolding children_of
is_in-targets_of s dataset recursive t stored = elim (text_dec dataset t) [
  | yes e ↦ ground (arith, ap (λ j. contains text_dec j s.datasets) e)
  | no n ↦ ground (arith, is_in-keys_of (starts_with (dataset ++ codes "/")) t s.datasets)
]

taken_by-target :
    (name t : Text) (ts : List Text)
    → is_in t ts ≡ true
    → taken_by name (full_name t name) ts ≡ some t
taken_by-target name t [] h = cc
taken_by-target name t (u ∷ ts) h = elim (text_dec (full_name u name) (full_name t name)) [
  | yes e ↦ let same = full_name_injective u t name e in ground arith
  | no n ↦ elim (text_dec u t) [
    | yes same ↦ absurd (n (ap (λ v. full_name v name) same))
    | no other ↦ ground (arith, taken_by-target name t ts)
  ]
]

taken_by-is_in :
    (name k : Text) (ts : List Text) (t : Text) → taken_by name k ts ≡ some t → is_in t ts ≡ true
taken_by-is_in name k [] t h = cc
taken_by-is_in name k (u ∷ ts) t h = elim (text_dec (full_name u name) k) [
  | yes e ↦ ground arith
  | no n ↦ ground (arith, taken_by-is_in name k ts t)
]

create_snapshot-stored :
    (now : Timestamp) (dataset name : Text) (recursive : Bool) (s : State)
    → (create_snapshot now dataset name recursive s).0 ≡ ok tt
    → contains text_dec dataset s.datasets ≡ true
unfolding create_snapshot
create_snapshot-stored now dataset name recursive s h = ground arith

-- After a snapshot that went ahead, each stored dataset that is the named one or, with `recursive`,
-- below it has a snapshot of the new name, which was not taken, made now, with the size that the
-- dataset refers to, nothing used and no clones; every other snapshot and all datasets are as
-- before.
pub create_snapshot-exact :
    (now : Timestamp) (dataset name : Text) (recursive : Bool) (s : State)
    → (create_snapshot now dataset name recursive s).0 ≡ ok tt
    → ((t : Text) (d : DatasetInfo)
        → lookup text_dec t s.datasets ≡ some d
        → targeted dataset recursive t ≡ true
        → (lookup text_dec (t ++ codes "@" ++ name) s.snapshots ≡ none)
          × (lookup text_dec
                (t ++ codes "@" ++ name)
                (create_snapshot now dataset name recursive s).1.snapshots
              ≡ some (record {
                name = t ++ codes "@" ++ name;
                used = 0;
                referenced = d.referenced;
                created_at = now;
                clones = [];
                mandrake_id = none;
              })))
      × ((k : Text)
          → ((t : Text)
              → contains text_dec t s.datasets ≡ true
              → targeted dataset recursive t ≡ true
              → t ++ codes "@" ++ name ≢ k)
          → lookup text_dec k (create_snapshot now dataset name recursive s).1.snapshots
            ≡ lookup text_dec k s.snapshots)
      × ((create_snapshot now dataset name recursive s).1.datasets ≡ s.datasets)
create_snapshot-exact now dataset name recursive s h = (
  λ t d found target.
      let own = taken_by-target name t ts (member t (ground arith) target) in
      (
        free_name s name (full_name t name) ts (create_snapshot-free now dataset name recursive s h)
            t own,
        looked_up (full_name t name)
            ∙ ap
                (λ v.
                  after_insert s now name (full_name t name) v
                    (lookup text_dec (full_name t name) s.snapshots))
                own
            ∙ ap (λ v. some (record (new_snapshot s now t name) { referenced = size v })) found,
      ),
  λ k apart. elim (Option-cases (taken_by name k ts)) [
    | inl e ↦ looked_up k ∙ ap (λ v. after_insert s now name k v (lookup text_dec k s.snapshots)) e
    | inr (t, e) ↦
        let inside = is_in-targets_of s dataset recursive t stored in
        let both = taken_by-is_in name k ts t e in
        absurd (apart t (ground arith) (ground arith) (taken_by-full_name name k ts t e))
  ],
  ap (λ t. t.datasets) (create_snapshot-snapshotted now dataset name recursive s h),
)
  where
    ts : List Text
    ts = targets_of s dataset recursive

    size : Option DatasetInfo → ℕ
    size v = elim v [ none ↦ 0 | some d ↦ d.referenced ]

    stored : contains text_dec dataset s.datasets ≡ true
    stored = create_snapshot-stored now dataset name recursive s h

    member :
        (t : Text)
        → contains text_dec t s.datasets ≡ true
        → targeted dataset recursive t ≡ true
        → is_in t ts ≡ true
    member t e target = ground (arith, is_in-targets_of s dataset recursive t stored)

    looked_up :
        (k : Text)
        → lookup text_dec k (create_snapshot now dataset name recursive s).1.snapshots
          ≡ after_insert s now name k (taken_by name k ts) (lookup text_dec k s.snapshots)
    looked_up k =
        ap (λ t. lookup text_dec k t.snapshots)
          (create_snapshot-snapshotted now dataset name recursive s h)
        ∙ lookup-insert_snapshots s now name k ts s.snapshots
