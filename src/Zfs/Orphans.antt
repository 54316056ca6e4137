-- ===== src/Zfs/Orphans.antt =====
-- Every snapshot belongs to a dataset that exists: calls on pools, and calls that remove datasets or
-- make snapshots.
use mandrake.Common.{
  ℕ, ◌≡◌, refl, sym, ap, ◌∙◌, Bool, true, false, not, ◌&&◌, List, [], ◌∷◌, ◌++◌, Option, none, some,
  arith, if◌then◌else◌, keep, Bool-cases, inl, inr, Option-cases, ◌⊎◌, subst,
}
use mandrake.Common.Map.{lookup, contains, remove, lookup-insert}
use mandrake.Common.Text.{Text, codes, same_text, text_dec}
use mandrake.Common.Text.Parts.{starts_with}
use mandrake.Core.Time.{Timestamp}
use mandrake.Zfs.{State, filesystem, PoolSpec, DatasetInfo, dataset, children_of}
use mandrake.Zfs.Destroy.{destroy_dataset}
use mandrake.Zfs.Pools.{
  create_pool, destroy_pool, set_root, mark_root, compress_root, add_pool, alter, check_vdevs,
  devices_of, pool_size,
}
use mandrake.Zfs.Names.{is_in, is_in-keys_of, lookup-keep_named, any-is_in, same_text-sym}
use mandrake.Zfs.Destroyed.{
  within, snapshot_within, destroyed, destroy_dataset-cases, destroyed-datasets,
  destroyed-snapshots,
}
use mandrake.Zfs.Owned.{Owned, Owner, Grown-Owned}

contains-alter :
    (name : Text) (f : DatasetInfo → DatasetInfo) (s : State) (d : Text)
    → contains text_dec d s.datasets ≡ true
    → contains text_dec d (alter name f s).datasets ≡ true
contains-alter name f s d h = elim (Option-cases (lookup text_dec name s.datasets)) [
  | inl e ↦ ground arith
  | inr (x, e) ↦ ground (arith, lookup-insert text_dec d name (f x) s.datasets)
]

alter-snapshots :
    (name : Text) (f : DatasetInfo → DatasetInfo) (s : State)
    → (alter name f s).snapshots ≡ s.snapshots
alter-snapshots name f s = ground arith

alter-Owned :
    (name : Text) (f : DatasetInfo → DatasetInfo) (s : State) → Owned s → Owned (alter name f s)
alter-Owned name f s h =
    Grown-Owned s (alter name f s) (contains-alter name f s)
      (λ k e. subst (λ m. contains text_dec k m ≡ true) (alter-snapshots name f s) e) h

mark_root-Owned :
    (name : Text) (id : Option (Text × Text)) (s : State) → Owned s → Owned (mark_root name id s)
mark_root-Owned name none s h = h
mark_root-Owned name (some (_, id)) s h =
    alter-Owned name (λ d. record d { mandrake_id = some id }) s h

compress_root-Owned :
    (name : Text) (c : Option Text) (s : State) → Owned s → Owned (compress_root name c s)
compress_root-Owned name none s h = h
compress_root-Owned name (some c) s h =
    alter-Owned name (λ d. record d { compression = some c }) s h

add_pool-Owned :
    (now : Timestamp) (name : Text) (mirrors : List (List Text)) (size : ℕ) (s : State)
    → Owned s
    → Owned (add_pool now name mirrors size s)
unfolding add_pool
add_pool-Owned now name mirrors size s h =
    Grown-Owned s (add_pool now name mirrors size s)
      (λ d g.
        ground (arith, lookup-insert text_dec d name (dataset now name filesystem) s.datasets))
      (λ k g. g) h

pub create_pool-cases :
    (now : Timestamp) (spec : PoolSpec) (s : State)
    → ((create_pool now spec s).1 ≡ s)
      ⊎ ((check_vdevs s spec.force spec.vdevs ≡ none)
          × ((create_pool now spec s).1
              ≡ set_root spec
                  (add_pool now spec.name (devices_of spec.vdevs) (pool_size s spec.vdevs) s)))
unfolding create_pool
create_pool-cases now spec s = elim (Bool-cases (contains text_dec spec.name s.pools)) [
  | inl e ↦ inl (ground arith)
  | inr e ↦ elim (Option-cases (check_vdevs s spec.force spec.vdevs)) [
    | inl fine ↦ inr (fine, ground arith)
    | inr (why, bad) ↦ inl (ground arith)
  ]
]

pub create_pool-Owned :
    (now : Timestamp) (spec : PoolSpec) (s : State) → Owned s → Owned (create_pool now spec s).1
create_pool-Owned now spec s h = elim (create_pool-cases now spec s) [
  | inl e ↦ subst Owned (sym e) h
  | inr (_, e) ↦ subst Owned (sym e) (
      compress_root-Owned spec.name spec.compression _
        (mark_root-Owned spec.name _ _ (add_pool-Owned now spec.name _ _ s h)))
]

-- Datasets went, and every snapshot of theirs with them.
Pruned-Owned :
    (doomed : Text → Bool) (s t : State)
    → ((d : Text)
        → contains text_dec d s.datasets ≡ true
        → doomed d ≡ false
        → contains text_dec d t.datasets ≡ true)
    → ((k : Text) → contains text_dec k t.snapshots ≡ true → contains text_dec k s.snapshots ≡ true)
    → ((k d : Text)
        → contains text_dec k t.snapshots ≡ true
        → contains text_dec d s.datasets ≡ true
        → doomed d ≡ true
        → starts_with (d ++ codes "@") k ≡ false)
    → Owned s
    → Owned t
Pruned-Owned doomed s t kept fewer gone h k e =
    let (d, in_s, at) = h k (fewer k e) in
    elim (Bool-cases (doomed d)) [
      | inl bad ↦ absurd_of (sym at ∙ gone k d e in_s bad)
      | inr good ↦ (d, kept d in_s good, at)
    ]
  where
    absurd_of : true ≡ false → Owner t k
    absurd_of f = cc

is_child :
    (name d : Text) (s : State)
    → contains text_dec d s.datasets ≡ true
    → starts_with (name ++ codes "/") d ≡ true
    → is_in d (children_of s name) ≡ true
unfolding children_of
is_child name d s h e =
    is_in-keys_of (starts_with (name ++ codes "/")) d s.datasets ∙ rw (h, e) refl

within-snapshot_within :
    (name k d : Text) (s : State)
    → contains text_dec d s.datasets ≡ true
    → within name d ≡ true
    → starts_with (d ++ codes "@") k ≡ true
    → snapshot_within s name k ≡ true
within-snapshot_within name k d s h e at = elim (text_dec name d) [
  | yes p ↦ ground (arith, ap (λ n. starts_with (n ++ codes "@") k) p)
  | no n ↦ ground (
    arith,
    any-is_in (λ c. starts_with (c ++ codes "@") k) d (children_of s name)
        (is_child name d s h (ground arith)) at,
  )
]

destroyed-Owned : (name : Text) (s : State) → Owned s → Owned (destroyed name s)
destroyed-Owned name s h =
    Pruned-Owned (within name) s (destroyed name s)
      (λ d g e. ground (arith, destroyed-datasets name s d))
      (λ k g. ground (arith, destroyed-snapshots name s k))
      (λ k d g i e. elim (Bool-cases (starts_with (d ++ codes "@") k)) [
        | inl at ↦
            ground (arith, destroyed-snapshots name s k, within-snapshot_within name k d s i e at)
        | inr off ↦ off
      ])
      h

pub destroy_dataset-Owned :
    (name : Text) (recursive : Bool) (s : State)
    → Owned s
    → Owned (destroy_dataset name recursive s).1
destroy_dataset-Owned name recursive s h = elim (destroy_dataset-cases name recursive s) [
  | inl e ↦ subst Owned (sym e) h
  | inr e ↦ subst Owned (sym e) (destroyed-Owned name s h)
]

starts_with-append :
    (p d x k : Text)
    → starts_with p d ≡ true
    → starts_with (d ++ x) k ≡ true
    → starts_with p k ≡ true
starts_with-append [] d x k h e = refl
starts_with-append (a ∷ p) [] x k h e = cc
starts_with-append (a ∷ p) (b ∷ d) x [] h e = cc
starts_with-append (a ∷ p) (b ∷ d) x (c ∷ k) h e = ground (arith, starts_with-append p d x k)

-- The state that `destroy_pool` leaves when it goes ahead.
abbrev pool_gone : Text → State → State
pool_gone name s = record s {
  pools = remove text_dec name s.pools;
  datasets =
      keep (λ e. not (same_text e.0 name) && not (starts_with (name ++ codes "/") e.0)) s.datasets;
  snapshots =
      keep
        (λ e.
          not (starts_with (name ++ codes "/") e.0) && not (starts_with (name ++ codes "@") e.0))
        s.snapshots;
}

pool_gone-datasets :
    (name : Text) (s : State) (d : Text)
    → lookup text_dec d (pool_gone name s).datasets
      ≡ (if within name d then none else lookup text_dec d s.datasets)
pool_gone-datasets name s d =
    lookup-keep_named (λ j. not (same_text j name) && not (starts_with (name ++ codes "/") j)) d
      s.datasets
    ∙ ground (arith, same_text-sym name d)

pool_gone-snapshots :
    (name : Text) (s : State) (k : Text)
    → lookup text_dec k (pool_gone name s).snapshots ≡ (
        if not (starts_with (name ++ codes "/") k) && not (starts_with (name ++ codes "@") k)
        then lookup text_dec k s.snapshots
        else none)
pool_gone-snapshots name s k =
    lookup-keep_named
      (λ j. not (starts_with (name ++ codes "/") j) && not (starts_with (name ++ codes "@") j)) k
      s.snapshots

pool_gone-Owned : (name : Text) (s : State) → Owned s → Owned (pool_gone name s)
pool_gone-Owned name s h =
    Pruned-Owned (within name) s (pool_gone name s)
      (λ d g e. ground (arith, pool_gone-datasets name s d))
      (λ k g. ground (arith, pool_gone-snapshots name s k))
      (λ k d g i e. elim (Bool-cases (starts_with (d ++ codes "@") k)) [
        | inl at ↦ elim (text_dec name d) [
          | yes same ↦
              ground
                (arith, pool_gone-snapshots name s k, ap (λ n. starts_with (n ++ codes "@") k) same)
          | no n ↦ ground (
            arith,
            pool_gone-snapshots name s k,
            starts_with-append (name ++ codes "/") d (codes "@") k (ground arith) at,
          )
        ]
        | inr off ↦ off
      ])
      h

destroy_pool-cases :
    (name : Text) (s : State)
    → ((destroy_pool name s).1 ≡ s) ⊎ ((destroy_pool name s).1 ≡ pool_gone name s)
unfolding destroy_pool
destroy_pool-cases name s = elim (Bool-cases (contains text_dec name s.pools)) [
  | inl e ↦ inr (ground arith)
  | inr e ↦ inl (ground arith)
]

pub destroy_pool-Owned : (name : Text) (s : State) → Owned s → Owned (destroy_pool name s).1
destroy_pool-Owned name s h = elim (destroy_pool-cases name s) [
  | inl e ↦ subst Owned (sym e) h
  | inr e ↦ subst Owned (sym e) (pool_gone-Owned name s h)
]
