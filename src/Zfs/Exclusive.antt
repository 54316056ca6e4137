-- ===== src/Zfs/Exclusive.antt =====
-- No two pools have a device in common, as long as no pool is made by force.
use mandrake.Common.{
  ℕ, ◌+◌, ◌≡◌, ◌≢◌, refl, sym, ap, ◌∙◌, subst, Bool, true, false, ◌||◌, List, [], ◌∷◌, ◌++◌, Option,
  none, some, arith, any, Bool-cases, inl, inr, ite,
}
use mandrake.Common.Map.{lookup, insert, lookup-insert}
use mandrake.Common.Text.{Text, same_text, text_dec}
use mandrake.Core.Time.{Timestamp}
use mandrake.Zfs.{State, VdevSpec, PoolInfo, PoolSpec, DatasetInfo}
use mandrake.Zfs.Pools.{
  leaves, leaves_all, disks, groups, devices_of, check_devices, check_vdevs, in_use, uses, add_pool,
  set_root, mark_root, compress_root, alter, create_pool, pool_size, made_pool,
}
use mandrake.Zfs.Orphans.{create_pool-cases}

any-append : {A : Type 0} (p : A → Bool) (a b : List A) → any p (a ++ b) ≡ (any p a || any p b)
any-append p [] b = refl
any-append p (x ∷ a) b = ground (arith, any-append p a b)

any-disks : (p : Text → Bool) (ds : List Text) → any p (leaves_all (disks ds)) ≡ any p ds
unfolding leaves leaves_all
any-disks p [] = refl
any-disks p (d ∷ ds) = ap (λ b. p d || b) (any-disks p ds)

-- The leaves of a new pool are its devices.
any-groups :
    (p : Text → Bool) (i : ℕ) (ds : List (List Text))
    → any p (leaves_all (groups i ds)) ≡ any (any p) ds
unfolding leaves leaves_all
any-groups p i [] = refl
any-groups p i ([] ∷ ds) = any-groups p (i + 1) ds
any-groups p i ((d ∷ []) ∷ ds) = ground (arith, any-groups p (i + 1) ds)
any-groups p i ((d ∷ e ∷ more) ∷ ds) =
    any-append p (leaves_all (disks (d ∷ e ∷ more))) (leaves_all (groups (i + 1) ds))
    ∙ rw (any-disks p (d ∷ e ∷ more), any-groups p (i + 1) ds) refl

check_devices-unused :
    (s : State) (ds : List Text) (d : Text)
    → check_devices s false ds ≡ none
    → any (same_text d) ds ≡ true
    → in_use s d ≡ false
check_devices-unused s [] d h e = cc
check_devices-unused s (x ∷ ds) d h e = elim (text_dec d x) [
  | yes p ↦ ap (in_use s) p ∙ ground arith
  | no n ↦ check_devices-unused s ds d (ground arith) (ground arith)
]

check_vdevs-unused :
    (s : State) (vs : List VdevSpec) (d : Text)
    → check_vdevs s false vs ≡ none
    → any (any (same_text d)) (devices_of vs) ≡ true
    → in_use s d ≡ false
check_vdevs-unused s [] d h e = cc
check_vdevs-unused s (v ∷ vs) d h e = elim (Bool-cases (any (same_text d) v.devices)) [
  | inl here ↦ check_devices-unused s v.devices d (ground arith) here
  | inr later ↦ check_vdevs-unused s vs d (ground arith) (ground arith)
]

-- Whether a device is one of a pool's leaves.
abbrev pub has_leaf : Text → PoolInfo → Bool
has_leaf d pool = any (same_text d) (leaves pool.vdevs)

abbrev pub Exclusive : State → Type 0
Exclusive s =
    (a b d : Text) (p q : PoolInfo)
    → lookup text_dec a s.pools ≡ some p
    → lookup text_dec b s.pools ≡ some q
    → a ≢ b
    → has_leaf d p ≡ true
    → has_leaf d q ≡ false

in_use-lookup :
    (d b : Text) (q : PoolInfo) (m : List (Text × PoolInfo))
    → any (uses d) m ≡ false
    → lookup text_dec b m ≡ some q
    → has_leaf d q ≡ false
in_use-lookup d b q [] h e = cc
in_use-lookup d b q ((j, w) ∷ m) h e = elim (text_dec j b) [
  | yes p ↦ ground arith
  | no n ↦ in_use-lookup d b q m (ground arith) (ground arith)
]

abbrev new_pool : PoolSpec → State → PoolInfo
new_pool spec s = made_pool spec.name (devices_of spec.vdevs) (pool_size s spec.vdevs)

alter-pools :
    (name : Text) (f : DatasetInfo → DatasetInfo) (s : State) → (alter name f s).pools ≡ s.pools
alter-pools name f s = ground arith

mark_root-pools :
    (name : Text) (id : Option (Text × Text)) (s : State) → (mark_root name id s).pools ≡ s.pools
mark_root-pools name none s = refl
mark_root-pools name (some (_, id)) s = alter-pools name (λ d. record d { mandrake_id = some id }) s

compress_root-pools :
    (name : Text) (c : Option Text) (s : State) → (compress_root name c s).pools ≡ s.pools
compress_root-pools name none s = refl
compress_root-pools name (some c) s = alter-pools name (λ d. record d { compression = some c }) s

set_root-pools : (spec : PoolSpec) (s : State) → (set_root spec s).pools ≡ s.pools
set_root-pools spec s = compress_root-pools spec.name _ _ ∙ mark_root-pools spec.name _ s

-- The devices of the new pool are not in use.
new_pool-unused :
    (spec : PoolSpec) (s : State) (d : Text)
    → check_vdevs s false spec.vdevs ≡ none
    → has_leaf d (new_pool spec s) ≡ true
    → in_use s d ≡ false
unfolding leaves
new_pool-unused spec s d fine h =
    check_vdevs-unused s spec.vdevs d fine
      (sym (any-groups (same_text d) 0 (devices_of spec.vdevs)) ∙ h)

added-Exclusive :
    (now : Timestamp) (spec : PoolSpec) (s t : State)
    → check_vdevs s false spec.vdevs ≡ none
    → t.pools ≡ insert text_dec spec.name (new_pool spec s) s.pools
    → Exclusive s
    → Exclusive t
added-Exclusive now spec s t fine e h a b d p q f g ne has =
    let made = new_pool spec s in
    let at_a = found a p f in
    let at_b = found b q g in
    elim (text_dec spec.name a) [
      | yes x ↦ elim (text_dec spec.name b) [
        | yes y ↦ absurd (ne (sym x ∙ y))
        | no m ↦
            in_use-lookup d b q s.pools (new_pool-unused spec s d fine (ground arith))
              (ground arith)
      ]
      | no n ↦ elim (text_dec spec.name b) [
        | yes y ↦ elim (Bool-cases (has_leaf d made)) [
          | inl bad ↦
              apart (in_use-lookup d a p s.pools (new_pool-unused spec s d fine bad) (ground arith))
                has
          | inr good ↦ unleafed made q (ground arith) good
        ]
        | no m ↦ h a b d p q (ground arith) (ground arith) ne has
      ]
    ]
  where
    found :
        (c : Text) (r : PoolInfo)
        → lookup text_dec c t.pools ≡ some r
        → ite (text_dec spec.name c) (some (new_pool spec s)) (lookup text_dec c s.pools) ≡ some r
    found c r k =
        sym (lookup-insert text_dec c spec.name (new_pool spec s) s.pools)
        ∙ ap (lookup text_dec c) (sym e)
        ∙ k

    unleafed : (r u : PoolInfo) → some r ≡ some u → has_leaf d r ≡ false → has_leaf d u ≡ false
    unleafed r u k l = cc

    apart : {x : Bool} → x ≡ false → x ≡ true → has_leaf d q ≡ false
    apart u v = cc

-- Where no two pools have a device in common, this still holds after a call that creates a pool
-- without force, whether or not it is refused.
pub create_pool-Exclusive :
    (now : Timestamp) (spec : PoolSpec) (s : State)
    → spec.force ≡ false
    → Exclusive s
    → Exclusive (create_pool now spec s).1
unfolding add_pool
create_pool-Exclusive now spec s gentle h = elim (create_pool-cases now spec s) [
  | inl e ↦ subst Exclusive (sym e) h
  | inr (fine, e) ↦
      added-Exclusive now spec s (create_pool now spec s).1
        (subst (λ f. check_vdevs s f spec.vdevs ≡ none) gentle fine)
        (ap (λ t. t.pools) e ∙ set_root-pools spec _) h
]
