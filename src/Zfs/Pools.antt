-- ===== src/Zfs/Pools.antt =====
-- The calls of fake.rs on pools.
use mandrake.Common.{
  ℕ, ◌+◌, ◌-◌, ◌/◌, ◌%◌, ◌^◌, min, Bool, true, false, not, ◌&&◌, List, [], ◌∷◌, ◌++◌, Option, none,
  some, if◌then◌else◌, ltb, any, keep, find?, length,
}
use mandrake.Common.Map.{lookup, contains, insert, remove}
use mandrake.Common.Text.{Text, codes, same_text, text_dec}
use mandrake.Common.Text.Parts.{starts_with}
use mandrake.Common.Text.Decimal.{show}
use mandrake.Core.Time.{Timestamp}
use mandrake.Zfs.{
  filesystem, online, VdevType, root, disk, file, VdevSpecType, stripe, Vdev, Vdevs, vdev, no_vdevs,
  and_vdev, PoolInfo, VdevSpec, PoolSpec, State, DatasetInfo, ok, Answer, tool_error, no_such_pool,
  id_property, one, dataset,
}

abbrev is_leaf : VdevType → Vdevs → Bool
is_leaf disk no_vdevs = true
is_leaf file no_vdevs = true
is_leaf kind children = false

-- `Vdev::leaves`
unfoldable mutual
  pub leaves : Vdev → List Text
  leaves (vdev name kind state r w c remark children) =
      let below = leaves_all children in if is_leaf kind children then name ∷ [] else below

  pub leaves_all : Vdevs → List Text
  leaves_all no_vdevs = []
  leaves_all (and_vdev v vs) = leaves v ++ leaves_all vs

abbrev sound : Text → VdevType → Vdevs → Vdev
sound name kind children = vdev name kind online (some 0) (some 0) (some 0) none children

abbrev pub disks : List Text → Vdevs
disks [] = no_vdevs
disks (d ∷ ds) = and_vdev (sound d disk no_vdevs) (disks ds)

-- One device stands for itself, others make a mirror that is numbered.
abbrev pub groups : ℕ → List (List Text) → Vdevs
groups i [] = no_vdevs
groups i ((d ∷ []) ∷ more) = and_vdev (sound d disk no_vdevs) (groups (i + 1) more)
groups i (devs ∷ more) =
    and_vdev (sound (codes "mirror-" ++ show i) VdevType.mirror (disks devs)) (groups (i + 1) more)

-- A pool as it is made.
abbrev pub made_pool : Text → List (List Text) → ℕ → PoolInfo
made_pool name mirrors size = record {
  name = name;
  health = online;
  size = size;
  allocated = size / 8;
  free = size - size / 8;
  fragmentation = some 1;
  capacity = some 12;
  dedup_ratio = some one;
  vdevs = sound name root (groups 0 mirrors);
  scan = none;
  status_text = none;
}

unfoldable pub add_pool : Timestamp → Text → List (List Text) → ℕ → State → State
add_pool now name mirrors size s = record s {
  pools = insert text_dec name (made_pool name mirrors size) s.pools;
  datasets = insert text_dec name (dataset now name filesystem) s.datasets;
}

abbrev pub has_device : State → Text → Bool
has_device s d = any (λ dev. same_text dev.name d) s.devices

abbrev pub uses : Text → Text × PoolInfo → Bool
uses d entry = any (same_text d) (leaves entry.1.vdevs)

abbrev pub in_use : State → Text → Bool
in_use s d = any (uses d) s.pools

-- The message for the first device that cannot be used.
abbrev pub check_devices : State → Bool → List Text → Option Text
check_devices s force [] = none
check_devices s force (d ∷ ds) =
    let rest = check_devices s force ds in
    if not (has_device s d)
    then some (codes "cannot open '" ++ d ++ codes "': no such device in /dev/dsk")
    else if in_use s d && not force
    then some (
        codes "invalid vdev specification\nuse '-f' to override the following errors:\n/dev/dsk/"
        ++ d
        ++ codes "s0 is part of active pool")
    else rest

abbrev is_mirror : VdevSpecType → Bool
is_mirror VdevSpecType.mirror = true
is_mirror kind = false

abbrev pub check_vdevs : State → Bool → List VdevSpec → Option Text
check_vdevs s force [] = none
check_vdevs s force (v ∷ vs) =
    let rest = check_vdevs s force vs in
    elim (check_devices s force v.devices) [
      | some why ↦ some why
      | none ↦
          if is_mirror v.vdev_type && ltb (length v.devices) 2
          then some (codes "invalid vdev specification: mirror requires at least 2 devices")
          else rest
    ]

abbrev sizes : State → List Text → List ℕ
sizes s [] = []
sizes s (d ∷ ds) =
    let rest = sizes s ds in
    elim (find? (λ dev. same_text dev.name d) s.devices) [
      | none ↦ rest
      | some dev ↦ dev.size ∷ rest
    ]

-- `sum` of 64-bit numbers.
abbrev sum : List ℕ → ℕ
sum [] = 0
sum (n ∷ ns) = (n + sum ns) % 2 ^ 64

abbrev smallest : List ℕ → ℕ
smallest [] = 0
smallest (n ∷ []) = n
smallest (n ∷ m ∷ ns) = min n (smallest (m ∷ ns))

abbrev holds_data : VdevSpecType → Bool
holds_data VdevSpecType.log = false
holds_data VdevSpecType.cache = false
holds_data VdevSpecType.spare = false
holds_data kind = true

abbrev vdev_size : State → VdevSpec → ℕ
vdev_size s v = elim v.vdev_type [
  | stripe ↦ sum (sizes s v.devices)
  | _ ↦ smallest (sizes s v.devices)
]

abbrev vdev_sizes : State → List VdevSpec → List ℕ
vdev_sizes s [] = []
vdev_sizes s (v ∷ vs) =
    let rest = vdev_sizes s vs in if holds_data v.vdev_type then vdev_size s v ∷ rest else rest

unfoldable pub pool_size : State → List VdevSpec → ℕ
pool_size s vs = sum (vdev_sizes s vs)

abbrev pub devices_of : List VdevSpec → List (List Text)
devices_of [] = []
devices_of (v ∷ vs) = v.devices ∷ devices_of vs

-- A change of one dataset, if it is there.
abbrev pub alter : Text → (DatasetInfo → DatasetInfo) → State → State
alter name f s = elim (lookup text_dec name s.datasets) [
  | none ↦ s
  | some d ↦ record s { datasets = insert text_dec name (f d) s.datasets }
]

abbrev pub mark_root : Text → Option (Text × Text) → State → State
mark_root name none s = s
mark_root name (some (_, id)) s = alter name (λ d. record d { mandrake_id = some id }) s

abbrev pub compress_root : Text → Option Text → State → State
compress_root name none s = s
compress_root name (some c) s = alter name (λ d. record d { compression = some c }) s

abbrev pub set_root : PoolSpec → State → State
set_root spec s =
    compress_root spec.name spec.compression
      (mark_root spec.name (find? (λ p. same_text p.0 id_property) spec.root_properties) s)

unfoldable pub create_pool : Timestamp → PoolSpec → State → Answer
create_pool now spec s =
    if contains text_dec spec.name s.pools
    then (tool_error (codes "cannot create '" ++ spec.name ++ codes "': pool already exists"), s)
    else elim (check_vdevs s spec.force spec.vdevs) [
      | some why ↦ (tool_error why, s)
      | none ↦ (
        ok tt,
        set_root spec (add_pool now spec.name (devices_of spec.vdevs) (pool_size s spec.vdevs) s),
      )
    ]

unfoldable pub destroy_pool : Text → State → Answer
destroy_pool name s = if not (contains text_dec name s.pools) then (no_such_pool name, s) else (
  ok tt,
  record s {
    pools = remove text_dec name s.pools;
    datasets =
        keep (λ e. not (same_text e.0 name) && not (starts_with (name ++ codes "/") e.0))
          s.datasets;
    snapshots =
        keep
          (λ e.
            not (starts_with (name ++ codes "/") e.0) && not (starts_with (name ++ codes "@") e.0))
          s.snapshots;
  },
)
