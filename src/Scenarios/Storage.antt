-- ===== src/Scenarios/Storage.antt =====
-- The theorems on storage, on a host with one pool.
use mandrake.Common.{
  ℕ, ◌≡◌, ◌≢◌, ◌*◌, refl, true, false, List, [], ◌∷◌, ◌++◌, none, some, arith, ℕ_discrete,
  if◌then◌else◌,
}
use mandrake.Common.Float.{Float}
use mandrake.Common.Map.{lookup, contains}
use mandrake.Common.Text.{Text, codes, text_dec}
use mandrake.Common.Text.Decimal.{show, parse_uint}
use mandrake.Core.Time.{Timestamp}
use mandrake.Zfs.{
  State, DeviceInfo, DatasetInfo, PoolSpec, SnapshotInfo, filesystem, volume, stripe, command,
  dataset, children_of, snapshots_of,
}
use mandrake.Zfs.Datasets.{set_properties}
use mandrake.Zfs.Destroy.{destroy_dataset}
use mandrake.Zfs.Snapshots.{create_snapshot, rollback}
use mandrake.Zfs.Pools.{create_pool, destroy_pool}
use mandrake.Zfs.Calls.{Call, creates_pool, snapshots, destroys, clones, destroys_pool, perform_all}
use mandrake.Zfs.Destroyed.{destroy_dataset-exact}
use mandrake.Zfs.Snapshotted.{create_snapshot-exact, targeted}
use mandrake.Zfs.Owned.{Owned}
use mandrake.Zfs.Reached.{perform_all-Owned}
use mandrake.Zfs.Volumes.{set_properties-HasVolume, HasVolume}
use mandrake.Zfs.Exclusive.{create_pool-Exclusive, Exclusive}
use mandrake.Zfs.RolledBack.{rollback-exact, discarded}
use mandrake.Zfs.Refused.{perform-refused}

-- Numbers without a fraction, given by themselves.
abbrev pub whole : Float
whole = record {
  from_str = parse_uint 9007199254740991;
  to_string = show;
  literal = λ n. n;
  mul = λ a b. a * b;
  is_finite = λ n. true;
  is_nonnegative = λ n. true;
  round_u64 = λ n. n;
}

abbrev snapshot_at : Text → ℕ → SnapshotInfo
snapshot_at name t = record {
  name = name;
  used = 0;
  referenced = 5;
  created_at = t;
  clones = [];
  mandrake_id = none;
}

abbrev host : State
host = record {
  pools = [];
  datasets =
      (codes "t", dataset 1 (codes "t") filesystem)
      ∷ (codes "t/a", dataset 1 (codes "t/a") filesystem)
      ∷ (codes "t/a/c", dataset 1 (codes "t/a/c") filesystem)
      ∷ (codes "t/v", record (dataset 1 (codes "t/v") volume) { volsize = some 100 })
      ∷ [];
  snapshots =
      (codes "t/a@x", snapshot_at (codes "t/a@x") 2)
      ∷ (codes "t/a@y", snapshot_at (codes "t/a@y") 3)
      ∷ (codes "t/v@x", snapshot_at (codes "t/v@x") 3)
      ∷ [];
  devices = [];
}

-- A snapshot of the dataset that is named goes with it.
destroy_dataset-exact_example :
    (lookup text_dec (codes "t/a@x") (destroy_dataset (codes "t/a") true host).1.datasets ≡ none)
    × (lookup text_dec (codes "t/a@x") (destroy_dataset (codes "t/a") true host).1.snapshots ≡ none)
    × (true ≡ false
        → (children_of host (codes "t/a") ≡ []) × (snapshots_of host (codes "t/a") ≡ []))
unfolding destroy_dataset children_of snapshots_of codes text_dec ℕ_discrete
destroy_dataset-exact_example = destroy_dataset-exact (codes "t/a") true host refl (codes "t/a@x")

create_snapshot-exact_example :
    ((t : Text) (d : DatasetInfo)
      → lookup text_dec t host.datasets ≡ some d
      → targeted (codes "t") true t ≡ true
      → (lookup text_dec (t ++ codes "@" ++ codes "z") host.snapshots ≡ none)
        × (lookup text_dec
              (t ++ codes "@" ++ codes "z")
              (create_snapshot 9 (codes "t") (codes "z") true host).1.snapshots
            ≡ some (record {
              name = t ++ codes "@" ++ codes "z";
              used = 0;
              referenced = d.referenced;
              created_at = 9;
              clones = [];
              mandrake_id = none;
            })))
    × ((k : Text)
        → ((t : Text)
            → contains text_dec t host.datasets ≡ true
            → targeted (codes "t") true t ≡ true
            → t ++ codes "@" ++ codes "z" ≢ k)
        → lookup text_dec k (create_snapshot 9 (codes "t") (codes "z") true host).1.snapshots
          ≡ lookup text_dec k host.snapshots)
    × ((create_snapshot 9 (codes "t") (codes "z") true host).1.datasets ≡ host.datasets)
unfolding create_snapshot children_of codes text_dec ℕ_discrete dataset
create_snapshot-exact_example = create_snapshot-exact 9 (codes "t") (codes "z") true host refl

rollback-exact_example :
    ((k : Text)
      → lookup text_dec k (rollback (codes "t/a@x") true host).1.snapshots ≡ (
          if discarded host (snapshot_at (codes "t/a@x") 2) k
          then none
          else lookup text_dec k host.snapshots))
    × (lookup text_dec (codes "t/a@x") (rollback (codes "t/a@x") true host).1.snapshots
        ≡ some (snapshot_at (codes "t/a@x") 2))
    × (true ≡ false → (rollback (codes "t/a@x") true host).1.snapshots ≡ host.snapshots)
unfolding rollback snapshots_of codes text_dec ℕ_discrete
rollback-exact_example =
    rollback-exact (codes "t/a@x") true host (snapshot_at (codes "t/a@x") 2) refl refl

abbrev growth : List (Text × Text)
growth = (codes "volsize", codes "200") ∷ (codes "volsize", codes "150") ∷ []

-- The second of the two sizes is refused, and the first stays.
set_properties-HasVolume_example :
    (after : DatasetInfo) × (lookup text_dec
        (codes "t/v")
        (set_properties whole (codes "t/v") growth host).1.datasets
      ≡ some after)
    × HasVolume 100 after
unfolding codes text_dec ℕ_discrete
set_properties-HasVolume_example =
    set_properties-HasVolume whole (codes "t/v") 100 growth host
      (record (dataset 1 (codes "t/v") volume) { volsize = some 100 }) (omega arith) refl
      (100, refl, omega arith)

abbrev disk_named : Text → DeviceInfo
disk_named name = record {
  name = name;
  bus = none;
  vendor = none;
  product = none;
  serial = none;
  size = 1000;
  removable = false;
  solid_state = none;
}

abbrev bare : State
bare = record {
  pools = [];
  datasets = [];
  snapshots = [];
  devices = disk_named (codes "d0") ∷ disk_named (codes "d1") ∷ [];
}

abbrev pool_on : Text → Text → PoolSpec
pool_on name disk = record {
  name = name;
  vdevs = record { vdev_type = stripe; devices = disk ∷ [] } ∷ [];
  ashift = none;
  compression = none;
  force = false;
  root_properties = [];
}

bare-Exclusive : Exclusive bare
bare-Exclusive a b d p q f g ne h = cc

abbrev first : State
first = (create_pool 1 (pool_on (codes "p") (codes "d0")) bare).1

first-Exclusive : Exclusive first
first-Exclusive =
    create_pool-Exclusive 1 (pool_on (codes "p") (codes "d0")) bare refl bare-Exclusive

create_pool-Exclusive_example : Exclusive (create_pool 2 (pool_on (codes "q") (codes "d1")) first).1
create_pool-Exclusive_example =
    create_pool-Exclusive 2 (pool_on (codes "q") (codes "d1")) first refl first-Exclusive

bare-Owned : Owned bare
bare-Owned k e = cc

abbrev calls : List (Timestamp × Call)
calls =
    (1, creates_pool (pool_on (codes "p") (codes "d0")))
    ∷ (2, snapshots (codes "p") (codes "x") true)
    ∷ (3, clones (codes "p@x") (codes "p/c"))
    ∷ (4, snapshots (codes "p/c") (codes "y") false)
    ∷ (5, destroys (codes "p/c") true)
    ∷ []

perform_all-Owned_example : Owned (perform_all whole calls bare)
perform_all-Owned_example = perform_all-Owned whole calls bare bare-Owned

perform-refused_example : (destroy_pool (codes "q") host).1 ≡ host
unfolding destroy_pool
perform-refused_example =
    perform-refused whole 1 (destroys_pool (codes "q")) host
      (command (codes "cannot open '" ++ codes "q" ++ codes "': no such pool")) refl refl
