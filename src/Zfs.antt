-- ===== src/Zfs.antt =====
-- crates/mandrake-zfs/src/fake.rs: the in-memory ZFS driver, with the types of types.rs and those of
-- crates/mandrake-core/src/storage.rs that they use. A map is a list of its entries, and a ratio the
-- bits of its `f64`. A call reads the clock once.
pub mod Size
pub mod Datasets
pub mod Destroy
pub mod Snapshots
pub mod Pools
pub mod Scrubs
pub mod Names
pub mod Destroyed
pub mod Snapshotted
pub mod Calls
pub mod Owned
pub mod Orphans
pub mod Reached
pub mod Refused
pub mod Exclusive
pub mod Volumes
pub mod RolledBack
use mandrake.Common.{ℕ, ◌≡◌, Bool, true, false, List, [], ◌∷◌, ◌++◌, Option, none, some, keep}
use mandrake.Common.Map.{contains}
use mandrake.Common.Text.{Text, codes, text_dec}
use mandrake.Common.Text.Parts.{starts_with}
use mandrake.Core.Time.{Timestamp}

pub data DatasetKind : Type 0 where
  filesystem volume : DatasetKind

pub data PoolHealth : Type 0 where
  online degraded faulted offline unavail removed suspended avail inuse : PoolHealth

pub data VdevType : Type 0 where
  root disk file mirror raidz1 raidz2 raidz3 log cache spare replacing spare_group : VdevType

pub data VdevSpecType : Type 0 where
  stripe mirror raidz1 raidz2 raidz3 log cache spare : VdevSpecType

pub data ScanFunction : Type 0 where
  scrub resilver : ScanFunction

pub data ScanState : Type 0 where
  in_progress finished canceled : ScanState

pub record ScanStatus : Type 0 where
  pub function : ScanFunction
  pub state : ScanState
  pub progress : Option ℕ
  pub started_at : Option Timestamp
  pub finished_at : Option Timestamp
  pub errors : Option ℕ
  pub rate_bytes_per_second : Option ℕ
  pub summary : Text

-- Name, type, state, errors on reading, on writing and of the checksum, a note, and the children.
mutual
  pub data Vdev : Type 0 where
    vdev :
        Text → VdevType → PoolHealth → Option ℕ → Option ℕ → Option ℕ → Option Text → Vdevs → Vdev

  pub data Vdevs : Type 0 where
    no_vdevs : Vdevs
    and_vdev : Vdev → Vdevs → Vdevs

pub record PoolInfo : Type 0 where
  pub name : Text
  pub health : PoolHealth
  pub size : ℕ
  pub allocated : ℕ
  pub free : ℕ
  pub fragmentation : Option ℕ
  pub capacity : Option ℕ
  pub dedup_ratio : Option ℕ
  pub vdevs : Vdev
  pub scan : Option ScanStatus
  pub status_text : Option Text

pub record DatasetInfo : Type 0 where
  pub name : Text
  pub kind : DatasetKind
  pub mountpoint : Option Text
  pub mounted : Bool
  pub used : ℕ
  pub available : ℕ
  pub referenced : ℕ
  pub logical_used : Option ℕ
  pub quota : Option ℕ
  pub reservation : Option ℕ
  pub compression : Option Text
  pub compress_ratio : Option ℕ
  pub atime : Option Bool
  pub recordsize : Option ℕ
  pub volsize : Option ℕ
  pub volblocksize : Option ℕ
  pub origin : Option Text
  pub created_at : Timestamp
  pub mandrake_id : Option Text

pub record SnapshotInfo : Type 0 where
  pub name : Text
  pub used : ℕ
  pub referenced : ℕ
  pub created_at : Timestamp
  pub clones : List Text
  pub mandrake_id : Option Text

pub record DeviceInfo : Type 0 where
  pub name : Text
  pub bus : Option Text
  pub vendor : Option Text
  pub product : Option Text
  pub serial : Option Text
  pub size : ℕ
  pub removable : Bool
  pub solid_state : Option Bool

pub record VdevSpec : Type 0 where
  pub vdev_type : VdevSpecType
  pub devices : List Text

pub record PoolSpec : Type 0 where
  pub name : Text
  pub vdevs : List VdevSpec
  pub ashift : Option ℕ
  pub compression : Option Text
  pub force : Bool
  pub root_properties : List (Text × Text)

pub record DatasetSpec : Type 0 where
  pub name : Text
  pub kind : DatasetKind
  pub volsize : Option ℕ
  pub sparse : Bool
  pub create_parents : Bool
  pub properties : List (Text × Text)

pub record State : Type 0 where
  pub pools : List (Text × PoolInfo)
  pub datasets : List (Text × DatasetInfo)
  pub snapshots : List (Text × SnapshotInfo)
  pub devices : List DeviceInfo

-- The message of a tool that failed, output that was not understood, and `NotFound`.
pub data ZfsError : Type 0 where
  command : Text → ZfsError
  parse : Text → Text → ZfsError
  absent : Text → ZfsError

pub data Outcome {ℓ} (A : Type ℓ) : Type ℓ where
  ok : A → Outcome A
  err : ZfsError → Outcome A

abbrev pub Answer : Type 0
Answer = Outcome (Unit {0}) × State

abbrev pub tool_error : Text → Outcome (Unit {0})
tool_error message = err (command message)

abbrev pub cannot_open : Text → Outcome (Unit {0})
cannot_open name = tool_error (codes "cannot open '" ++ name ++ codes "': dataset does not exist")

abbrev pub no_such_pool : Text → Outcome (Unit {0})
no_such_pool name = tool_error (codes "cannot open '" ++ name ++ codes "': no such pool")

abbrev pub id_property : Text
id_property = codes "nightshade.systems:mandrake-id"

-- The bits of 1.0; those of 0.0 are all zero.
abbrev pub one : ℕ
one = 0x3ff0000000000000

abbrev pub has_dataset : State → Text → Bool
has_dataset s name = contains text_dec name s.datasets

-- `is_fs.then(...)`, and its opposite.
abbrev pub if_filesystem {ℓ} : {A : Type ℓ} → DatasetKind → A → Option A
if_filesystem filesystem a = some a
if_filesystem volume a = none

abbrev pub if_volume {ℓ} : {A : Type ℓ} → DatasetKind → A → Option A
if_volume filesystem a = none
if_volume volume a = some a

abbrev pub is_filesystem : DatasetKind → Bool
is_filesystem filesystem = true
is_filesystem volume = false

-- A dataset as it is made.
unfoldable pub dataset : Timestamp → Text → DatasetKind → DatasetInfo
dataset now name kind = record {
  name = name;
  kind = kind;
  mountpoint = if_filesystem kind (codes "/" ++ name);
  mounted = is_filesystem kind;
  used = 98304;
  available = 1099511627776;
  referenced = 98304;
  logical_used = some 98304;
  quota = none;
  reservation = none;
  compression = some (codes "lz4");
  compress_ratio = some one;
  atime = if_filesystem kind true;
  recordsize = if_filesystem kind 131072;
  volsize = none;
  volblocksize = if_volume kind 8192;
  origin = none;
  created_at = now;
  mandrake_id = none;
}

abbrev pub keys_of {ℓ} : {V : Type ℓ} → List (Text × V) → List Text
keys_of [] = []
keys_of ((k, v) ∷ m) = k ∷ keys_of m

-- The datasets below, and the snapshots of the dataset itself, by their names.
unfoldable pub children_of : State → Text → List Text
children_of s name = keep (starts_with (name ++ codes "/")) (keys_of s.datasets)

unfoldable pub snapshots_of : State → Text → List Text
snapshots_of s name = keep (starts_with (name ++ codes "@")) (keys_of s.snapshots)
