-- ===== src/Zfs/Calls.antt =====
-- Sequences of calls of the driver of fake.rs.
use mandrake.Common.{Bool, List, [], ◌∷◌}
use mandrake.Common.Float.{Float}
use mandrake.Common.Text.{Text}
use mandrake.Core.Time.{Timestamp}
use mandrake.Zfs.{PoolSpec, DatasetSpec, State, Answer}
use mandrake.Zfs.Datasets.{create_dataset, set_properties}
use mandrake.Zfs.Destroy.{destroy_dataset}
use mandrake.Zfs.Snapshots.{
  create_snapshot, destroy_snapshot, destroy_snapshot_recursive, rollback, clone_snapshot,
}
use mandrake.Zfs.Pools.{create_pool, destroy_pool}
use mandrake.Zfs.Scrubs.{scrub}

-- A call of the driver that may change something.
pub data Call : Type 0 where
  creates_pool : PoolSpec → Call
  destroys_pool : Text → Call
  scrubs : Text → Bool → Call
  creates : DatasetSpec → Call
  sets : Text → List (Text × Text) → Call
  destroys : Text → Bool → Call
  snapshots : Text → Text → Bool → Call
  drops : Text → Call
  drops_below : Text → Call
  rolls_back : Text → Bool → Call
  clones : Text → Text → Call

-- With the time of the call.
abbrev pub perform : Float → Timestamp × Call → State → Answer
perform float (now, creates_pool spec) s = create_pool now spec s
perform float (now, destroys_pool name) s = destroy_pool name s
perform float (now, scrubs name stop) s = scrub now name stop s
perform float (now, creates spec) s = create_dataset float now spec s
perform float (now, sets name props) s = set_properties float name props s
perform float (now, destroys name recursive) s = destroy_dataset name recursive s
perform float (now, snapshots dataset name recursive) s =
    create_snapshot now dataset name recursive s
perform float (now, drops name) s = destroy_snapshot name s
perform float (now, drops_below name) s = destroy_snapshot_recursive name s
perform float (now, rolls_back name discard_newer) s = rollback name discard_newer s
perform float (now, clones snapshot target) s = clone_snapshot now snapshot target s

unfoldable pub perform_all : Float → List (Timestamp × Call) → State → State
perform_all float [] s = s
perform_all float (c ∷ calls) s = perform_all float calls (perform float c s).1
