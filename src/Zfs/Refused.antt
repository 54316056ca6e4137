-- ===== src/Zfs/Refused.antt =====
-- What a call of the driver of fake.rs changes when it is refused.
use mandrake.Common.{◌≡◌, Bool, true, false, arith}
use mandrake.Common.Float.{Float}
use mandrake.Common.Text.{Text}
use mandrake.Core.Time.{Timestamp}
use mandrake.Zfs.{State, ZfsError, err, PoolSpec, DatasetSpec}
use mandrake.Zfs.Datasets.{create_dataset}
use mandrake.Zfs.Destroy.{destroy_dataset}
use mandrake.Zfs.Snapshots.{
  create_snapshot, destroy_snapshot, destroy_snapshot_recursive, rollback, clone_snapshot,
}
use mandrake.Zfs.Pools.{create_pool, destroy_pool}
use mandrake.Zfs.Scrubs.{scrub}
use mandrake.Zfs.Calls.{
  Call, creates_pool, destroys_pool, scrubs, creates, sets, destroys, snapshots, drops, drops_below,
  rolls_back, clones, perform,
}

create_pool-refused :
    (now : Timestamp) (spec : PoolSpec) (s : State) (why : ZfsError)
    → (create_pool now spec s).0 ≡ err why
    → (create_pool now spec s).1 ≡ s
unfolding create_pool
create_pool-refused now spec s why h = ground arith

destroy_pool-refused :
    (name : Text) (s : State) (why : ZfsError)
    → (destroy_pool name s).0 ≡ err why
    → (destroy_pool name s).1 ≡ s
unfolding destroy_pool
destroy_pool-refused name s why h = ground arith

scrub-refused :
    (now : Timestamp) (name : Text) (stop : Bool) (s : State) (why : ZfsError)
    → (scrub now name stop s).0 ≡ err why
    → (scrub now name stop s).1 ≡ s
unfolding scrub
scrub-refused now name stop s why h = ground arith

create_dataset-refused :
    (float : Float) (now : Timestamp) (spec : DatasetSpec) (s : State) (why : ZfsError)
    → (create_dataset float now spec s).0 ≡ err why
    → (create_dataset float now spec s).1 ≡ s
unfolding create_dataset
create_dataset-refused float now spec s why h = ground arith

destroy_dataset-refused :
    (name : Text) (recursive : Bool) (s : State) (why : ZfsError)
    → (destroy_dataset name recursive s).0 ≡ err why
    → (destroy_dataset name recursive s).1 ≡ s
unfolding destroy_dataset
destroy_dataset-refused name recursive s why h = ground arith

create_snapshot-refused :
    (now : Timestamp) (dataset name : Text) (recursive : Bool) (s : State) (why : ZfsError)
    → (create_snapshot now dataset name recursive s).0 ≡ err why
    → (create_snapshot now dataset name recursive s).1 ≡ s
unfolding create_snapshot
create_snapshot-refused now dataset name recursive s why h = ground arith

destroy_snapshot-refused :
    (name : Text) (s : State) (why : ZfsError)
    → (destroy_snapshot name s).0 ≡ err why
    → (destroy_snapshot name s).1 ≡ s
unfolding destroy_snapshot
destroy_snapshot-refused name s why h = ground arith

destroy_snapshot_recursive-refused :
    (name : Text) (s : State) (why : ZfsError)
    → (destroy_snapshot_recursive name s).0 ≡ err why
    → (destroy_snapshot_recursive name s).1 ≡ s
unfolding destroy_snapshot_recursive
destroy_snapshot_recursive-refused name s why h = ground arith

rollback-refused :
    (name : Text) (discard_newer : Bool) (s : State) (why : ZfsError)
    → (rollback name discard_newer s).0 ≡ err why
    → (rollback name discard_newer s).1 ≡ s
unfolding rollback
rollback-refused name discard_newer s why h = ground arith

clone_snapshot-refused :
    (now : Timestamp) (snapshot target : Text) (s : State) (why : ZfsError)
    → (clone_snapshot now snapshot target s).0 ≡ err why
    → (clone_snapshot now snapshot target s).1 ≡ s
unfolding clone_snapshot
clone_snapshot-refused now snapshot target s why h = ground arith

abbrev pub is_sets : Call → Bool
is_sets (sets name props) = true
is_sets call = false

-- A call of the driver that is refused, other than one that sets properties, leaves the state as it
-- was.
pub perform-refused :
    (float : Float) (now : Timestamp) (call : Call) (s : State) (why : ZfsError)
    → is_sets call ≡ false
    → (perform float (now, call) s).0 ≡ err why
    → (perform float (now, call) s).1 ≡ s
perform-refused float now (creates_pool spec) s why other h = create_pool-refused now spec s why h
perform-refused float now (destroys_pool name) s why other h = destroy_pool-refused name s why h
perform-refused float now (scrubs name stop) s why other h = scrub-refused now name stop s why h
perform-refused float now (creates spec) s why other h =
    create_dataset-refused float now spec s why h
perform-refused float now (sets name props) s why other h = cc
perform-refused float now (destroys name recursive) s why other h =
    destroy_dataset-refused name recursive s why h
perform-refused float now (snapshots dataset name recursive) s why other h =
    create_snapshot-refused now dataset name recursive s why h
perform-refused float now (drops name) s why other h = destroy_snapshot-refused name s why h
perform-refused float now (drops_below name) s why other h =
    destroy_snapshot_recursive-refused name s why h
perform-refused float now (rolls_back name discard_newer) s why other h =
    rollback-refused name discard_newer s why h
perform-refused float now (clones snapshot target) s why other h =
    clone_snapshot-refused now snapshot target s why h
