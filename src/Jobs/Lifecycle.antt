-- ===== src/Jobs/Lifecycle.antt =====
-- The life of the jobs of jobs.rs: the tasks that drive them, interleaved call by call, and restarts of
-- the daemon.
use mandrake.Common.{◌≡◌, ◌≢◌, [], Option, none, some, if◌then◌else◌, ◌==◌, All, ◌⊎◌}
use mandrake.Common.Int.{ℤ}
use mandrake.Common.Text.{Text}
use mandrake.Core.Time.{Timestamp}
use mandrake.Core.Role.{Ident}
use mandrake.Core.Problem.{Problem}
use mandrake.Jobs.{
  JobState, Job, JobRow, JobStore, JobContext, full, recover, set_state_rows, progress_rows,
  publish, insert_job,
}

-- How far the task of a job is: spawned, or at work.
pub data Phase : Type 0 where
  spawned working : Phase

abbrev pub Runners : Type 0
Runners = Ident → Option Phase

pub record World : Type 0 where
  pub store : JobStore
  pub runners : Runners

abbrev pub assign : Ident → Option Phase → Runners → Runners
assign id p runners j = if j == id then p else runners j

abbrev pub idle : Runners
idle j = none

-- One call of the database by some task, the start of a job with a new id, or a restart, which ends
-- all tasks.
pub data Step : World → World → Type 0 where
  start :
      {store : JobStore} {runners : Runners} (now : Timestamp) (ctx : JobContext)
      → All (λ r. r.job.id ≢ ctx.id) store.jobs
      → Step
          (record { store = store; runners = runners })
          (record {
            store = insert_job now ctx store;
            runners = assign ctx.id (some spawned) runners;
          })
  begin :
      {store : JobStore} {runners : Runners} (now : Timestamp) (id : Ident)
      → runners id ≡ some spawned
      → Step
          (record { store = store; runners = runners })
          (record {
            store = set_state_rows now JobState.running none id store;
            runners = assign id (some working) runners;
          })
  report :
      {store : JobStore} {runners : Runners} (id : Ident) (fraction : ℤ) (message : Text)
      → runners id ≡ some working
      → Step
          (record { store = store; runners = runners })
          (record { store = progress_rows fraction message id store; runners = runners })
  succeed :
      {store : JobStore} {runners : Runners} (now : Timestamp) (id : Ident)
      → runners id ≡ some working
      → Step
          (record { store = store; runners = runners })
          (record {
            store = set_state_rows now JobState.succeeded none id store;
            runners = assign id none runners;
          })
  fail :
      {store : JobStore} {runners : Runners} (now : Timestamp) (id : Ident) (e : Problem)
      → runners id ≡ some working
      → Step
          (record { store = store; runners = runners })
          (record {
            store = set_state_rows now JobState.failed (some e) id store;
            runners = assign id none runners;
          })
  announce :
      {store : JobStore} {runners : Runners} (at : Timestamp) (ctx : JobContext) (kind : Text)
      → Step
          (record { store = store; runners = runners })
          (record { store = publish at ctx kind store; runners = runners })
  restart :
      {store : JobStore} {runners : Runners} (now : Timestamp)
      → Step
          (record { store = store; runners = runners })
          (record { store = (recover now store).1; runners = idle })

pub data Reachable : World → Type 0 where
  empty :
      (store : JobStore) → store.jobs ≡ [] → Reachable (record { store = store; runners = idle })
  next : {v w : World} → Reachable v → Step v w → Reachable w

-- What the row of a job says while its task is in a phase, and once it has none.
abbrev pub Fits : Option Phase → Job → Type 0
Fits (some spawned) j =
    (j.state ≡ JobState.queued) × (j.started_at ≡ none) × (j.finished_at ≡ none) × (j.error ≡ none)
Fits (some working) j =
    (j.state ≡ JobState.running)
    × ((t : Timestamp) × (j.started_at ≡ some t))
    × (j.finished_at ≡ none)
    × (j.error ≡ none)
Fits none j =
    ((t : Timestamp) × (j.finished_at ≡ some t))
    × (((j.state ≡ JobState.succeeded) × (j.progress ≡ some full) × (j.error ≡ none))
        ⊎ ((j.state ≡ JobState.failed) × ((e : Problem) × (j.error ≡ some e))))

abbrev pub FitsIn : Runners → JobRow → Type 0
FitsIn runners r = Fits (runners r.job.id) r.job

abbrev pub Consistent : World → Type 0
Consistent w = All (FitsIn w.runners) w.store.jobs
