-- ===== src/Jobs.antt =====
-- crates/mandraked/src/jobs.rs: background jobs. A step is one call of the database; the time that a
-- call reads is its argument. Fractions are counted in millionths.
pub mod Rows
pub mod Lifecycle
pub mod Invariant
pub mod Recovery
pub mod Run
use mandrake.Common.{
  ℕ, suc, ◌+◌, ◌*◌, Bool, true, false, ◌&&◌, List, [], ◌∷◌, ◌++◌, Option, none, some, find?,
  if◌then◌else◌, ◌==◌, count_if, min,
}
use mandrake.Common.Int.{ℤ, pos, negsuc}
use mandrake.Common.Table.{update_where, insert_row}
use mandrake.Common.Text.{Text, codes}
use mandrake.Core.Time.{Timestamp}
use mandrake.Core.Role.{Ident, Actor}
use mandrake.Core.Problem.{Problem, new, with_detail}
use mandrake.Daemon.Store.{ObjectRef}

pub data JobState : Type 0 where
  queued running succeeded failed cancelled : JobState

pub record Job : Type 0 where
  pub id : Ident
  pub state : JobState
  pub kind : Text
  pub target : Option ObjectRef
  pub progress : Option ℕ
  pub message : Option Text
  pub created_at : Timestamp
  pub started_at : Option Timestamp
  pub finished_at : Option Timestamp
  pub error : Option Problem

-- A row of `jobs`: what `from_row` reads of it.
pub record JobRow : Type 0 where
  pub seq : ℕ
  pub job : Job

-- A row of `events`, and what is published with it.
pub record EventRow : Type 0 where
  pub id : ℕ
  pub at : Timestamp
  pub kind : Text
  pub object_id : Ident
  pub object_name : Option Text
  pub actor : Option Actor
  pub payload : Job

pub record Event : Type 0 where
  pub id : ℕ
  pub at : Timestamp
  pub kind : Text
  pub object : ObjectRef
  pub actor : Option Actor
  pub payload : Job

-- The tables that jobs write, and what the event bus has carried.
pub record JobStore : Type 0 where
  pub jobs : List JobRow
  pub last_seq : ℕ
  pub events : List EventRow
  pub last_event : ℕ
  pub published : List Event

pub record JobContext : Type 0 where
  pub id : Ident
  pub kind : Text
  pub target : Option ObjectRef
  pub actor : Option Actor

-- `1.0`
abbrev pub full : ℕ
full = 1000000

-- `fraction.clamp(0.0, 1.0)`
abbrev pub clamp : ℤ → ℕ
clamp (pos n) = min n full
clamp (negsuc n) = 0

abbrev pub is_running : JobState → Bool
is_running JobState.running = true
is_running _ = false

-- `state IN ('queued', 'running')`
abbrev pub is_unfinished : JobState → Bool
is_unfinished JobState.queued = true
is_unfinished JobState.running = true
is_unfinished _ = false

abbrev pub state_str : JobState → Text
state_str JobState.queued = codes "queued"
state_str JobState.running = codes "running"
state_str JobState.succeeded = codes "succeeded"
state_str JobState.failed = codes "failed"
state_str JobState.cancelled = codes "cancelled"

abbrev pub has_job_id : Ident → JobRow → Bool
has_job_id id r = r.job.id == id

abbrev pub find_job : Ident → JobStore → Option Job
find_job id s = elim (find? (has_job_id id) s.jobs) [ none ↦ none | some r ↦ some r.job ]

-- `UPDATE jobs SET … WHERE …`
abbrev pub update_jobs : (JobRow → Bool) → (Job → Job) → JobStore → JobStore
update_jobs p f s = record s { jobs = update_where p (λ r. record r { job = f r.job }) s.jobs }

abbrev pub interrupted : Problem
interrupted =
    with_detail (new 500 (codes "Interrupted"))
      (codes "the daemon restarted while this job was running")

abbrev pub interrupt : Timestamp → Job → Job
interrupt now j = record j {
  state = JobState.failed;
  finished_at = some now;
  error = some interrupted;
}

-- How many rows were changed, and the rows.
unfoldable pub recover : Timestamp → JobStore → ℕ × JobStore
recover now s = (
  count_if (λ r. is_unfinished r.job.state) s.jobs,
  update_jobs (λ r. is_unfinished r.job.state) (interrupt now) s,
)

-- The columns that `set_state` writes.
abbrev pub write_state : Timestamp → JobState → Option Problem → Job → Job
write_state now JobState.running error j = record j {
  state = JobState.running;
  started_at = some now;
}
write_state now JobState.succeeded error j = record j {
  state = JobState.succeeded;
  progress = some full;
  finished_at = some now;
}
write_state now state error j = record j { state = state; finished_at = some now; error = error }

abbrev pub write_progress : ℤ → Text → Job → Job
write_progress fraction message j = record j {
  progress = some (clamp fraction);
  message = some message;
}

-- The call of `set_state`, and that of `progress`.
unfoldable pub set_state_rows : Timestamp → JobState → Option Problem → Ident → JobStore → JobStore
set_state_rows now state error id = update_jobs (has_job_id id) (write_state now state error)

unfoldable pub progress_rows : ℤ → Text → Ident → JobStore → JobStore
progress_rows fraction message id =
    update_jobs (λ r. has_job_id id r && is_running r.job.state) (write_progress fraction message)

abbrev target_name : JobContext → Option Text
target_name ctx = elim ctx.target [ none ↦ none | some t ↦ t.name ]

-- The event of a job that is gone is not published.
unfoldable pub publish : Timestamp → JobContext → Text → JobStore → JobStore
publish at ctx kind s = elim (find_job ctx.id s) [
  | none ↦ s
  | some job ↦ record s {
    events =
        insert_row
          (record {
            id = suc s.last_event;
            at = at;
            kind = kind;
            object_id = ctx.id;
            object_name = target_name ctx;
            actor = ctx.actor;
            payload = job;
          })
          s.events;
    last_event = suc s.last_event;
    published =
        insert_row
          (record {
            id = suc s.last_event;
            at = at;
            kind = kind;
            object = record { kind = codes "job"; id = some ctx.id; name = some ctx.kind };
            actor = ctx.actor;
            payload = job;
          })
          s.published;
  }
]

unfoldable pub set_state : Timestamp → JobContext → JobState → Option Problem → JobStore → JobStore
set_state now ctx state error s =
    publish now ctx (codes "job." ++ state_str state) (set_state_rows now state error ctx.id s)

unfoldable pub progress : Timestamp → JobContext → ℤ → Text → JobStore → JobStore
progress now ctx fraction message s =
    publish now ctx (codes "job.progress") (progress_rows fraction message ctx.id s)

-- The row that `start_job` inserts; its id is drawn by the caller.
unfoldable pub insert_job : Timestamp → JobContext → JobStore → JobStore
insert_job now ctx s = record s {
  jobs =
      insert_row
        (record {
          seq = suc s.last_seq;
          job = record {
            id = ctx.id;
            state = JobState.queued;
            kind = ctx.kind;
            target = ctx.target;
            progress = none;
            message = none;
            created_at = now;
            started_at = none;
            finished_at = none;
            error = none;
          };
        })
        s.jobs;
  last_seq = suc s.last_seq;
}

-- What the work came to: `ApiResult<String>`.
pub data Outcome : Type 0 where
  done : Text → Outcome
  failure : Problem → Outcome

-- The two ends of the spawned task, with the work between them.
unfoldable pub begin_job : Timestamp → JobContext → JobStore → JobStore
begin_job now ctx = set_state now ctx JobState.running none

unfoldable pub finish_job : Timestamp → JobContext → Outcome → JobStore → JobStore
finish_job now ctx (done message) s =
    set_state now ctx JobState.succeeded none (progress now ctx (pos full) message s)
finish_job now ctx (failure e) s = set_state now ctx JobState.failed (some e) s
