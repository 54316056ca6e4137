-- ===== src/Jobs/Invariant.antt =====
-- What the rows of the jobs of jobs.rs say, in every state that is reached.
use mandrake.Common.{
  ℕ, ◌≡◌, ◌≢◌, refl, ap, ◌∙◌, Bool, true, false, ◌&&◌, List, [], ◌∷◌, Option, none, some, arith,
  if◌then◌else◌, ◌==◌, All, Bool-cases, inl, inr, subst,
}
use mandrake.Common.Int.{ℤ}
use mandrake.Common.Table.{update_where, insert_row}
use mandrake.Common.Text.{Text}
use mandrake.Core.Time.{Timestamp}
use mandrake.Core.Role.{Ident}
use mandrake.Jobs.{
  JobState, Job, JobRow, JobStore, has_job_id, is_running, is_unfinished, write_state, recover,
  set_state_rows, progress_rows, insert_job, clamp, update_jobs, interrupted, interrupt,
  write_progress,
}
use mandrake.Jobs.Rows.{publish-jobs}
use mandrake.Jobs.Lifecycle.{
  Phase, spawned, working, Runners, World, assign, idle, Step, start, begin, report, succeed, fail,
  announce, restart, Reachable, empty, next, Fits, FitsIn, Consistent,
}

All-update :
    (P Q : JobRow → Type 0) (p : JobRow → Bool) (f : JobRow → JobRow)
    → ((r : JobRow) → P r → Q (if p r then f r else r))
    → (rs : List JobRow) → All P rs
    → All Q (update_where p f rs)
All-update P Q p f h [] a = tt
All-update P Q p f h (r ∷ rs) a = (h r a.0, All-update P Q p f h rs a.1)

All-insert :
    (P : JobRow → Type 0) (r : JobRow) (rs : List JobRow) → P r → All P rs → All P (insert_row r rs)
All-insert P r [] h a = (h, tt)
All-insert P r (x ∷ xs) h a = (a.0, All-insert P r xs h a.1)

All-rows :
    (P Q R : JobRow → Type 0)
    → ((r : JobRow) → P r → Q r → R r)
    → (rs : List JobRow) → All P rs
    → All Q rs
    → All R rs
All-rows P Q R h [] a b = tt
All-rows P Q R h (r ∷ rs) a b = (h r a.0 b.0, All-rows P Q R h rs a.1 b.1)

-- A call of one task changes its own row, and that task's phase.
row_step :
    (runners : Runners) (id : Ident) (p : Option Phase) (f : Job → Job)
    → ((j : Job) → (f j).id ≡ j.id)
    → ((j : Job) → Fits (runners id) j → Fits p (f j))
    → (r : JobRow) → FitsIn runners r
    → FitsIn (assign id p runners) (if has_job_id id r then record r { job = f r.job } else r)
row_step runners id p f same h r a = elim (Bool-cases (r.job.id == id)) [
  | inl e ↦
      let own : r.job.id ≡ id = ground arith in
      let still : (f r.job).id == id ≡ true = ap (λ i. i == id) (same r.job) ∙ e in
      rw (e, still) (h r.job (subst (λ i. Fits (runners i) r.job) own a))
  | inr e ↦ rw (e, e) a
]

call_step :
    (runners : Runners) (id : Ident) (p : Option Phase) (f : Job → Job)
    → ((j : Job) → (f j).id ≡ j.id)
    → ((j : Job) → Fits (runners id) j → Fits p (f j))
    → (s : JobStore) → All (FitsIn runners) s.jobs
    → All (FitsIn (assign id p runners)) (update_jobs (has_job_id id) f s).jobs
call_step runners id p f same h s a =
    All-update (FitsIn runners) (FitsIn (assign id p runners)) (has_job_id id)
      (λ r. record r { job = f r.job }) (row_step runners id p f same h) s.jobs a

begin-Fits :
    (now : Timestamp) (ph : Option Phase) (j : Job)
    → ph ≡ some spawned
    → Fits ph j
    → Fits (some working) (write_state now JobState.running none j)
begin-Fits now none j e a = cc
begin-Fits now (some spawned) j e a = (refl, (now, refl), a.2, a.3)
begin-Fits now (some working) j e a = absurd (ground arith)

succeed-Fits :
    (now : Timestamp) (ph : Option Phase) (j : Job)
    → ph ≡ some working
    → Fits ph j
    → Fits none (write_state now JobState.succeeded none j)
succeed-Fits now none j e a = cc
succeed-Fits now (some spawned) j e a = absurd (ground arith)
succeed-Fits now (some working) j e a = ((now, refl), inl (refl, refl, a.3))

report-Fits :
    (n : ℕ) (message : Text) (ph : Option Phase) (j : Job)
    → is_running j.state ≡ true
    → Fits ph j
    → Fits ph (record j { progress = some n; message = some message })
report-Fits n message none j e (t, inl (s, k, l)) = absurd (ground arith)
report-Fits n message none j e (t, inr (s, k)) = absurd (ground arith)
report-Fits n message (some spawned) j e a = a
report-Fits n message (some working) j e a = a

recovered-Fits :
    (ph : Option Phase) (j : Job) → is_unfinished j.state ≡ false → Fits ph j → Fits none j
recovered-Fits none j e a = a
recovered-Fits (some spawned) j e a = absurd (ground arith)
recovered-Fits (some working) j e a = absurd (ground arith)

report_step :
    (runners : Runners) (id : Ident) (fraction : ℤ) (message : Text) (r : JobRow)
    → FitsIn runners r
    → FitsIn runners (
        if has_job_id id r && is_running r.job.state
        then record r { job = write_progress fraction message r.job }
        else r)
report_step runners id fraction message r a =
    elim (Bool-cases (has_job_id id r && is_running r.job.state)) [
      | inl e ↦
          rw e (report-Fits (clamp fraction) message (runners r.job.id) r.job (ground arith) a)
      | inr e ↦ rw e a
    ]

restart_step :
    (runners : Runners) (now : Timestamp) (r : JobRow)
    → FitsIn runners r
    → FitsIn idle (if is_unfinished r.job.state then record r { job = interrupt now r.job } else r)
restart_step runners now r a = elim (Bool-cases (is_unfinished r.job.state)) [
  | inl e ↦ rw e ((now, refl), inr (refl, (interrupted, refl)))
  | inr e ↦ rw e (recovered-Fits (runners r.job.id) r.job e a)
]

same_id : (id : Ident) → (id == id) ≡ true
same_id id = ground arith

start_step :
    (runners : Runners) (id : Ident) (p : Option Phase) (rs : List JobRow)
    → All (λ r. r.job.id ≢ id) rs
    → All (FitsIn runners) rs
    → All (FitsIn (assign id p runners)) rs
start_step runners id p = All-rows _ _ _ (λ r new a. rw (other r new) a)
  where
    other : (r : JobRow) → r.job.id ≢ id → (r.job.id == id) ≡ false
    other r new = ground arith

pub Step-Consistent : {v w : World} → Step v w → Consistent v → Consistent w
unfolding insert_job set_state_rows progress_rows recover
Step-Consistent (start {store} {runners} now ctx new) a =
    All-insert _ _ store.jobs (rw (same_id ctx.id) (refl, refl, refl, refl))
      (start_step runners ctx.id (some spawned) store.jobs new a)
Step-Consistent (begin {store} {runners} now id h) a =
    call_step runners id (some working) (write_state now JobState.running none) (λ j. refl)
      (λ j. begin-Fits now (runners id) j h) store a
Step-Consistent (report {store} {runners} id fraction message h) a =
    All-update (FitsIn runners) (FitsIn runners) (λ r. has_job_id id r && is_running r.job.state)
      (λ r. record r { job = write_progress fraction message r.job })
      (report_step runners id fraction message) store.jobs a
Step-Consistent (succeed {store} {runners} now id h) a =
    call_step runners id none (write_state now JobState.succeeded none) (λ j. refl)
      (λ j. succeed-Fits now (runners id) j h) store a
Step-Consistent (fail {store} {runners} now id e h) a =
    call_step runners id none (write_state now JobState.failed (some e)) (λ j. refl)
      (λ j a. ((now, refl), inr (refl, (e, refl)))) store a
Step-Consistent (announce {store} {runners} at ctx kind) a = rw (publish-jobs at ctx kind store) a
Step-Consistent (restart {store} {runners} now) a =
    All-update (FitsIn runners) (FitsIn idle) (λ r. is_unfinished r.job.state)
      (λ r. record r { job = interrupt now r.job }) (restart_step runners now) store.jobs a

-- In every state that the daemon reaches, by any interleaving of the calls of its tasks and any number
-- of restarts, the row of a job says where its task is: queued, or running since some time, without
-- an end or an error; and where it has no task any more, it has ended at some time, either succeeded,
-- with its progress full and no error, or failed, with an error.
pub Reachable-Consistent : {w : World} → Reachable w → Consistent w
Reachable-Consistent (empty store none_yet) = rw none_yet tt
Reachable-Consistent (next r s) = Step-Consistent s (Reachable-Consistent r)
