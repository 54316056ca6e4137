-- ===== src/Jobs/Run.antt =====
-- How the task of a job of jobs.rs ends.
use mandrake.Common.{
  ℕ, suc, ◌≡◌, refl, ap, ◌∙◌, true, ◌&&◌, List, [], ◌∷◌, ◌++◌, Option, none, some, arith, find?,
  last?, Option-cases, inl, inr,
}
use mandrake.Common.Int.{ℤ, pos}
use mandrake.Common.Text.{Text, codes}
use mandrake.Core.Time.{Timestamp}
use mandrake.Core.Role.{Ident}
use mandrake.Core.Problem.{Problem}
use mandrake.Jobs.{
  JobState, Job, JobRow, JobStore, JobContext, Event, Outcome, done, failure, full, has_job_id,
  is_running, find_job, write_state, write_progress, set_state_rows, progress_rows, publish,
  set_state, progress, finish_job, state_str,
}
use mandrake.Jobs.Rows.{find-update, found_id, publish-jobs}

-- What an outcome makes of a running job.
abbrev pub ended : Timestamp → Outcome → Job → Job
ended now (done message) j = record j {
  state = JobState.succeeded;
  progress = some full;
  message = some message;
  finished_at = some now;
}
ended now (failure e) j = record j {
  state = JobState.failed;
  finished_at = some now;
  error = some e;
}

abbrev pub end_kind : Outcome → Text
end_kind (done message) = codes "job." ++ codes "succeeded"
end_kind (failure e) = codes "job." ++ codes "failed"

last-append : {A : Type 0} (xs : List A) (x : A) → last? (xs ++ x ∷ []) ≡ some x
last-append [] x = refl
last-append (y ∷ []) x = refl
last-append (y ∷ z ∷ xs) x = last-append (z ∷ xs) x

write_state-id :
    (now : Timestamp) (state : JobState) (error : Option Problem) (j : Job)
    → (write_state now state error j).id ≡ j.id
write_state-id now JobState.queued error j = refl
write_state-id now JobState.running error j = refl
write_state-id now JobState.succeeded error j = refl
write_state-id now JobState.failed error j = refl
write_state-id now JobState.cancelled error j = refl

row_of_job :
    (id : Ident) (s : JobStore) (j : Job)
    → find_job id s ≡ some j
    → (r : JobRow) × (find? (has_job_id id) s.jobs ≡ some r) × (r.job ≡ j) × (r.job.id ≡ id)
row_of_job id s j h = elim (Option-cases (find? (has_job_id id) s.jobs)) [
  | inl e ↦ absurd (ground arith)
  | inr (r, e) ↦ (r, e, ground arith, found_id id s.jobs r e)
]

abbrev pub published_as : ℕ → Timestamp → JobContext → Text → Job → Event
published_as id at ctx kind j = record {
  id = id;
  at = at;
  kind = kind;
  object = record { kind = codes "job"; id = some ctx.id; name = some ctx.kind };
  actor = ctx.actor;
  payload = j;
}

publish-appends :
    (at : Timestamp) (ctx : JobContext) (kind : Text) (s : JobStore) (j : Job)
    → find_job ctx.id s ≡ some j
    → (publish at ctx kind s).published
      ≡ s.published ++ published_as (suc s.last_event) at ctx kind j ∷ []
unfolding publish
publish-appends at ctx kind s j h = ground arith

publish-published :
    (at : Timestamp) (ctx : JobContext) (kind : Text) (s : JobStore) (j : Job)
    → find_job ctx.id s ≡ some j
    → (id : ℕ) × (last? (publish at ctx kind s).published ≡ some (published_as id at ctx kind j))
unfolding publish
publish-published at ctx kind s j h = (
  suc s.last_event,
  ap last? (publish-appends at ctx kind s j h)
      ∙ last-append s.published (published_as (suc s.last_event) at ctx kind j),
)

state_rows-found :
    (now : Timestamp) (state : JobState) (error : Option Problem) (id : Ident) (s : JobStore)
    (j : Job)
    → find_job id s ≡ some j
    → find_job id (set_state_rows now state error id s) ≡ some (write_state now state error j)
unfolding set_state_rows
state_rows-found now state error id s j h =
    let (r, found, same, own) = row_of_job id s j h in
    ground (
      arith,
      find-update id (has_job_id id) (λ x. record x { job = write_state now state error x.job })
          s.jobs r (λ x. write_state-id now state error x.job) found,
    )

progress-found :
    (now : Timestamp) (ctx : JobContext) (fraction : ℤ) (message : Text) (s : JobStore) (j : Job)
    → find_job ctx.id s ≡ some j
    → is_running j.state ≡ true
    → find_job ctx.id (progress now ctx fraction message s)
      ≡ some (write_progress fraction message j)
unfolding progress progress_rows
progress-found now ctx fraction message s j h run =
    let (r, found, same, own) = row_of_job ctx.id s j h in
    rw (publish-jobs now ctx _ (progress_rows fraction message ctx.id s)) (
      ground (
        arith,
        find-update ctx.id (λ r. has_job_id ctx.id r && is_running r.job.state)
            (λ x. record x { job = write_progress fraction message x.job }) s.jobs r (λ x. refl)
            found,
      ))

set_state-found :
    (now : Timestamp) (ctx : JobContext) (state : JobState) (error : Option Problem) (s : JobStore)
    (j : Job)
    → find_job ctx.id s ≡ some j
    → (find_job ctx.id (set_state now ctx state error s) ≡ some (write_state now state error j))
      × ((id : ℕ) × (last? (set_state now ctx state error s).published
            ≡ some (
                published_as id now ctx
                  (codes "job." ++ state_str state)
                  (write_state now state error j))))
unfolding set_state
set_state-found now ctx state error s j h =
    let written = state_rows-found now state error ctx.id s j h in
    (
      rw
          (publish-jobs now ctx (codes "job." ++ state_str state)
            (set_state_rows now state error ctx.id s))
          written,
      publish-published now ctx (codes "job." ++ state_str state)
          (set_state_rows now state error ctx.id s) (write_state now state error j) written,
    )

-- A running job that ends has what its outcome makes of it, succeeded with its message and full
-- progress or failed with its error, and the last event that is published says so.
pub finish_job_lem :
    (now : Timestamp) (ctx : JobContext) (outcome : Outcome) (s : JobStore) (j : Job)
    → find_job ctx.id s ≡ some j
    → is_running j.state ≡ true
    → (find_job ctx.id (finish_job now ctx outcome s) ≡ some (ended now outcome j))
      × ((id : ℕ) × (last? (finish_job now ctx outcome s).published
            ≡ some (published_as id now ctx (end_kind outcome) (ended now outcome j))))
unfolding finish_job
finish_job_lem now ctx (failure e) s j h run =
    set_state-found now ctx JobState.failed (some e) s j h
finish_job_lem now ctx (done message) s j h run =
    set_state-found now ctx JobState.succeeded none (progress now ctx (pos full) message s)
      (write_progress (pos full) message j) (progress-found now ctx (pos full) message s j h run)
