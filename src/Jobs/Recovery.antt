-- ===== src/Jobs/Recovery.antt =====
-- `recover` of jobs.rs, at the start of the daemon.
use mandrake.Common.{
  ◌≡◌, refl, sym, ap, ◌∙◌, true, false, none, All, Bool-cases, subst, Bool, List, [], ◌∷◌, some,
  arith, find?, if◌then◌else◌, count_if, Option-cases, inl, inr,
}
use mandrake.Common.Table.{update_where}
use mandrake.Core.Time.{Timestamp}
use mandrake.Core.Role.{Ident}
use mandrake.Jobs.{
  JobState, Job, JobRow, JobStore, has_job_id, is_unfinished, find_job, interrupt, recover,
}
use mandrake.Core.Problem.{new, with_detail}
use mandrake.Common.Text.{codes}
use mandrake.Jobs.Lifecycle.{Phase, spawned, working, World, Reachable, Fits}
use mandrake.Jobs.Invariant.{Reachable-Consistent}
use mandrake.Jobs.Rows.{find-update}

abbrev unfinished : JobRow → Bool
unfinished r = is_unfinished r.job.state

abbrev cut : Timestamp → JobRow → JobRow
cut now r = record r { job = interrupt now r.job }

none_left :
    (now : Timestamp) (rs : List JobRow)
    → count_if unfinished (update_where unfinished (cut now) rs) ≡ 0
none_left now [] = refl
none_left now (r ∷ rs) = ground (arith, none_left now rs)

none_changed :
    (f : JobRow → JobRow) (rs : List JobRow)
    → count_if unfinished rs ≡ 0
    → update_where unfinished f rs ≡ rs
none_changed f [] h = refl
none_changed f (r ∷ rs) h = ground (arith, none_changed f rs)

recovered_row :
    (now : Timestamp) (s : JobStore) (id : Ident) (r : JobRow)
    → find? (has_job_id id) s.jobs ≡ some r
    → find_job id (recover now s).1
      ≡ some (if is_unfinished r.job.state then interrupt now r.job else r.job)
unfolding recover
recovered_row now s id r e =
    ground (arith, find-update id unfinished (cut now) s.jobs r (λ x. refl) e)

recover_again :
    (now later : Timestamp) (s : JobStore)
    → recover later (recover now s).1 ≡ (0, (recover now s).1)
unfolding recover
recover_again now later s = ground (
  arith,
  none_left now s.jobs,
  none_changed (cut later) (update_where unfinished (cut now) s.jobs),
)

-- What holds of all rows holds of the one that is found.
All-find? :
    (P : JobRow → Type 0) (p : JobRow → Bool) (rs : List JobRow) (r : JobRow)
    → All P rs
    → find? p rs ≡ some r
    → P r × (p r ≡ true)
All-find? P p [] r a h = cc
All-find? P p (x ∷ rs) r a h = elim (Bool-cases (p x)) [
  | inl e ↦ let same : x ≡ r = ground arith in (subst P same a.0, ap p (sym same) ∙ e)
  | inr e ↦ All-find? P p rs r a.1 (ground arith)
]

Fits-unfinished : (p : Phase) (j : Job) → Fits (some p) j → is_unfinished j.state ≡ true
Fits-unfinished spawned j f = ground arith
Fits-unfinished working j f = ground arith

Fits-finished : (j : Job) → Fits none j → is_unfinished j.state ≡ false
Fits-finished j (t, inl done) = ground arith
Fits-finished j (t, inr failed) = ground arith

find_job-row :
    (id : Ident) (s : JobStore) (j : Job)
    → find_job id s ≡ some j
    → (r : JobRow) × (find? (has_job_id id) s.jobs ≡ some r) × (r.job ≡ j)
find_job-row id s j h = elim (Option-cases (find? (has_job_id id) s.jobs)) [
  | inl e ↦ absurd (ground arith)
  | inr (r, e) ↦ (r, e, ground arith)
]

-- In every state that the daemon reaches, a restart fails each job that has a task, with the time
-- and the error that it was interrupted and all else as it was, and leaves each job without one as
-- it was; and a second restart changes nothing.
pub recover-Reachable :
    {w : World} (now later : Timestamp)
    → Reachable w
    → ((id : Ident) (j : Job)
        → find_job id w.store ≡ some j
        → ((p : Phase)
            → w.runners id ≡ some p
            → find_job id (recover now w.store).1
              ≡ some (record j {
                state = JobState.failed;
                finished_at = some now;
                error = some (
                    with_detail
                      (new 500 (codes "Interrupted"))
                      (codes "the daemon restarted while this job was running"));
              }))
          × (w.runners id ≡ none → find_job id (recover now w.store).1 ≡ some j))
      × (recover later (recover now w.store).1 ≡ (0, (recover now w.store).1))
recover-Reachable {w} now later reached = (
  λ id j found.
      let (r, row, same) = find_job-row id w.store j found in
      let (fits, own) = All-find? _ _ w.store.jobs r (Reachable-Consistent reached) row in
      let mine : Fits (w.runners id) r.job =
        subst (λ i. Fits (w.runners i) r.job) (job_id id r own) fits in
      (
        λ p e.
            recovered_row now w.store id r row
            ∙ rw (Fits-unfinished p r.job (subst (λ q. Fits q r.job) e mine))
                (ap (λ k. some (interrupt now k)) same),
        λ e.
            recovered_row now w.store id r row
            ∙ rw (Fits-finished r.job (subst (λ q. Fits q r.job) e mine)) (ap some same),
      ),
  recover_again now later w.store,
)
  where
    job_id : (id : Ident) (r : JobRow) → has_job_id id r ≡ true → r.job.id ≡ id
    job_id id r h = ground arith
