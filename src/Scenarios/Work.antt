-- ===== src/Scenarios/Work.antt =====
-- The theorems on jobs, at one job.
use mandrake.Common.{◌≡◌, refl, [], none, some}
use mandrake.Common.Int.{pos}
use mandrake.Common.Text.{codes}
use mandrake.Core.Problem.{new, with_detail}
use mandrake.Core.Role.{Ident}
use mandrake.Jobs.{
  JobState, Job, JobStore, JobContext, find_job, recover, insert_job, set_state_rows, progress_rows,
}
use mandrake.Jobs.Lifecycle.{
  Phase, spawned, working, assign, World, start, begin, report, restart, Reachable, empty, next,
  Consistent, idle,
}
use mandrake.Jobs.Invariant.{Reachable-Consistent}
use mandrake.Jobs.Recovery.{recover-Reachable}

abbrev nothing : JobStore
nothing = record { jobs = []; last_seq = 0; events = []; last_event = 0; published = [] }

abbrev ctx : JobContext
ctx = record { id = 4; kind = codes "image.download"; target = none; actor = none }

-- A job is started, begins and reports.
abbrev half_done : World
half_done = record {
  store =
      progress_rows (pos 500000) (codes "half") 4
        (set_state_rows 2 JobState.running none 4 (insert_job 1 ctx nothing));
  runners = assign 4 (some working) (assign 4 (some spawned) idle);
}

half_done-Reachable : Reachable half_done
half_done-Reachable =
    next (next (next (empty nothing refl) (start 1 ctx tt)) (begin 2 4 refl))
      (report 4 (pos 500000) (codes "half") refl)

recover-Reachable_example :
    ((id : Ident) (j : Job)
      → find_job id half_done.store ≡ some j
      → ((p : Phase)
          → half_done.runners id ≡ some p
          → find_job id (recover 5 half_done.store).1
            ≡ some (record j {
              state = JobState.failed;
              finished_at = some 5;
              error = some (
                  with_detail
                    (new 500 (codes "Interrupted"))
                    (codes "the daemon restarted while this job was running"));
            }))
        × (half_done.runners id ≡ none → find_job id (recover 5 half_done.store).1 ≡ some j))
    × (recover 6 (recover 5 half_done.store).1 ≡ (0, (recover 5 half_done.store).1))
recover-Reachable_example = recover-Reachable 5 6 half_done-Reachable

-- Then the daemon restarts.
abbrev cut_short : World
cut_short = record {
  store =
      (recover 4 (
        progress_rows (pos 500000) (codes "half") 4
          (set_state_rows 2 JobState.running none 4 (insert_job 1 ctx nothing)))).1;
  runners = idle;
}

cut_short-Reachable : Reachable cut_short
cut_short-Reachable = next half_done-Reachable (restart 4)

Reachable-Consistent_example : Consistent cut_short
Reachable-Consistent_example = Reachable-Consistent cut_short-Reachable
