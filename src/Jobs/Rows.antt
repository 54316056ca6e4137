-- ===== src/Jobs/Rows.antt =====
-- The rows that the calls of jobs.rs leave.
use mandrake.Common.{◌≡◌, Bool, List, [], ◌∷◌, some, arith, find?, if◌then◌else◌}
use mandrake.Common.Table.{update_where}
use mandrake.Common.Text.{Text}
use mandrake.Core.Time.{Timestamp}
use mandrake.Core.Role.{Ident}
use mandrake.Jobs.{JobRow, JobStore, JobContext, has_job_id, publish}

pub find-update :
    (id : Ident) (p : JobRow → Bool) (f : JobRow → JobRow) (rs : List JobRow) (r : JobRow)
    → ((x : JobRow) → (f x).job.id ≡ x.job.id)
    → find? (has_job_id id) rs ≡ some r
    → find? (has_job_id id) (update_where p f rs) ≡ some (if p r then f r else r)
find-update id p f [] r same h = cc
find-update id p f (x ∷ xs) r same h = ground (arith, same x, find-update id p f xs r same)

pub found_id :
    (id : Ident) (rs : List JobRow) (r : JobRow) → find? (has_job_id id) rs ≡ some r → r.job.id ≡ id
found_id id [] r h = cc
found_id id (x ∷ xs) r h = ground (arith, found_id id xs r)

pub publish-jobs :
    (at : Timestamp) (ctx : JobContext) (kind : Text) (s : JobStore)
    → (publish at ctx kind s).jobs ≡ s.jobs
unfolding publish
publish-jobs at ctx kind s = ground arith
