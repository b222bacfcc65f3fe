-- ===== src/AppService/Statuses.antt =====
-- `list_jobs_with_status` of packages/kerdoos/src/kerdoos/core/app/services.py.
use kerdoos.Prelude.{◌≡◌, refl, ap, ◌∙◌, String, List, [], ◌∷◌, map}
use kerdoos.Registry.Jobs.{DigestJob}
use kerdoos.ConfigStore.Tables.{ConfigDb, list_jobs}
use kerdoos.State.JobRuns.{JobRun}
use kerdoos.State.JobRuns.Summaries.{latest_job_runs, status_of, get-latest_job_runs}
use kerdoos.AppService.{with_status, list_jobs_with_status}

-- Each of the owner's jobs is listed with its own last row, the newest of those fired last, and the
-- latest stamp of its rows that were sent, among the rows of that owner alone; a job that was never
-- fired has none.
pub list_jobs_with_status-summary :
    (owner : String) (db : ConfigDb) (rows : List JobRun)
    → list_jobs_with_status owner db rows
      ≡ map (λ job. (job, status_of owner rows job.id)) (list_jobs owner db)
unfolding list_jobs_with_status
list_jobs_with_status-summary owner db rows = each (list_jobs owner db)
  where
    each :
        (jobs : List DigestJob)
        → map (with_status (latest_job_runs owner rows)) jobs
          ≡ map (λ job. (job, status_of owner rows job.id)) jobs
    each [] = refl
    each (job ∷ jobs) =
        ap (λ s. (job, s) ∷ map (with_status (latest_job_runs owner rows)) jobs)
          (get-latest_job_runs owner job.id rows)
        ∙ ap (λ l. (job, status_of owner rows job.id) ∷ l) (each jobs)
