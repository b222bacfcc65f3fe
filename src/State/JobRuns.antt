-- ===== src/State/JobRuns.antt =====
-- The `job_runs` table: record_job_run, update_job_run, has_active_job_run, reap_stale_job_run.
-- A new row stands in front. Instants stand for their ISO-8601 UTC texts.
pub mod Keys
pub mod Reaping
pub mod Summaries
use kerdoos.Prelude.{
  ℕ, String, Bool, true, false, ◌&&◌, Option, none, some, List, [], ◌∷◌, map, ◌==◌, nat_eq, ltb,
  if◌then◌else◌, some_in, count_in,
}
use kerdoos.Scrape.Domain.{Exc}

pub data JobStatus : Type 0 where
  queued running sent error skipped_no_email : JobStatus

-- The texts of the `error` column: `f"{type(exc).__name__}: {exc}"[:500]`, the same of a
-- `TimeoutError`, and the text that the reaper writes.
pub data RunError : Type 0 where
  formatted : Exc → RunError
  timed_out : RunError
  reaped : RunError

pub record JobRun : Type 0 where
  pub job_id : String
  pub owner_id : String
  pub window_start : ℕ
  pub fired_at : ℕ
  pub status : JobStatus
  pub sent_at : Option ℕ
  pub error : Option RunError

-- `status IN ('queued', 'running')`
abbrev pub is_active : JobStatus → Bool
is_active JobStatus.queued = true
is_active JobStatus.running = true
is_active _ = false

-- `job_id = ? AND window_start = ?`, the primary key
abbrev pub has_key : String → ℕ → JobRun → Bool
has_key job window r = (r.job_id == job) && nat_eq r.window_start window

-- INSERT … ON CONFLICT(job_id, window_start) DO NOTHING, and `rowcount == 1`
unfoldable pub record_job_run : JobRun → List JobRun → List JobRun × Bool
record_job_run run rows =
    if some_in (has_key run.job_id run.window_start) rows then (rows, false) else (run ∷ rows, true)

abbrev pub set_outcome : JobStatus → Option ℕ → Option RunError → JobRun → JobRun
set_outcome status sent_at text r = record r { status = status; sent_at = sent_at; error = text }

-- UPDATE of the rows that pass a test
unfoldable pub update_where : (JobRun → Bool) → (JobRun → JobRun) → List JobRun → List JobRun
update_where p f [] = []
update_where p f (r ∷ rs) = (if p r then f r else r) ∷ update_where p f rs

unfoldable pub update_job_run :
    String → ℕ → JobStatus → Option ℕ → Option RunError → List JobRun → List JobRun × Bool
update_job_run job window status sent_at text rows = (
  update_where (has_key job window) (set_outcome status sent_at text) rows,
  nat_eq (count_in (has_key job window) rows) 1,
)

abbrev pub is_active_of : String → String → JobRun → Bool
is_active_of owner job r = (r.owner_id == owner) && ((r.job_id == job) && is_active r.status)

unfoldable pub has_active_job_run : String → String → List JobRun → Bool
has_active_job_run owner job rows = some_in (is_active_of owner job) rows

abbrev pub is_stale : String → String → ℕ → JobRun → Bool
is_stale owner job fired_before r = is_active_of owner job r && ltb r.fired_at fired_before

abbrev pub reap_row : JobRun → JobRun
reap_row r = record r { status = JobStatus.error; error = some reaped }

unfoldable pub reap_stale_job_run : String → String → ℕ → List JobRun → List JobRun × Bool
reap_stale_job_run owner job fired_before rows = (
  update_where (is_stale owner job fired_before) reap_row rows,
  nat_eq (count_in (is_stale owner job fired_before) rows) 1,
)
