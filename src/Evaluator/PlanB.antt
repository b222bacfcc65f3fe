-- ===== src/Evaluator/PlanB.antt =====
-- `_collect_job_digest` and `_run_plan_b`: the notification of each job.
pub mod Records
pub mod Digest
pub mod ExactlyOnce
use kerdoos.Prelude.{
  ℕ, suc, ◌+◌, String, Bool, true, false, not, ◌&&◌, Option, none, some, List, [], ◌∷◌, ◌++◌, ◌==◌,
  if◌then◌else◌,
}
use kerdoos.Scrape.Domain.{Exc, Outcome, returned, raised, ScrapeRecord}
use kerdoos.Registry.{Entry}
use kerdoos.State.JobRuns.{
  JobRun, JobStatus, RunError, record_job_run, update_job_run, has_active_job_run,
}
use kerdoos.State.Scrapes.{history}
use kerdoos.Evaluator.Executor.{executor_can_submit, executor_rotate}
use kerdoos.Evaluator.Warnings.{should_warn}
use kerdoos.Evaluator.World.{
  Job, Reply, answered, failed, timed_out, Sent, Env, World, Exec, Done, pure, lift, ◌>>=◌, ◌>>◌,
  catch, modify, gets, store_call, add_notified, add_skipped, add_error, for_each,
}

-- `source_index.get(owner, {}).get(source_id)`
abbrev pub Index : Type 0
Index = String → String → Option Entry

abbrev pub label_of : Option Entry → Option String
label_of none = none
label_of (some e) = e.site.tier2_label

-- `if … .tier2_label:` takes a label that is neither None nor empty.
abbrev pub with_label : String → Option String → List (String × String) → List (String × String)
with_label s none labels = labels
with_label s (some l) labels = if l == "" then labels else (s, l) ∷ labels

abbrev pub with_first : List ScrapeRecord → List ScrapeRecord → List ScrapeRecord
with_first [] rest = rest
with_first (r ∷ rs) rest = r ∷ rest

module _ (env : Env) where
  unfoldable pub history_call : String → String → Exec (List ScrapeRecord)
  history_call owner s = store_call env (λ w. (history owner s 1 w.scrapes, w))

  collect_sources : Index → String → List String → Exec (List ScrapeRecord × List (String × String))
  unfolding history_call
  collect_sources index owner [] = pure ([], [])
  collect_sources index owner (s ∷ ss) = do
    latest ← history_call owner s
    (records, labels) ← collect_sources index owner ss
    pure (with_first latest records, with_label s (label_of (index owner s)) labels)

  collect_job_digest : Index → Job → Exec (List ScrapeRecord × List (String × String))
  unfolding collect_sources
  collect_job_digest index job = collect_sources index job.owner_id job.source_ids

  pub has_active : Job → Exec Bool
  has_active job = store_call env (λ w. (has_active_job_run job.owner_id job.id w.job_runs, w))

  pub record_run : JobRun → Exec Bool
  record_run run = store_call env λ w.
      let (rows, fresh) = record_job_run run w.job_runs in (fresh, record w { job_runs = rows })

  pub update_run : String → ℕ → JobStatus → Option ℕ → Option RunError → Exec Bool
  update_run job window status sent_at text = store_call env λ w.
      let (rows, found) = update_job_run job window status sent_at text w.job_runs in
      (found, record w { job_runs = rows })

  -- `empty_digest_warnings.should_warn(…)`; the log line itself is left out.
  pub warn_empty : String → ℕ → ℕ → Exec Done
  warn_empty job window now =
      modify (λ w. record w { warned = (should_warn env.warning_ttl job window now w.warned).0 })

  pub can_send : Exec Bool
  can_send w =
      let (executor, answer) = executor_can_submit (env.is_done w.looks) w.executor in
      (returned answer, record w { executor = executor; looks = suc w.looks })

  pub rotate_executor : Option ℕ → Exec Done
  rotate_executor orphan = modify λ w. record w {
    executor = executor_rotate (env.is_done w.looks) orphan w.executor;
    looks = suc w.looks;
  }

  -- `submit` and the awaited answer. The result is the reply and the future of the send.
  pub submit : Sent → Exec (Reply × ℕ)
  submit sent w = (
    returned (env.reply w.submitted, w.submitted),
    record w { sends = sent ∷ w.sends; submitted = suc w.submitted },
  )

  -- What follows the send: the two `except` branches, and the branches on `sent`.
  pub settle : String → ℕ → ℕ → Reply × ℕ → Exec Done
  unfolding update_run rotate_executor
  settle job window now (answered true, future) = do
    update_run job window JobStatus.sent (some now) none
    modify add_notified
  settle job window now (answered false, future) = do
    update_run job window JobStatus.skipped_no_email none none
    modify add_skipped
  settle job window now (failed e, future) = do
    update_run job window JobStatus.error none (some (RunError.formatted e))
    modify add_error
  settle job window now (timed_out cancelled, future) = do
    rotate_executor (if cancelled then none else some future)
    update_run job window JobStatus.error none (some RunError.timed_out)
    modify add_error

  abbrev queued_run : Job → ℕ → ℕ → JobRun
  queued_run job window now = record {
    job_id = job.id;
    owner_id = job.owner_id;
    window_start = window;
    fired_at = now;
    status = JobStatus.queued;
    sent_at = none;
    error = none;
  }

  -- From `record_job_run` on.
  pub fire : Job → ℕ → ℕ → List ScrapeRecord → List (String × String) → Exec Done
  unfolding record_run update_run submit settle
  fire job window now records labels = do
    fresh ← record_run (queued_run job window now)
    if not fresh then modify add_skipped else do
      update_run job.id window JobStatus.running none none
      reply ← submit (record {
        job_id = job.id;
        window_start = window;
        records = records;
        tier2_labels = labels;
      })
      settle job.id window now reply

  -- The digest is not empty.
  pub notify : Job → ℕ → List ScrapeRecord → List (String × String) → Exec Done
  unfolding can_send fire warn_empty
  notify job now [] labels = do
    window ← lift (env.window job.schedule_cron job.timezone now)
    warn_empty job.id window now
    modify add_skipped
  notify job now (r ∷ rs) labels = do
    free ← can_send
    if not free then modify add_skipped else do
      window ← lift (env.window job.schedule_cron job.timezone now)
      fire job window now (r ∷ rs) labels

  pub notify_job : Index → ℕ → Job → Exec Done
  unfolding has_active notify collect_job_digest
  notify_job index now job = do
    active ← has_active job
    if active
        then modify add_skipped
        else do (records, labels) ← collect_job_digest index job; notify job now records labels

  -- One job must not kill the tick.
  pub guarded_job : Index → ℕ → Job → Exec Done
  unfolding notify_job
  guarded_job index now job = catch (notify_job index now job) (λ e. modify add_error)

  unfoldable pub run_plan_b : Index → ℕ → List Job → Exec Done
  unfolding guarded_job
  run_plan_b index now jobs = for_each (guarded_job index now) jobs
