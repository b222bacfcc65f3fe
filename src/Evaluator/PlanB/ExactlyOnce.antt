-- ===== src/Evaluator/PlanB/ExactlyOnce.antt =====
-- The sends of `_run_plan_b` in core/evaluator.py against the `job_runs` table.
use kerdoos.Prelude.{
  ℕ, String, ◌≡◌, refl, ap, inl, inr, Bool, true, false, ◌&&◌, not, if◌then◌else◌, Option, none,
  List, [], ◌∷◌, ◌==◌, nat_eq, arith, eq_iff, some_in, All, Bool-cases,
}
use kerdoos.Scrape.Domain.{ScrapeRecord}
use kerdoos.State.JobRuns.{JobRun, JobStatus, RunError, record_job_run}
use kerdoos.State.JobRuns.Keys.{
  is_recorded, is_recorded-record_job_run, is_recorded-record_job_run_self,
  is_recorded-update_job_run,
}
use kerdoos.Evaluator.World.{
  Job, Reply, answered, failed, timed_out, Sent, Env, World, ◌>>=◌, modify, add_skipped,
  add_notified, add_error,
}
use kerdoos.Evaluator.World.Keeps.{
  Keeps, Keeps-pure, Keeps-if, Keeps-catch, Keeps-for_each, Keeps-store_call, Keeps-modify,
  Keeps-bind, keeps_rules, Leads, Leads-bind, Leads-keep_bind, Ensures, Ensures-store_call,
  Keeps-ensured_bind,
}
use kerdoos.Evaluator.PlanB.{
  Index, history_call, collect_sources, collect_job_digest, has_active, record_run, update_run,
  warn_empty, can_send, rotate_executor, submit, settle, queued_run, fire, notify, notify_job,
  guarded_job, run_plan_b,
}

-- The send belongs to this job and window.
abbrev pub is_for : String → ℕ → Sent → Bool
is_for job window s = (s.job_id == job) && nat_eq s.window_start window

abbrev pub AreRecorded : List JobRun → List Sent → Type 0
AreRecorded rows = All (λ s. is_recorded s.job_id s.window_start rows ≡ true)

abbrev pub AreDistinct : List Sent → Type 0
AreDistinct [] = Unit
AreDistinct (s ∷ ss) = (some_in (is_for s.job_id s.window_start) ss ≡ false) × AreDistinct ss

abbrev pub IsOnce : World → Type 0
IsOnce w = AreRecorded w.job_runs w.sends × AreDistinct w.sends

pub AreRecorded-mono :
    (rows rows' : List JobRun) (ss : List Sent)
    → ((job : String) (window : ℕ)
        → is_recorded job window rows ≡ true
        → is_recorded job window rows' ≡ true)
    → AreRecorded rows ss
    → AreRecorded rows' ss
AreRecorded-mono rows rows' [] grow h = tt
AreRecorded-mono rows rows' (s ∷ ss) grow h =
    (grow s.job_id s.window_start h.0, AreRecorded-mono rows rows' ss grow h.1)

-- A key with no row has no send.
unsent :
    (job : String) (window : ℕ) (rows : List JobRun) (ss : List Sent)
    → is_recorded job window rows ≡ false
    → AreRecorded rows ss
    → some_in (is_for job window) ss ≡ false
unfolding some_in
unsent job window rows [] n h = refl
unsent job window rows (s ∷ ss) n h = ground (
  arith,
  eq_iff s.job_id job,
  ap (λ k. is_recorded k s.window_start rows) {x = s.job_id} {y = job},
  ap (λ v. is_recorded job v rows) {x = s.window_start} {y = window},
  unsent job window rows ss n h.1,
)

-- The row of the key is there, and nothing was sent for it.
abbrev IsReady : String → ℕ → World → Type 0
IsReady job window w =
    IsOnce w
    × (is_recorded job window w.job_runs ≡ true)
    × (some_in (is_for job window) w.sends ≡ false)

module _ (env : Env) where
  history_call-IsOnce : (owner s : String) → Keeps IsOnce (history_call env owner s)
  unfolding history_call
  history_call-IsOnce owner s = Keeps-store_call env _ (λ w h. h) (λ w h. h)

  has_active-IsOnce : (job : Job) → Keeps IsOnce (has_active env job)
  unfolding has_active
  has_active-IsOnce job = Keeps-store_call env _ (λ w h. h) (λ w h. h)

  collect_sources-IsOnce :
      (index : Index) (owner : String) (ss : List String)
      → Keeps IsOnce (collect_sources env index owner ss)
  unfolding collect_sources
  collect_sources-IsOnce index owner [] = search keeps_rules
  collect_sources-IsOnce index owner (s ∷ ss) =
      Keeps-bind _ _ (history_call-IsOnce owner s)
        (λ latest. Keeps-bind _ _ (collect_sources-IsOnce index owner ss) (λ p. Keeps-pure _))

  update_run-IsOnce :
      (job : String) (window : ℕ) (status : JobStatus) (sent_at : Option ℕ) (text : Option RunError)
      → Keeps IsOnce (update_run env job window status sent_at text)
  unfolding update_run
  update_run-IsOnce job window status sent_at text =
      Keeps-store_call env _ (λ w h. h)
        λ w h. (
          AreRecorded-mono w.job_runs _ w.sends (λ j win r. rw is_recorded-update_job_run r) h.0,
          h.1,
        )

  update_run-IsReady :
      (j : String) (win : ℕ) (job : String) (window : ℕ) (status : JobStatus) (sent_at : Option ℕ)
      (text : Option RunError)
      → Keeps (IsReady j win) (update_run env job window status sent_at text)
  unfolding update_run
  update_run-IsReady j win job window status sent_at text =
      Keeps-store_call env _ (λ w h. h)
        λ w h. (
          (
            AreRecorded-mono w.job_runs _ w.sends (λ k v r. rw is_recorded-update_job_run r) h.0.0,
            h.0.1,
          ),
          rw is_recorded-update_job_run h.1,
          h.2,
        )

  rotate_executor-IsOnce : (o : Option ℕ) → Keeps IsOnce (rotate_executor env o)
  unfolding rotate_executor
  rotate_executor-IsOnce o = Keeps-modify _ (λ w h. h)

  warn_empty-IsOnce : (job : String) (window now : ℕ) → Keeps IsOnce (warn_empty env job window now)
  unfolding warn_empty
  warn_empty-IsOnce job window now = Keeps-modify _ (λ w h. h)

  can_send-IsOnce : Keeps IsOnce (can_send env)
  unfolding can_send
  can_send-IsOnce = record { at = λ w h. h }

  add_skipped-IsOnce : Keeps IsOnce (modify add_skipped)
  add_skipped-IsOnce = Keeps-modify add_skipped (λ w h. h)

  add_notified-IsOnce : Keeps IsOnce (modify add_notified)
  add_notified-IsOnce = Keeps-modify add_notified (λ w h. h)

  add_error-IsOnce : Keeps IsOnce (modify add_error)
  add_error-IsOnce = Keeps-modify add_error (λ w h. h)

  ruleset once_rules = (
    keeps_rules, history_call-IsOnce, has_active-IsOnce, update_run-IsOnce, rotate_executor-IsOnce,
    warn_empty-IsOnce, can_send-IsOnce, add_skipped-IsOnce, add_notified-IsOnce, add_error-IsOnce,
  )

  settle-IsOnce :
      (job : String) (window now : ℕ) (reply : Reply × ℕ)
      → Keeps IsOnce (settle env job window now reply)
  unfolding settle
  settle-IsOnce job window now (answered true, future) = search once_rules
  settle-IsOnce job window now (answered false, future) = search once_rules
  settle-IsOnce job window now (failed e, future) = search once_rules
  settle-IsOnce job window now (timed_out cancelled, future) = search once_rules

  submit-IsOnce :
      (sent : Sent) → Leads (IsReady sent.job_id sent.window_start) IsOnce (submit env sent)
  unfolding submit
  submit-IsOnce sent = record { at = λ w h. ((h.1, h.0.0), (h.2, h.0.1)) }

  -- What `fire` does once its row is in.
  send_rest-IsOnce :
      (job : Job) (window now : ℕ) (sent : Sent)
      → sent.job_id ≡ job.id
      → sent.window_start ≡ window
      → Leads (IsReady sent.job_id sent.window_start) IsOnce (
          update_run env job.id window JobStatus.running none none >>= λ _.
          submit env sent >>= settle env job.id window now)
  send_rest-IsOnce job window now sent e f =
      Leads-keep_bind _ _ (λ w h. h.0)
        (update_run-IsReady sent.job_id sent.window_start job.id window JobStatus.running none none)
        (λ _. Leads-bind _ _ (submit-IsOnce sent) (λ reply. settle-IsOnce job.id window now reply))

  -- What the answer of `record_job_run` says.
  abbrev Fresh : String → ℕ → Bool → World → Type 0
  Fresh job window true w = IsReady job window w
  Fresh job window false w = IsOnce w

  recorded-Fresh :
      (run : JobRun) (w : World)
      → IsOnce w
      → Fresh run.job_id run.window_start
          (record_job_run run w.job_runs).1
          (record w { job_runs = (record_job_run run w.job_runs).0 })
  recorded-Fresh run w h = elim (Bool-cases (is_recorded run.job_id run.window_start w.job_runs)) [
    | inl old ↦
        let e : record_job_run run w.job_runs ≡ (w.job_runs, false) =
          unfold record_job_run in ground arith in
        rw e h
    | inr new ↦
        let e : record_job_run run w.job_runs ≡ (run ∷ w.job_runs, true) =
          unfold record_job_run in ground arith in
        let grown : AreRecorded (run ∷ w.job_runs) w.sends =
          AreRecorded-mono w.job_runs (run ∷ w.job_runs) w.sends
            (λ j v r. rw e at (is_recorded-record_job_run run j v w.job_runs r)) h.0 in
        rw e (
          (grown, h.1),
          (rw e at (is_recorded-record_job_run_self run w.job_runs)),
          unsent run.job_id run.window_start w.job_runs w.sends new h.0,
        )
  ]

  record_run-Fresh :
      (run : JobRun) → Ensures IsOnce (Fresh run.job_id run.window_start) (record_run env run)
  unfolding record_run
  record_run-Fresh run = Ensures-store_call env _ (λ w h. h) (λ w h. recorded-Fresh run w h)

  fire-IsOnce :
      (job : Job) (window now : ℕ) (records : List ScrapeRecord) (labels : List (String × String))
      → Keeps IsOnce (fire env job window now records labels)
  unfolding fire
  fire-IsOnce job window now records labels =
      Keeps-ensured_bind _ _ (record_run-Fresh (queued_run env job window now)) branch
    where
      branch :
          (fresh : Bool)
          → Leads (Fresh job.id window fresh) IsOnce (
              if not fresh
              then modify add_skipped
              else (update_run env job.id window JobStatus.running none none >>= λ _.
                  submit env (record {
                    job_id = job.id;
                    window_start = window;
                    records = records;
                    tier2_labels = labels;
                  })
                  >>= settle env job.id window now))
      branch true = send_rest-IsOnce job window now _ refl refl
      branch false = record { at = add_skipped-IsOnce.at }

  notify-IsOnce :
      (job : Job) (now : ℕ) (records : List ScrapeRecord) (labels : List (String × String))
      → Keeps IsOnce (notify env job now records labels)
  unfolding notify
  notify-IsOnce job now [] labels = search once_rules
  notify-IsOnce job now (r ∷ rs) labels = search (once_rules, fire-IsOnce)

  notify_job-IsOnce :
      (index : Index) (now : ℕ) (job : Job) → Keeps IsOnce (notify_job env index now job)
  unfolding notify_job collect_job_digest
  notify_job-IsOnce index now job = Keeps-bind _ _ (has_active-IsOnce job) λ active.
      Keeps-if active _ _ add_skipped-IsOnce (
        Keeps-bind _ _ (collect_sources-IsOnce index job.owner_id job.source_ids)
          (λ p. notify-IsOnce job now p.0 p.1))

  -- Whatever fails and however long the sends take: if every send has its row and no two have
  -- one (job, window), the same holds after a pass of plan B.
  pub run_plan_b-IsOnce :
      (index : Index) (now : ℕ) (jobs : List Job) → Keeps IsOnce (run_plan_b env index now jobs)
  unfolding run_plan_b guarded_job
  run_plan_b-IsOnce index now jobs =
      Keeps-for_each _ jobs
        λ job. Keeps-catch _ _ (notify_job-IsOnce index now job) (λ e. add_error-IsOnce)
