-- ===== src/Evaluator/PlanB/Digest.antt =====
-- What a digest of `_run_plan_b` in core/evaluator.py holds.
use kerdoos.Prelude.{inl, inr, ◌∙◌, ◌⊎◌, Bool}
use kerdoos.Prelude.{some_in}
use kerdoos.Prelude.{ℕ, String, ◌≡◌, refl, true, false, none, List, [], ◌∷◌}
use kerdoos.Scrape.Domain.{returned, ScrapeRecord}
use kerdoos.State.JobRuns.{record_job_run, has_active_job_run}
use kerdoos.State.JobRuns.Keys.{is_recorded}
use kerdoos.State.Scrapes.{is_of}
use kerdoos.Evaluator.Executor.{executor_can_submit}
use kerdoos.Evaluator.World.{
  Job, Reply, answered, failed, timed_out, Sent, Env, World, store_call, ◌>>=◌, pure, lift, modify,
  counted,
}
use kerdoos.Evaluator.PlanB.{
  Index, label_of, with_label, history_call, collect_sources, collect_job_digest, has_active,
  warn_empty, record_run, update_run, can_send, submit, settle, queued_run, fire, notify,
  notify_job,
}
use kerdoos.Evaluator.PlanB.Records.{
  records_of, IsLatest, records_of-IsLatest, records_of-IsFilled, records_of-empty,
}
use mathlib.Core.Path.{subst}

pub labels_of : Index → String → List String → List (String × String)
labels_of index owner [] = []
labels_of index owner (s ∷ ss) = with_label s (label_of (index owner s)) (labels_of index owner ss)

module _ (env : Env) (sound : (n : ℕ) → env.fault n ≡ none) where
  store_call_sound :
      {A : Type 0} (f : World → A × World) (w : World)
      → store_call env f w ≡ (returned (f (counted w)).0, (f (counted w)).1)
  unfolding store_call
  store_call_sound f w = rw (sound w.calls)

  -- Where the store does not fail, the digest of a job is read off the history, and nothing but
  -- the count of the calls changes.
  collect_sources_lem :
      (index : Index) (owner : String) (ss : List String) (w : World)
      → (n : ℕ) × (collect_sources env index owner ss w ≡ (
        returned (records_of owner ss w.scrapes, labels_of index owner ss),
        record w { calls = n },
      ))
  unfolding collect_sources records_of labels_of ◌>>=◌ pure history_call
  collect_sources_lem index owner [] w = (w.calls, refl)
  collect_sources_lem index owner (s ∷ ss) w =
      let (n, e) = collect_sources_lem index owner ss (counted w) in (n, rw (store_call_sound, e))

  settle-sends :
      (job : String) (window now : ℕ) (reply : Reply × ℕ) (w : World)
      → (settle env job window now reply w).1.sends ≡ w.sends
  unfolding settle ◌>>=◌ update_run modify
  settle-sends job window now (answered true, future) w = rw (store_call_sound)
  settle-sends job window now (answered false, future) w = rw (store_call_sound)
  settle-sends job window now (failed e, future) w = rw (store_call_sound)
  settle-sends job window now (timed_out cancelled, future) w = rw (store_call_sound)

  fire-sends :
      (job : Job) (window now : ℕ) (records : List ScrapeRecord) (labels : List (String × String))
      (w : World)
      → is_recorded job.id window w.job_runs ≡ false
      → (fire env job window now records labels w).1.sends
        ≡ record {
          job_id = job.id;
          window_start = window;
          records = records;
          tier2_labels = labels;
        }
          ∷ w.sends
  unfolding fire ◌>>=◌ record_run update_run submit
  fire-sends job window now records labels w new =
      let e : record_job_run (queued_run env job window now) w.job_runs
          ≡ (queued_run env job window now ∷ w.job_runs, true) =
        unfold record_job_run in rw new in
      rw (store_call_sound, e, store_call_sound, settle-sends)

  notify-sends :
      (job : Job) (now window : ℕ) (r : ScrapeRecord) (rs : List ScrapeRecord)
      (labels : List (String × String)) (w : World)
      → (executor_can_submit (env.is_done w.looks) w.executor).1 ≡ true
      → env.window job.schedule_cron job.timezone now ≡ returned window
      → is_recorded job.id window w.job_runs ≡ false
      → (notify env job now (r ∷ rs) labels w).1.sends
        ≡ record { job_id = job.id; window_start = window; records = r ∷ rs; tier2_labels = labels }
          ∷ w.sends
  unfolding notify ◌>>=◌ can_send lift
  notify-sends job now window r rs labels w free at new =
      rw (free, at) (fire-sends job window now (r ∷ rs) labels _ new)

  -- With a row for the window nothing is sent.
  fire-quiet :
      (job : Job) (window now : ℕ) (records : List ScrapeRecord) (labels : List (String × String))
      (w : World)
      → is_recorded job.id window w.job_runs ≡ true
      → (fire env job window now records labels w).1.sends ≡ w.sends
  unfolding fire ◌>>=◌ record_run modify
  fire-quiet job window now records labels w old =
      let e : record_job_run (queued_run env job window now) w.job_runs ≡ (w.job_runs, false) =
        unfold record_job_run in rw old in
      rw (store_call_sound, e)

  notify-quiet_empty :
      (job : Job) (now window : ℕ) (labels : List (String × String)) (w : World)
      → env.window job.schedule_cron job.timezone now ≡ returned window
      → (notify env job now [] labels w).1.sends ≡ w.sends
  unfolding notify ◌>>=◌ lift warn_empty modify
  notify-quiet_empty job now window labels w at = rw at (refl)

  notify-quiet_busy :
      (job : Job) (now : ℕ) (r : ScrapeRecord) (rs : List ScrapeRecord)
      (labels : List (String × String)) (w : World)
      → (executor_can_submit (env.is_done w.looks) w.executor).1 ≡ false
      → (notify env job now (r ∷ rs) labels w).1.sends ≡ w.sends
  unfolding notify ◌>>=◌ can_send modify
  notify-quiet_busy job now r rs labels w busy = rw (busy)

  notify-quiet_old :
      (job : Job) (now window : ℕ) (r : ScrapeRecord) (rs : List ScrapeRecord)
      (labels : List (String × String)) (w : World)
      → (executor_can_submit (env.is_done w.looks) w.executor).1 ≡ true
      → env.window job.schedule_cron job.timezone now ≡ returned window
      → is_recorded job.id window w.job_runs ≡ true
      → (notify env job now (r ∷ rs) labels w).1.sends ≡ w.sends
  unfolding notify ◌>>=◌ can_send lift
  notify-quiet_old job now window r rs labels w free at old =
      rw (free, at) (fire-quiet job window now (r ∷ rs) labels _ old)

  -- A digest of the job for the window, with the latest records of its linked sources.
  abbrev pub IsSent : Job → ℕ → World → List Sent → Type 0
  IsSent job window w sends =
      (d : Sent) × (sends ≡ d ∷ w.sends)
      × (d.job_id ≡ job.id)
      × (d.window_start ≡ window)
      × IsLatest job.owner_id w.scrapes job.source_ids d.records

  -- By whether the job has an active run, a linked source with a record, an executor that takes a
  -- send, and a row for the window.
  abbrev pub SendsWhen : Job → ℕ → World → Bool → Bool → Bool → Bool → List Sent → Type 0
  SendsWhen job window w active some_row free old sends =
      ((active ≡ false)
        × (some_row ≡ true)
        × (free ≡ true)
        × (old ≡ false)
        × IsSent job window w sends)
      ⊎ (((active ≡ true) ⊎ (some_row ≡ false) ⊎ (free ≡ false) ⊎ (old ≡ true)) × (sends ≡ w.sends))

  notify_job-quiet_active :
      (index : Index) (now : ℕ) (job : Job) (w : World)
      → has_active_job_run job.owner_id job.id w.job_runs ≡ true
      → (notify_job env index now job w).1.sends ≡ w.sends
  unfolding notify_job ◌>>=◌ has_active modify
  notify_job-quiet_active index now job w active = rw (store_call_sound, active)

  -- Without an active run, `_run_plan_b` goes on with the digest that is collected.
  notify_job-goes_on :
      (index : Index) (now : ℕ) (job : Job) (w : World) (rs : List ScrapeRecord)
      → has_active_job_run job.owner_id job.id w.job_runs ≡ false
      → records_of job.owner_id job.source_ids w.scrapes ≡ rs
      → (n : ℕ) × ((notify_job env index now job w).1.sends
          ≡ (notify env job now rs
              (labels_of index job.owner_id job.source_ids)
              (record w { calls = n })).1.sends)
  unfolding notify_job ◌>>=◌ has_active collect_job_digest
  notify_job-goes_on index now job w rs idle collected =
      let (n, e) = collect_sources_lem index job.owner_id job.source_ids (counted w) in
      (n, rw (store_call_sound, idle, e, collected))

  -- Where the state store does not fail and the window that the tick falls in is known: a job has
  -- one digest sent exactly when it has no active run, a linked source has a record of the owner's,
  -- the executor takes a send, and no row is there for the window; else nothing is sent. The digest
  -- is for that job and window, and holds, in the order of the linked sources, a record of each
  -- that has one, than which none of the owner's and the source's is newer.
  pub notify_job-sends :
      (index : Index) (now window : ℕ) (job : Job) (w : World)
      → env.window job.schedule_cron job.timezone now ≡ returned window
      → SendsWhen job window w
          (has_active_job_run job.owner_id job.id w.job_runs)
          (some_in (λ s. some_in (is_of job.owner_id s) w.scrapes) job.source_ids)
          (executor_can_submit (env.is_done w.looks) w.executor).1
          (is_recorded job.id window w.job_runs)
          (notify_job env index now job w).1.sends
  notify_job-sends index now window job w at =
      by_tests (has_active_job_run job.owner_id job.id w.job_runs)
        (some_in (λ s. some_in (is_of job.owner_id s) w.scrapes) job.source_ids)
        (executor_can_submit (env.is_done w.looks) w.executor).1
        (is_recorded job.id window w.job_runs) refl refl refl refl
    where
      by_tests :
          (active some_row free old : Bool)
          → has_active_job_run job.owner_id job.id w.job_runs ≡ active
          → some_in (λ s. some_in (is_of job.owner_id s) w.scrapes) job.source_ids ≡ some_row
          → (executor_can_submit (env.is_done w.looks) w.executor).1 ≡ free
          → is_recorded job.id window w.job_runs ≡ old
          → SendsWhen job window w active some_row free old (notify_job env index now job w).1.sends
      by_tests true some_row free old p q r t =
          inr (inl refl, notify_job-quiet_active index now job w p)
      by_tests false false free old p q r t =
          let empty = records_of-empty job.owner_id job.source_ids w.scrapes q in
          let (n, e) = notify_job-goes_on index now job w [] p empty in
          inr (inr (inl refl), e ∙ notify-quiet_empty job now window _ (record w { calls = n }) at)
      by_tests false true false old p q r t =
          let (x, xs, filled) = records_of-IsFilled job.owner_id job.source_ids w.scrapes q in
          let (n, e) = notify_job-goes_on index now job w (x ∷ xs) p filled in
          inr
            (inr (inr (inl refl)), e ∙ notify-quiet_busy job now x xs _ (record w { calls = n }) r)
      by_tests false true true true p q r t =
          let (x, xs, filled) = records_of-IsFilled job.owner_id job.source_ids w.scrapes q in
          let (n, e) = notify_job-goes_on index now job w (x ∷ xs) p filled in
          inr (
            inr (inr (inr refl)),
            e ∙ notify-quiet_old job now window x xs _ (record w { calls = n }) r at t,
          )
      by_tests false true true false p q r t =
          let (x, xs, filled) = records_of-IsFilled job.owner_id job.source_ids w.scrapes q in
          let (n, e) = notify_job-goes_on index now job w (x ∷ xs) p filled in
          inl (
            refl,
            refl,
            refl,
            refl,
            (
              record {
                job_id = job.id;
                window_start = window;
                records = x ∷ xs;
                tier2_labels = labels_of index job.owner_id job.source_ids;
              },
              e ∙ notify-sends job now window x xs _ (record w { calls = n }) r at t,
              refl,
              refl,
              subst (IsLatest job.owner_id w.scrapes job.source_ids) filled
                  (records_of-IsLatest job.owner_id job.source_ids w.scrapes),
            ),
          )
