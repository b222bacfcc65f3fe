-- ===== src/State/JobRuns/Reaping.antt =====
-- The reaper of persistence/sqlite_store.py against `has_active_job_run`.
use kerdoos.Prelude.{
  ℕ, String, ◌≡◌, refl, ◌⊎◌, ◌≢◌, Bool, ◌&&◌, not, List, [], ◌∷◌, ltb, eq_iff, arith, some_in,
}
use kerdoos.State.JobRuns.{
  JobRun, is_active_of, has_active_job_run, update_where, reap_stale_job_run,
}

-- An active row that the cutoff spares.
abbrev pub is_fresh_active : String → String → ℕ → JobRun → Bool
is_fresh_active owner job fired_before r =
    is_active_of owner job r && not (ltb r.fired_at fired_before)

module _ (owner job : String) (fired_before : ℕ) where
  -- After the sweep of its own job a job is blocked exactly by the active rows that are not older
  -- than the cutoff.
  pub has_active_job_run-reap_stale_job_run :
      (rows : List JobRun)
      → has_active_job_run owner job (reap_stale_job_run owner job fired_before rows).0
        ≡ some_in (is_fresh_active owner job fired_before) rows
  unfolding has_active_job_run reap_stale_job_run update_where some_in
  has_active_job_run-reap_stale_job_run [] = refl
  has_active_job_run-reap_stale_job_run (r ∷ rs) =
      ground (arith, has_active_job_run-reap_stale_job_run rs)

  -- The sweep of one owner's job leaves every other owner's jobs, and that owner's other jobs, as
  -- blocked or as free as they were.
  pub has_active_job_run-reap_stale_job_run_other :
      (o j : String) (rows : List JobRun)
      → (o ≢ owner) ⊎ (j ≢ job)
      → has_active_job_run o j (reap_stale_job_run owner job fired_before rows).0
        ≡ has_active_job_run o j rows
  unfolding has_active_job_run reap_stale_job_run update_where some_in
  has_active_job_run-reap_stale_job_run_other o j [] ne = refl
  has_active_job_run-reap_stale_job_run_other o j (r ∷ rs) ne = ground (
    arith,
    eq_iff r.owner_id o,
    eq_iff r.owner_id owner,
    eq_iff r.job_id j,
    eq_iff r.job_id job,
    has_active_job_run-reap_stale_job_run_other o j rs ne,
  )
