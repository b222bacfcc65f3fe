-- ===== src/State/JobRuns/Keys.antt =====
-- The key of the `job_runs` table in persistence/sqlite_store.py.
use kerdoos.Prelude.{
  ℕ, String, ◌≡◌, refl, Bool, true, false, Option, List, [], ◌∷◌, eq_iff, eq_refl, arith, some_in,
  count_in, ap, if◌then◌else◌, Bool-cases, inl, inr,
}
use kerdoos.State.JobRuns.{
  JobRun, JobStatus, RunError, has_key, record_job_run, set_outcome, update_where, update_job_run,
  is_stale, reap_row, reap_stale_job_run,
}

abbrev pub is_recorded : String → ℕ → List JobRun → Bool
is_recorded job window rows = some_in (has_key job window) rows

-- The primary key: no two rows have one key.
abbrev pub KeysUnique : List JobRun → Type 0
KeysUnique [] = Unit
KeysUnique (r ∷ rs) = (is_recorded r.job_id r.window_start rs ≡ false) × KeysUnique rs

-- If no two rows have one (job, window), then neither after a run is recorded, whether its key was
-- there or not.
pub record_job_run-KeysUnique :
    (run : JobRun) (rows : List JobRun) → KeysUnique rows → KeysUnique (record_job_run run rows).0
unfolding record_job_run
record_job_run-KeysUnique run rows u = ground arith

pub is_recorded-record_job_run_self :
    (run : JobRun) (rows : List JobRun)
    → is_recorded run.job_id run.window_start (record_job_run run rows).0 ≡ true
unfolding record_job_run some_in
is_recorded-record_job_run_self run rows = ground (arith, eq_refl run.job_id)

pub is_recorded-record_job_run :
    (run : JobRun) (job : String) (window : ℕ) (rows : List JobRun)
    → is_recorded job window rows ≡ true
    → is_recorded job window (record_job_run run rows).0 ≡ true
unfolding record_job_run some_in
is_recorded-record_job_run run job window rows h = ground arith

-- A change of the outcome columns leaves every key where it was.
module _ (p : JobRun → Bool) (f : JobRun → JobRun)
    (same_job : (r : JobRun) → (f r).job_id ≡ r.job_id)
    (same_window : (r : JobRun) → (f r).window_start ≡ r.window_start) where
  pub is_recorded-update_where :
      (job : String) (window : ℕ) (rows : List JobRun)
      → is_recorded job window (update_where p f rows) ≡ is_recorded job window rows
  unfolding update_where some_in
  is_recorded-update_where job window [] = refl
  is_recorded-update_where job window (r ∷ rs) = elim (Bool-cases (p r)) [
    | inl e ↦ rw (e, same_job r, same_window r, is_recorded-update_where job window rs)
    | inr e ↦ rw (e, is_recorded-update_where job window rs)
  ]

  pub update_where-KeysUnique :
      (rows : List JobRun) → KeysUnique rows → KeysUnique (update_where p f rows)
  unfolding update_where
  update_where-KeysUnique [] u = tt
  update_where-KeysUnique (r ∷ rs) u = elim (Bool-cases (p r)) [
    | inl e ↦
        rw (e, same_job r, same_window r, is_recorded-update_where r.job_id r.window_start rs)
          (u.0, update_where-KeysUnique rs u.1)
    | inr e ↦
        rw (e, is_recorded-update_where r.job_id r.window_start rs)
          (u.0, update_where-KeysUnique rs u.1)
  ]

pub is_recorded-update_job_run :
    (j : String) (w : ℕ) (status : JobStatus) (sent_at : Option ℕ) (text : Option RunError)
    (job : String) (window : ℕ) (rows : List JobRun)
    → is_recorded job window (update_job_run j w status sent_at text rows).0
      ≡ is_recorded job window rows
unfolding update_job_run
is_recorded-update_job_run j w status sent_at text =
    is_recorded-update_where (has_key j w) (set_outcome status sent_at text) (λ r. refl) (λ r. refl)

pub is_recorded-reap_stale_job_run :
    (owner j : String) (before : ℕ) (job : String) (window : ℕ) (rows : List JobRun)
    → is_recorded job window (reap_stale_job_run owner j before rows).0
      ≡ is_recorded job window rows
unfolding reap_stale_job_run
is_recorded-reap_stale_job_run owner j before =
    is_recorded-update_where (is_stale owner j before) reap_row (λ r. refl) (λ r. refl)

count-KeysUnique :
    (job : String) (window : ℕ) (rows : List JobRun)
    → KeysUnique rows
    → count_in (has_key job window) rows ≡ (if is_recorded job window rows then 1 else 0)
unfolding count_in some_in
count-KeysUnique job window [] u = refl
count-KeysUnique job window (r ∷ rs) u = ground (
  arith,
  eq_iff r.job_id job,
  count-KeysUnique job window rs u.1,
  ap (λ w. is_recorded r.job_id w rs) {x = r.window_start} {y = window},
)

-- In a table where no two rows have one key, the answer of `update_job_run` (`rowcount == 1`)
-- tells exactly whether the key is there.
pub update_job_run-answer :
    (j : String) (w : ℕ) (status : JobStatus) (sent_at : Option ℕ) (text : Option RunError)
    (rows : List JobRun)
    → KeysUnique rows
    → (update_job_run j w status sent_at text rows).1 ≡ is_recorded j w rows
unfolding update_job_run
update_job_run-answer j w status sent_at text rows u = ground (arith, count-KeysUnique j w rows u)
