-- ===== src/State/JobRuns/Summaries.antt =====
-- latest_job_runs of packages/kerdoos/src/kerdoos/persistence/sqlite_store.py.
use Prim.{absurd}
use kerdoos.Prelude.{
  ℕ, ◌≡◌, refl, sym, ap, ◌∙◌, String, Bool, true, false, ◌&&◌, ◌||◌, Option, none, some, List, [],
  ◌∷◌, ◌==◌, leb, keep, some_in, is_some, if◌then◌else◌, arith, eq_of_test,
}
use kerdoos.Prelude.Dict.{get}
use kerdoos.State.JobRuns.{JobStatus, JobRun}

pub record JobRunSummary : Type 0 where
  pub latest : JobRun
  pub last_sent_at : Option ℕ

abbrev later : JobRun → Option JobRun → JobRun
later r none = r
later r (some s) = if leb s.fired_at r.fired_at then r else s

-- The row that ROW_NUMBER() OVER (PARTITION BY job_id ORDER BY fired_at DESC, rowid DESC) counts as
-- the first; a row stands before those of a smaller rowid.
unfoldable pub latest_of : String → List JobRun → Option JobRun
latest_of job [] = none
latest_of job (r ∷ rs) =
    let rest = latest_of job rs in if r.job_id == job then some (later r rest) else rest

abbrev is_sent : JobStatus → Bool
is_sent JobStatus.sent = true
is_sent _ = false

abbrev max_of : Option ℕ → Option ℕ → Option ℕ
max_of none m = m
max_of (some t) none = some t
max_of (some t) (some m) = if leb m t then some t else some m

-- MAX(sent_at) of the rows with status 'sent'; NULL does not count.
unfoldable pub max_sent_at : String → List JobRun → Option ℕ
max_sent_at job [] = none
max_sent_at job (r ∷ rs) =
    let rest = max_sent_at job rs in
    if (r.job_id == job) && is_sent r.status then max_of r.sent_at rest else rest

abbrev summary_by : Option ℕ → Option JobRun → Option JobRunSummary
summary_by sent none = none
summary_by sent (some r) = some (record { latest = r; last_sent_at = sent })

unfoldable pub summary_of : String → List JobRun → Option JobRunSummary
unfolding latest_of max_sent_at
summary_of job rows = summary_by (max_sent_at job rows) (latest_of job rows)

abbrev with_summary :
    String → Option JobRunSummary → List (String × JobRunSummary) → List (String × JobRunSummary)
with_summary job none rest = rest
with_summary job (some s) rest = (job, s) ∷ rest

-- The summaries of the jobs of some rows, each job once, out of all rows.
unfoldable pub summaries : List JobRun → List JobRun → List (String × JobRunSummary)
unfolding summary_of get
summaries rows [] = []
summaries rows (r ∷ rs) =
    let rest = summaries rows rs in
    if is_some (get r.job_id rest)
    then rest
    else with_summary r.job_id (summary_of r.job_id rows) rest

unfoldable pub latest_job_runs : String → List JobRun → List (String × JobRunSummary)
unfolding summaries keep
latest_job_runs owner rows = let own = keep (λ r. r.owner_id == owner) rows in summaries own own

abbrev of_job : String → JobRun → Bool
of_job job r = r.job_id == job

-- A job without a row has no summary.
latest-none :
    (job : String) (rows : List JobRun)
    → some_in (of_job job) rows ≡ false
    → latest_of job rows ≡ none
unfolding latest_of some_in
latest-none job [] h = refl
latest-none job (r ∷ rs) h = ground (arith, h, latest-none job rs)

get-with_summary :
    (id job : String) (o : Option JobRunSummary) (rest : List (String × JobRunSummary))
    → get job (with_summary id o rest)
      ≡ (if id == job then (if is_some o then o else get job rest) else get job rest)
unfolding get
get-with_summary id job none rest = ground arith
get-with_summary id job (some s) rest = refl

added :
    (m seen same : Bool) (got o : Option JobRunSummary)
    → got ≡ (if m then o else none)
    → (same ≡ true → is_some got ≡ seen)
    → (if seen then got else if same then (if is_some o then o else got) else got)
      ≡ (if same || m then o else none)
added m true false got o h k = h
added m false false got o h k = h
added true true true got o h k = h
added false true true got o h k = absurd (ground (arith, ap is_some h, k refl))
added m false true got (some s) h k = refl
added true false true got none h k = h
added false false true got none h k = h

swapped :
    (seen same : Bool) (got x y : Option JobRunSummary)
    → (same ≡ true → x ≡ y)
    → (if seen then got else if same then (if is_some x then x else got) else got)
      ≡ (if seen then got else if same then (if is_some y then y else got) else got)
swapped true same got x y f = refl
swapped false true got x y f = ap (λ o. if is_some o then o else got) (f refl)
swapped false false got x y f = refl

get_if :
    (job : String) (b : Bool) (d e : List (String × JobRunSummary))
    → get job (if b then d else e) ≡ (if b then get job d else get job e)
get_if job true d e = refl
get_if job false d e = refl

-- The dict has the summary of each job that has one of the rows, and no other.
get-summaries :
    (rows rs : List JobRun) (job : String)
    → get job (summaries rows rs) ≡ (if some_in (of_job job) rs then summary_of job rows else none)
unfolding summaries some_in get
get-summaries rows [] job = refl
get-summaries rows (r ∷ rs) job =
    let rest = summaries rows rs in
    get_if job (is_some (get r.job_id rest)) rest
      (with_summary r.job_id (summary_of r.job_id rows) rest)
    ∙ ap (λ x. if is_some (get r.job_id rest) then get job rest else x)
        (get-with_summary r.job_id job (summary_of r.job_id rows) rest)
    ∙ swapped (is_some (get r.job_id rest)) (r.job_id == job) (get job rest)
        (summary_of r.job_id rows) (summary_of job rows)
        (λ e. ap (λ j. summary_of j rows) (eq_of_test r.job_id job e))
    ∙ added (some_in (of_job job) rs) (is_some (get r.job_id rest)) (r.job_id == job) (get job rest)
        (summary_of job rows) (get-summaries rows rs job)
        (λ e. ap (λ j. is_some (get j rest)) (sym (eq_of_test r.job_id job e)))

-- The summary of a job out of an owner's rows, when the job has one.
abbrev pub status_of : String → List JobRun → String → Option JobRunSummary
status_of owner rows job = summary_of job (keep (λ r. r.owner_id == owner) rows)

known_by :
    (rows : List JobRun) (job : String) (b : Bool)
    → some_in (of_job job) rows ≡ b
    → (if b then summary_of job rows else none) ≡ summary_of job rows
unfolding summary_of
known_by rows job true e = refl
known_by rows job false e = sym (ap (summary_by (max_sent_at job rows)) (latest-none job rows e))

pub get-latest_job_runs :
    (owner job : String) (rows : List JobRun)
    → get job (latest_job_runs owner rows) ≡ status_of owner rows job
unfolding latest_job_runs
get-latest_job_runs owner job rows =
    let own = keep (λ r. r.owner_id == owner) rows in
    get-summaries own own job ∙ known_by own job (some_in (of_job job) own) refl
