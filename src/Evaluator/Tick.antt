-- ===== src/Evaluator/Tick.antt =====
-- `_reap_stale_job_runs`, `_build_source_index`, `evaluate_tick` and `run_evaluator_loop`.
pub mod Sends
pub mod Poison
use Prim.Native.Nat.{Ordering, ◌-◌, max}
use Prim.Native.String.{compare}
use kerdoos.Prelude.{
  ℕ, String, Bool, true, false, Option, none, some, List, [], ◌∷◌, ◌==◌, is_some, if◌then◌else◌,
}
use kerdoos.Scrape.Domain.{Exc, Outcome, returned, raised}
use kerdoos.Registry.{Registry, Entry, iter_sources}
use kerdoos.State.JobRuns.{JobRun, reap_stale_job_run}
use kerdoos.Evaluator.Executor.{SendExecutor, rotating, new_rotating, executor_shutdown}
use kerdoos.Evaluator.World.{
  Job, Env, World, Summary, no_summary, Exec, Done, pure, lift, ◌>>=◌, ◌>>◌, catch, modify,
  store_call, add_error, for_each,
}
use kerdoos.Evaluator.PlanB.{Index, run_plan_b}
use kerdoos.Evaluator.PlanA.{run_plan_a}

-- The configuration that the tick reads.
pub record Config : Type 0 where
  pub enabled_jobs : Outcome (List Job)
  pub load : String → Outcome Registry

-- `sorted({job.owner_id for job in jobs})`
unfoldable pub insert_owner : String → List String → List String
insert_owner o [] = o ∷ []
insert_owner o (p ∷ ps) =
    let rest = insert_owner o ps in
    elim (compare o p) [ Ordering.lt ↦ o ∷ p ∷ ps | Ordering.eq ↦ p ∷ ps | Ordering.gt ↦ p ∷ rest ]

unfoldable pub owners_of : List Job → List String
unfolding insert_owner
owners_of [] = []
owners_of (job ∷ jobs) = insert_owner job.owner_id (owners_of jobs)

-- `index[source.source_id] = …`: the last source of an id stays.
unfoldable pub find_entry : String → List Entry → Option Entry
find_entry s [] = none
find_entry s (e ∷ es) =
    let later = find_entry s es in
    if is_some later then later else if e.source.source_id == s then some e else none

unfoldable pub index_of : List (String × List Entry) → Index
unfolding find_entry
index_of [] owner s = none
index_of ((o, es) ∷ rest) owner s = if o == owner then find_entry s es else index_of rest owner s

-- A registry that does not load is counted and left out; one with a dangling site raises.
abbrev load_one :
    String
    → Outcome Registry
    → Exec (List (String × List Entry))
    → Exec (List (String × List Entry))
load_one o (raised e) others = modify add_error >> others
load_one o (returned registry) others = do
  es ← lift (iter_sources registry)
  rest ← others
  pure ((o, es) ∷ rest)

module _ (env : Env) where
  -- One job of the sweep; what it raises is only logged.
  pub reap_job : ℕ → Job → Exec Done
  reap_job fired_before job =
      catch
        (store_call env λ w. (
          tt,
          record w {
            job_runs = (reap_stale_job_run job.owner_id job.id fired_before w.job_runs).0;
          },
        ))
        (λ e. pure tt)

  unfoldable pub reap_stale_job_runs : ℕ → List Job → Exec Done
  unfolding reap_job
  reap_stale_job_runs fired_before jobs = for_each (reap_job fired_before) jobs

  module _ (config : Config) where
    pub load_indexes : List String → Exec (List (String × List Entry))
    load_indexes [] = pure []
    load_indexes (o ∷ os) = load_one o (config.load o) (load_indexes os)

    -- The tick after the early returns. `reaper` is `reaper_timeout_seconds`; a cutoff before the
    -- first instant is that instant.
    pub tick_jobs : ℕ → ℕ → List Job → Exec Done
    unfolding load_indexes
    tick_jobs reaper now jobs = do
      reap_stale_job_runs (now - reaper) jobs
      indexes ← load_indexes (owners_of jobs)
      run_plan_a env now (index_of indexes) jobs
      run_plan_b env (index_of indexes) now jobs

    abbrev tick_on : ℕ → ℕ → Outcome (List Job) → Exec Done
    tick_on reaper now (raised e) = modify add_error
    tick_on reaper now (returned []) = pure tt
    tick_on reaper now (returned (job ∷ jobs)) = tick_jobs reaper now (job ∷ jobs)

    -- `evaluate_tick`: a fresh summary, and the tick. The executor, the semaphore's order and the
    -- tracker are those of the world.
    unfoldable pub evaluate_tick : ℕ → ℕ → Exec Done
    unfolding tick_jobs
    evaluate_tick reaper now w =
        tick_on reaper now config.enabled_jobs (record w { summary = no_summary })

-- One round of the loop, with what it meets.
pub record Round : Type 0 where
  pub env : Env
  pub config : Config
  pub now : ℕ

-- `while not event.is_set()`: a tick that raises is logged, and the loop goes on.
pub rounds : ℕ → List Round → World → World
rounds reaper [] w = w
rounds reaper (r ∷ rs) w = rounds reaper rs (evaluate_tick r.env r.config reaper r.now w).1

-- The loop makes its own executor and tracker, and shuts the executor at the end.
unfoldable pub run_evaluator_loop : ℕ → ℕ → List Round → World → World
unfolding rounds
run_evaluator_loop max_concurrent_sends reaper rs w =
    let started : World = record w {
      executor = rotating (new_rotating (max max_concurrent_sends 1));
      warned = [];
    } in
    let ended : World = rounds reaper rs started in
    record ended { executor = executor_shutdown ended.executor }
