-- ===== src/Evaluator/Tick/Sends.antt =====
-- The sends of `evaluate_tick` and `run_evaluator_loop` in core/evaluator.py.
use kerdoos.Prelude.{ℕ, ◌-◌, String, List, [], ◌∷◌}
use kerdoos.Scrape.Domain.{Outcome, returned, raised}
use kerdoos.Registry.{Registry, Entry}
use kerdoos.State.JobRuns.Keys.{is_recorded-reap_stale_job_run}
use kerdoos.Evaluator.World.{Job, Env, World, Exec, add_error}
use kerdoos.Evaluator.World.Keeps.{
  Keeps, Keeps-pure, Keeps-lift, Keeps-bind, Keeps-catch, Keeps-for_each, Keeps-modify,
  Keeps-store_call,
}
use kerdoos.Evaluator.PlanB.ExactlyOnce.{IsOnce, AreRecorded-mono, run_plan_b-IsOnce}
use kerdoos.Evaluator.PlanA.Quiet.{IsBlind, run_plan_a-Keeps}
use kerdoos.Evaluator.Tick.{
  Config, owners_of, index_of, reap_job, reap_stale_job_runs, load_one, load_indexes, tick_jobs,
  tick_on, evaluate_tick, Round, rounds, run_evaluator_loop,
}

IsOnce-blind : IsBlind IsOnce
IsOnce-blind = record {
  calls = λ w n h. h;
  selected = λ w n h. h;
  scrapes = λ w rows h. h;
  scraped = λ w h. h;
  failed = λ w h. h;
}

load_one-Keeps :
    {P : World → Type 0}
    → ((w : World) → P w → P (add_error w))
    → (o : String) (r : Outcome Registry) (others : Exec (List (String × List Entry)))
    → Keeps P others
    → Keeps P (load_one o r others)
load_one-Keeps k o (raised e) others h = Keeps-bind _ _ (Keeps-modify add_error k) (λ _. h)
load_one-Keeps k o (returned registry) others h =
    Keeps-bind _ _ (Keeps-lift _) (λ es. Keeps-bind _ _ h (λ rest. Keeps-pure _))

module _ (env : Env) where
  reap_job-IsOnce : (before : ℕ) (job : Job) → Keeps IsOnce (reap_job env before job)
  unfolding reap_job
  reap_job-IsOnce before job =
      Keeps-catch _ _
        (Keeps-store_call env _ (λ w h. h)
          λ w h. (
            AreRecorded-mono w.job_runs _ w.sends (λ j v r. rw is_recorded-reap_stale_job_run r)
                h.0,
            h.1,
          ))
        (λ e. Keeps-pure tt)

  reap_stale_job_runs-IsOnce :
      (before : ℕ) (jobs : List Job) → Keeps IsOnce (reap_stale_job_runs env before jobs)
  unfolding reap_stale_job_runs
  reap_stale_job_runs-IsOnce before jobs = Keeps-for_each _ jobs (reap_job-IsOnce before)

  module _ (config : Config) where
    pub load_indexes-Keeps :
        {P : World → Type 0}
        → ((w : World) → P w → P (add_error w))
        → (os : List String) → Keeps P (load_indexes env config os)
    unfolding load_indexes
    load_indexes-Keeps k [] = Keeps-pure []
    load_indexes-Keeps k (o ∷ os) = load_one-Keeps k o (config.load o) _ (load_indexes-Keeps k os)

    tick_jobs-IsOnce :
        (reaper now : ℕ) (jobs : List Job) → Keeps IsOnce (tick_jobs env config reaper now jobs)
    unfolding tick_jobs
    tick_jobs-IsOnce reaper now jobs =
        Keeps-bind _ _ (reap_stale_job_runs-IsOnce (now - reaper) jobs) λ _.
          Keeps-bind _ _ (load_indexes-Keeps (λ w h. h) (owners_of jobs)) λ indexes.
            Keeps-bind _ _ (run_plan_a-Keeps IsOnce-blind env now (index_of indexes) jobs)
              λ _. run_plan_b-IsOnce env (index_of indexes) now jobs

    tick_on-IsOnce :
        (reaper now : ℕ) (jobs : Outcome (List Job))
        → Keeps IsOnce (tick_on env config reaper now jobs)
    tick_on-IsOnce reaper now (raised e) = Keeps-modify add_error (λ w h. h)
    tick_on-IsOnce reaper now (returned []) = Keeps-pure tt
    tick_on-IsOnce reaper now (returned (job ∷ jobs)) = tick_jobs-IsOnce reaper now (job ∷ jobs)

    evaluate_tick-IsOnce : (reaper now : ℕ) → Keeps IsOnce (evaluate_tick env config reaper now)
    unfolding evaluate_tick
    evaluate_tick-IsOnce reaper now = record {
      at = λ w h. (tick_on-IsOnce reaper now config.enabled_jobs).at _ h;
    }

rounds-IsOnce : (reaper : ℕ) (rs : List Round) (w : World) → IsOnce w → IsOnce (rounds reaper rs w)
unfolding rounds
rounds-IsOnce reaper [] w h = h
rounds-IsOnce reaper (r ∷ rs) w h =
    rounds-IsOnce reaper rs _ ((evaluate_tick-IsOnce r.env r.config reaper r.now).at w h)

-- However many rounds the loop makes, whatever is configured in each of them, and whatever
-- fails or times out: if every earlier send had its row and no two had one (job, window), the
-- same holds of all sends at the end.
pub run_evaluator_loop-IsOnce :
    (max_concurrent_sends reaper : ℕ) (rs : List Round) (w : World)
    → IsOnce w
    → IsOnce (run_evaluator_loop max_concurrent_sends reaper rs w)
unfolding run_evaluator_loop
run_evaluator_loop-IsOnce m reaper rs w h = rounds-IsOnce reaper rs _ h
