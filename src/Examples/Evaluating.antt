-- ===== src/Examples/Evaluating.antt =====
-- The evaluator at concrete inputs.
use Prim.{tt}
use kerdoos.Prelude.{true, false}
use kerdoos.Prelude.{◌≡◌, refl, none, [], ◌∷◌, some_in}
use kerdoos.Scrape.Domain.{Exc, returned, raised}
use kerdoos.State.JobRuns.{has_active_job_run}
use kerdoos.Evaluator.Executor.{executor_can_submit}
use kerdoos.Evaluator.PlanB.{notify_job}
use kerdoos.Evaluator.PlanB.ExactlyOnce.{IsOnce}
use kerdoos.Evaluator.PlanB.Digest.{SendsWhen, notify_job-sends}
use kerdoos.Evaluator.Tick.{evaluate_tick, run_evaluator_loop}
use kerdoos.Evaluator.Tick.Sends.{run_evaluator_loop-IsOnce}
use kerdoos.Evaluator.Tick.Poison.{IsIdle, evaluate_tick_poisoned}
use kerdoos.Examples.Data.{daily, broken, env, config, world, round, row_at}

run_evaluator_loop-IsOnce_example : IsOnce (run_evaluator_loop 2 60 (round ∷ round ∷ []) world)
run_evaluator_loop-IsOnce_example =
    run_evaluator_loop-IsOnce 2 60 (round ∷ round ∷ []) world (tt, tt)

notify_job-sends_example :
    SendsWhen env
      (λ n. refl)
      daily
      100
      world
      false
      true
      true
      false
      (notify_job env (λ o s. none) 120 daily world).1.sends
unfolding has_active_job_run some_in executor_can_submit
notify_job-sends_example = notify_job-sends env (λ n. refl) (λ o s. none) 120 100 daily world refl

evaluate_tick_poisoned_example :
    ((x : Exc) × ((evaluate_tick env
          (record config { enabled_jobs = returned (daily ∷ broken ∷ []) })
          60
          120
          world).0
        ≡ raised x))
    × IsIdle []
        (row_at 90 ∷ [])
        (evaluate_tick env
          (record config { enabled_jobs = returned (daily ∷ broken ∷ []) })
          60
          120
          world).1
evaluate_tick_poisoned_example =
    evaluate_tick_poisoned env 120 (daily ∷ []) [] broken (Exc.other "CroniterBadCronError" "x") []
      (row_at 90 ∷ []) refl (record config { enabled_jobs = returned (daily ∷ broken ∷ []) }) 60
      world refl refl refl
