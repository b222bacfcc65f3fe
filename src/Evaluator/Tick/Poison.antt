-- ===== src/Evaluator/Tick/Poison.antt =====
-- `evaluate_tick` in core/evaluator.py where croniter refuses the schedule of an enabled job.
use kerdoos.Prelude.{ℕ, ◌-◌, ◌≡◌, refl, List, [], ◌∷◌, ◌++◌}
use kerdoos.Scrape.Domain.{Exc, Outcome, returned, raised}
use kerdoos.State.Scrapes.{ScrapeRow}
use kerdoos.Evaluator.World.{Job, Env, World, Sent, Exec, continue, ◌>>=◌, lift}
use kerdoos.Evaluator.World.Keeps.{Keeps, Keeps-catch, Keeps-pure, Keeps-for_each, Keeps-store_call}
use kerdoos.Evaluator.PlanA.{run_plan_a}
use kerdoos.Evaluator.PlanA.Cadence.{required_periods_raises}
use kerdoos.Evaluator.PlanB.{Index}
use kerdoos.Evaluator.Tick.{
  Config, owners_of, index_of, reap_job, reap_stale_job_runs, tick_jobs, tick_on, evaluate_tick,
}
use kerdoos.Evaluator.Tick.Sends.{load_indexes-Keeps}

-- The action raises, and what it leaves meets a condition.
record Fails {A : Type 0} (P : World → Type 0) (m : Exec A) : Type 0 where
  at : (w : World) → P w → ((e : Exc) × ((m w).0 ≡ raised e)) × P (m w).1

after_failure :
    {A B : Type 0} (P : World → Type 0) (o : Outcome A) (w : World) (f : A → Exec B)
    → ((e : Exc) × (o ≡ raised e))
    → P w
    → ((e : Exc) × ((continue o f w).0 ≡ raised e)) × P (continue o f w).1
after_failure P (returned a) w f (e, q) h = absurd (cc)
after_failure P (raised e) w f c h = ((e, refl), h)

module _ {P : World → Type 0} where
  Fails-after :
      {A B : Type 0} (o : Outcome A) (w : World) (f : A → Exec B)
      → P w
      → ((a : A) → Fails P (f a))
      → ((e : Exc) × ((continue o f w).0 ≡ raised e)) × P (continue o f w).1
  Fails-after (returned a) w f h k = (k a).at w h
  Fails-after (raised e) w f h k = ((e, refl), h)

  Fails-bind :
      {A B : Type 0} (m : Exec A) (f : A → Exec B)
      → Keeps P m
      → ((a : A) → Fails P (f a))
      → Fails P (m >>= f)
  unfolding ◌>>=◌
  Fails-bind m f km kf = record { at = λ w h. Fails-after (m w).0 (m w).1 f (km.at w h) kf }

  -- What follows a failure is not run.
  Fails-first : {A B : Type 0} (m : Exec A) (f : A → Exec B) → Fails P m → Fails P (m >>= f)
  unfolding ◌>>=◌
  Fails-first m f fm = record {
    at = λ w h. after_failure P (m w).0 (m w).1 f (fm.at w h).0 (fm.at w h).1;
  }

-- Nothing was sent and nothing was scraped.
abbrev pub IsIdle : List Sent → List ScrapeRow → World → Type 0
IsIdle sends scrapes w = (w.sends ≡ sends) × (w.scrapes ≡ scrapes)

module _ (env : Env) (now : ℕ) (before after : List Job) (bad : Job) (e : Exc) (sends : List Sent)
    (scrapes : List ScrapeRow) (refused : env.period bad.schedule_cron now ≡ raised e) where
  run_plan_a-Fails :
      (index : Index)
      → Fails (IsIdle sends scrapes) (run_plan_a env now index (before ++ bad ∷ after))
  unfolding run_plan_a lift
  run_plan_a-Fails index =
      Fails-first _ _
        (record { at = λ w h. (required_periods_raises env now before after bad e [] refused, h) })

  reap-IsIdle :
      (cutoff : ℕ) (jobs : List Job)
      → Keeps (IsIdle sends scrapes) (reap_stale_job_runs env cutoff jobs)
  unfolding reap_stale_job_runs reap_job
  reap-IsIdle cutoff jobs =
      Keeps-for_each _ jobs
        λ job. Keeps-catch _ _ (Keeps-store_call env _ (λ w h. h) (λ w h. h)) (λ x. Keeps-pure tt)

  tick_jobs-Fails :
      (config : Config) (reaper : ℕ)
      → Fails (IsIdle sends scrapes) (tick_jobs env config reaper now (before ++ bad ∷ after))
  unfolding tick_jobs
  tick_jobs-Fails config reaper =
      Fails-bind _ _ (reap-IsIdle (now - reaper) (before ++ bad ∷ after)) λ _.
        Fails-bind _ _
          (load_indexes-Keeps env config (λ w h. h) (owners_of (before ++ bad ∷ after)))
          λ indexes. Fails-first _ _ (run_plan_a-Fails (index_of indexes))

  tick_on-jobs :
      (config : Config) (reaper : ℕ) (xs : List Job)
      → tick_on env config reaper now (returned (xs ++ bad ∷ after))
        ≡ tick_jobs env config reaper now (xs ++ bad ∷ after)
  tick_on-jobs config reaper [] = refl
  tick_on-jobs config reaper (x ∷ xs) = refl

  -- If the enabled jobs are listed and one of them, of any owner, has a schedule that croniter
  -- refuses, the tick raises, and in it no source is scraped and no digest is sent, to nobody.
  pub evaluate_tick_poisoned :
      (config : Config) (reaper : ℕ) (w : World)
      → config.enabled_jobs ≡ returned (before ++ bad ∷ after)
      → w.sends ≡ sends
      → w.scrapes ≡ scrapes
      → ((x : Exc) × ((evaluate_tick env config reaper now w).0 ≡ raised x))
        × IsIdle sends scrapes (evaluate_tick env config reaper now w).1
  unfolding evaluate_tick
  evaluate_tick_poisoned config reaper w listed s r =
      rw (listed, tick_on-jobs config reaper before) ((tick_jobs-Fails config reaper).at _ (s, r))
