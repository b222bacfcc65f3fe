-- ===== src/Evaluator/PlanA.antt =====
-- `_run_plan_a`: the cadence of each source, and the scrapes that are due.
pub mod Cadence
pub mod Quiet
use kerdoos.Prelude.{
  ℕ, suc, ◌+◌, String, Bool, true, false, not, ◌&&◌, Option, none, some, List, [], ◌∷◌, ◌==◌, ltb,
  if◌then◌else◌,
}
use kerdoos.Scrape.Domain.{Exc, other, Outcome, returned, raised, ScrapeRecord, Fetcher, Parser}
use kerdoos.Scrape.Orchestrator.{scrape_one}
use kerdoos.Registry.{SiteConfig, Entry}
use kerdoos.State.Scrapes.{ScrapeRow, record_scrape, history}
use kerdoos.Evaluator.World.{
  Job, Env, World, Exec, Done, pure, lift, ◌>>=◌, ◌>>◌, catch, modify, store_call, add_scraped,
  add_error, for_each,
}
use kerdoos.Evaluator.PlanB.{Index, history_call}

-- An item of the dict `required_period`, in insertion order.
pub record Need : Type 0 where
  pub owner_id : String
  pub source_id : String
  pub period : ℕ

abbrev pub is_need : String → String → Need → Bool
is_need owner s n = (n.owner_id == owner) && (n.source_id == s)

-- `if current is None or period < current: required_period[key] = period`
unfoldable pub need : String → String → ℕ → List Need → List Need
need owner s period [] = record { owner_id = owner; source_id = s; period = period } ∷ []
need owner s period (n ∷ ns) =
    let rest = need owner s period ns in
    if is_need owner s n
    then (if ltb period n.period then record n { period = period } else n) ∷ ns
    else n ∷ rest

unfoldable pub need_sources : String → ℕ → List String → List Need → List Need
need_sources owner period [] needs = needs
need_sources owner period (s ∷ ss) needs = need_sources owner period ss (need owner s period needs)

-- The first loop. `_job_period` may raise, and nothing in the loop catches it.
abbrev add_job : Job → Outcome ℕ → List Need → Outcome (List Need)
add_job job (raised e) needs = raised e
add_job job (returned period) needs =
    returned (need_sources job.owner_id period job.source_ids needs)

abbrev then_jobs : Outcome (List Need) → (List Need → Outcome (List Need)) → Outcome (List Need)
then_jobs (raised e) k = raised e
then_jobs (returned needs) k = k needs

module _ (env : Env) (now : ℕ) where
  unfoldable pub required_periods : List Job → List Need → Outcome (List Need)
  unfolding need need_sources
  required_periods [] needs = returned needs
  required_periods (job ∷ jobs) needs =
      then_jobs (add_job job (env.period job.schedule_cron now) needs)
        (λ more. required_periods jobs more)

  -- `history and (tick_now - ts) < period`
  abbrev pub is_fresh : ℕ → List ScrapeRecord → Bool
  is_fresh period [] = false
  is_fresh period (r ∷ rs) = ltb now (r.ts + period)

  -- `store.record`: the ValueError of an empty owner, or the new row.
  abbrev stored : Option (List ScrapeRow) → World → Outcome Done × World
  stored none w = (raised (other "ValueError" "owner must not be empty"), w)
  stored (some rows) w = (returned tt, record w { scrapes = rows })

  pub record_call : String → ScrapeRecord → Exec Done
  record_call owner r = do
    answer ← store_call env λ w. stored (record_scrape owner r w.scrapes) w
    lift answer

  -- `router.select(…)`
  pub select_fetcher : SiteConfig → Exec Fetcher
  select_fetcher site w = (env.select w.selected site, record w { selected = suc w.selected })

  -- `scrape_and_record`
  pub scrape_and_record : Fetcher → Parser → String → Entry → Exec Done
  unfolding record_call
  scrape_and_record fetch parser owner e =
      record_call owner (scrape_one fetch parser e.source.source_id now)

  pub scrape_due : String → Entry → Exec Done
  unfolding select_fetcher scrape_and_record
  scrape_due owner e = do
    available ← lift (env.tier_available e.site.fetcher)
    if not available then pure tt else do
      fetch ← select_fetcher e.site
      parser ← lift (env.parser_factory e.site.parser)
      scrape_and_record fetch parser owner e
      modify add_scraped

  pub scrape_need : Index → Need → Exec Done
  unfolding scrape_due
  scrape_need index n = elim (index n.owner_id n.source_id) [
    | none ↦ pure tt
    | some e ↦ do
      latest ← history_call env n.owner_id n.source_id
      if is_fresh n.period latest then pure tt else scrape_due n.owner_id e
  ]

  -- One source must not kill the tick.
  pub guarded_need : Index → Need → Exec Done
  unfolding scrape_need
  guarded_need index n = catch (scrape_need index n) (λ e. modify add_error)

  unfoldable pub run_plan_a : Index → List Job → Exec Done
  unfolding required_periods guarded_need
  run_plan_a index jobs = do
    needs ← lift (required_periods jobs [])
    for_each (guarded_need index) needs
