-- ===== src/Evaluator/PlanA/Quiet.antt =====
-- The parts of the state that `_run_plan_a` in core/evaluator.py does not touch.
use kerdoos.Prelude.{ℕ, String, ◌≡◌, true, not, Option, none, some, List, arith, if◌then◌else◌}
use kerdoos.Scrape.Domain.{ScrapeRecord}
use kerdoos.Registry.{SiteConfig, Entry}
use kerdoos.State.Scrapes.{ScrapeRow, record_scrape, history}
use kerdoos.Evaluator.World.{Job, Env, World, ◌>>=◌, pure, store_call, add_scraped, add_error}
use kerdoos.Evaluator.World.Keeps.{
  Keeps, Keeps-pure, Keeps-if, Keeps-lift, Keeps-bind, Keeps-catch, Keeps-for_each, Keeps-modify,
  Keeps-store_call,
}
use kerdoos.Evaluator.PlanB.{Index, history_call}
use kerdoos.Evaluator.PlanA.{
  Need, is_fresh, stored, record_call, select_fetcher, scrape_and_record, scrape_due, scrape_need,
  guarded_need, run_plan_a,
}

-- A condition that does not read the scrapes, the summary or the counters of plan A.
pub record IsBlind (P : World → Type 0) : Type 0 where
  pub calls : (w : World) (n : ℕ) → P w → P (record w { calls = n })
  pub selected : (w : World) (n : ℕ) → P w → P (record w { selected = n })
  pub scrapes : (w : World) (rows : List ScrapeRow) → P w → P (record w { scrapes = rows })
  pub scraped : (w : World) → P w → P (add_scraped w)
  pub failed : (w : World) → P w → P (add_error w)

module _ {P : World → Type 0} (blind : IsBlind P) (env : Env) (now : ℕ) where
  history_call-Keeps : (owner s : String) → Keeps P (history_call env owner s)
  unfolding history_call
  history_call-Keeps owner s = Keeps-store_call env _ (λ w h. blind.calls w _ h) (λ w h. h)

  stored-keeps : (o : Option (List ScrapeRow)) (w : World) → P w → P (stored env now o w).1
  stored-keeps none w h = h
  stored-keeps (some rows) w h = blind.scrapes w rows h

  record_call-Keeps : (owner : String) (r : ScrapeRecord) → Keeps P (record_call env now owner r)
  unfolding record_call
  record_call-Keeps owner r =
      Keeps-bind _ _
        (Keeps-store_call env _ (λ w h. blind.calls w _ h)
          (λ w h. stored-keeps (record_scrape owner r w.scrapes) w h))
        (λ o. Keeps-lift o)

  select_fetcher-Keeps : (site : SiteConfig) → Keeps P (select_fetcher env now site)
  unfolding select_fetcher
  select_fetcher-Keeps site = record { at = λ w h. blind.selected w _ h }

  scrape_due-Keeps : (owner : String) (e : Entry) → Keeps P (scrape_due env now owner e)
  unfolding scrape_due scrape_and_record
  scrape_due-Keeps owner e = Keeps-bind _ _ (Keeps-lift _) λ available.
      Keeps-if (not available) _ _ (Keeps-pure tt) (
        Keeps-bind _ _ (select_fetcher-Keeps e.site) λ fetch.
          Keeps-bind _ _ (Keeps-lift _) λ parser.
            Keeps-bind _ _ (record_call-Keeps owner _)
              (λ _. Keeps-modify add_scraped blind.scraped))

  entry-Keeps :
      (o : Option Entry) (n : Need)
      → Keeps P (elim o [
        | none ↦ pure tt
        | some e ↦ history_call env n.owner_id n.source_id >>= λ latest.
            if is_fresh env now n.period latest then pure tt else scrape_due env now n.owner_id e
      ])
  entry-Keeps none n = Keeps-pure tt
  entry-Keeps (some e) n = Keeps-bind _ _ (history_call-Keeps n.owner_id n.source_id) λ latest.
      Keeps-if (is_fresh env now n.period latest) _ _ (Keeps-pure tt)
        (scrape_due-Keeps n.owner_id e)

  scrape_need-Keeps : (index : Index) (n : Need) → Keeps P (scrape_need env now index n)
  unfolding scrape_need
  scrape_need-Keeps index n = entry-Keeps (index n.owner_id n.source_id) n

  -- What does not depend on the scrapes and the counters is kept.
  pub run_plan_a-Keeps : (index : Index) (jobs : List Job) → Keeps P (run_plan_a env now index jobs)
  unfolding run_plan_a guarded_need
  run_plan_a-Keeps index jobs = Keeps-bind _ _ (Keeps-lift _) λ needs.
      Keeps-for_each _ needs
        λ n. Keeps-catch _ _ (scrape_need-Keeps index n) (λ e. Keeps-modify add_error blind.failed)

module _ (env : Env) (now : ℕ) where
  -- A source whose last scrape is younger than its required period is not scraped: no fetcher is
  -- selected for it and no row is added.
  pub scrape_need_fresh :
      (index : Index) (n : Need) (w : World)
      → is_fresh env now n.period (history n.owner_id n.source_id 1 w.scrapes) ≡ true
      → ((scrape_need env now index n w).1.scrapes ≡ w.scrapes)
        × ((scrape_need env now index n w).1.selected ≡ w.selected)
  unfolding scrape_need history_call store_call ◌>>=◌ pure
  scrape_need_fresh index n w h = (ground arith, ground arith)
