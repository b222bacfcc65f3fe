-- ===== src/Examples/Data.antt =====
-- A small catalogue, one job and an environment in which every call answers.
use kerdoos.Prelude.{if◌then◌else◌, ◌==◌, ℕ, String, true, false, none, some, [], ◌∷◌}
use kerdoos.Scrape.Domain.{
  Availability, Extract, FetchResult, Exc, Outcome, returned, raised, ScrapeStatus, ScrapeRecord,
  Fetcher, Parser,
}
use kerdoos.Registry.{SiteConfig, Registry}
use kerdoos.State.JobRuns.{JobRun, JobStatus}
use kerdoos.State.Scrapes.{ScrapeRow}
use kerdoos.Evaluator.Executor.{SendExecutor}
use kerdoos.Evaluator.World.{Job, Reply, Env, World, no_summary}
use kerdoos.Evaluator.Tick.{Config, Round}

abbrev pub page : FetchResult
page = record { html = "<html>"; status = 200; method = "http"; challenged = false }

abbrev pub blocked : FetchResult
blocked = record { html = "just a moment"; status = 403; method = "http"; challenged = true }

abbrev pub priced : Extract
priced = record {
  price_pix_cents = some 1999;
  price_card_cents = none;
  currency = "BRL";
  availability = Availability.in_stock;
  price_pix_member_cents = none;
  price_card_member_cents = none;
}

abbrev pub sold_out : Extract
sold_out = record {
  price_pix_cents = some 1999;
  price_card_cents = none;
  currency = "BRL";
  availability = Availability.out_of_stock;
  price_pix_member_cents = none;
  price_card_member_cents = none;
}

abbrev pub fetch_page : Fetcher
fetch_page n = returned page

abbrev pub fetch_blocked : Fetcher
fetch_blocked n = returned blocked

abbrev pub read_priced : Parser
read_priced html = returned priced

abbrev pub read_sold_out : Parser
read_sold_out html = returned sold_out

abbrev pub scrape_at : ℕ → ScrapeRecord
scrape_at t = record {
  source_id = "s";
  ts = t;
  status = ScrapeStatus.ok;
  price_pix_cents = some 1999;
  price_card_cents = none;
  currency = some "BRL";
  availability = Availability.in_stock;
  method = some "http";
  error = none;
  price_pix_member_cents = none;
  price_card_member_cents = none;
  raw_ref = none;
}

abbrev pub row_at : ℕ → ScrapeRow
row_at t = record { owner_id = "alice"; scrape = scrape_at t }

abbrev pub daily : Job
daily = record {
  id = "j";
  owner_id = "alice";
  schedule_cron = "0 8 * * *";
  timezone = "UTC";
  source_ids = "s" ∷ [];
}

-- Five fields, which is all that `normalize_schedule` asks for, but no expression of croniter's.
abbrev pub broken : Job
broken = record {
  id = "b";
  owner_id = "mallory";
  schedule_cron = "x x x x x";
  timezone = "UTC";
  source_ids = "s" ∷ [];
}

abbrev pub run_at : ℕ → JobStatus → JobRun
run_at t status = record {
  job_id = "j";
  owner_id = "alice";
  window_start = t;
  fired_at = t;
  status = status;
  sent_at = none;
  error = none;
}

abbrev pub shop : SiteConfig
shop = record {
  name = "shop";
  domain = "shop.example";
  fetcher = "http";
  parser = "jsonld";
  subresource_domains = [];
  tier2_label = none;
}

abbrev pub catalogue : Registry
catalogue = record {
  sites = ("shop", shop) ∷ [];
  products =
      record {
        id = "p";
        name = none;
        sources =
            record {
              source_id = "s";
              product_id = "p";
              site = "shop";
              url = "https://shop.example/p";
            }
            ∷ [];
      }
      ∷ [];
}

abbrev pub period_of : String → ℕ → Outcome ℕ
period_of cron now =
    if cron == "x x x x x" then raised (Exc.other "CroniterBadCronError" "x") else returned 86400

abbrev pub env : Env
env = record {
  window = λ cron zone now. returned 100;
  period = period_of;
  fault = λ n. none;
  reply = λ n. Reply.answered true;
  is_done = λ n f. true;
  tier_available = λ tier. returned true;
  select = λ n site. returned fetch_page;
  parser_factory = λ name. returned read_priced;
  warning_ttl = 60;
}

abbrev pub config : Config
config = record { enabled_jobs = returned (daily ∷ []); load = λ owner. returned catalogue }

abbrev pub world : World
world = record {
  job_runs = [];
  scrapes = row_at 90 ∷ [];
  summary = no_summary;
  executor = SendExecutor.daemon;
  warned = [];
  sends = [];
  calls = 0;
  submitted = 0;
  looks = 0;
  selected = 0;
}

abbrev pub round : Round
round = record { env = env; config = config; now = 120 }
