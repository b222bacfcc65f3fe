-- ===== src/Examples/Scraping.antt =====
-- The scrape pipeline at concrete inputs.
use kerdoos.Prelude.{ℕ, ◌≡◌, ◌↔◌}
use kerdoos.Scrape.Domain.{Extract, FetchResult, Availability, ScrapeStatus}
use kerdoos.Scrape.Retry.{fetch_with_retry}
use kerdoos.Scrape.Retry.Attempts.{Attempts, fetch_with_retry_attempts}
use kerdoos.Scrape.Orchestrator.{scrape_one}
use kerdoos.Scrape.Orchestrator.FailClosed.{Reads, scrape_one-unavailable}
use kerdoos.Examples.Data.{fetch_page, fetch_blocked, read_sold_out}

fetch_with_retry_attempts_example :
    (n : ℕ) × Attempts fetch_blocked 1 0 3 (fetch_with_retry fetch_blocked 3 1) n
fetch_with_retry_attempts_example = fetch_with_retry_attempts fetch_blocked 1 3

scrape_one-unavailable_example :
    ((scrape_one fetch_page read_sold_out "s" 7).status ≡ ScrapeStatus.unavailable) ↔ (
      (r : FetchResult) × (e : Extract) × Reads fetch_page read_sold_out r e
      × (e.availability ≡ Availability.out_of_stock))
scrape_one-unavailable_example = scrape_one-unavailable fetch_page read_sold_out "s" 7
