-- ===== src/Scrape/Orchestrator.antt =====
-- packages/kerdoos/src/kerdoos/core/orchestrator.py: `scrape_one` and its fail-closed net.
pub mod FailClosed
use kerdoos.Prelude.{ℕ, String, Option, none, some, true, if◌then◌else◌}
use kerdoos.Scrape.Domain.{
  ScrapeStatus, ok, indeterminate, unavailable, unknown, Extract, FetchResult, Exc, fetch_error,
  parse_error, other, Outcome, returned, raised, ErrorText, ScrapeRecord, Fetcher, Parser,
}
use kerdoos.Scrape.Retry.{Run, fetch_with_retry, default_retries}
use kerdoos.Scrape.Verdict.{compute_verdict}

unfoldable pub indeterminate_record : String → ℕ → Option String → ErrorText → ScrapeRecord
indeterminate_record source_id ts method error = record {
  source_id = source_id;
  ts = ts;
  status = indeterminate;
  price_pix_cents = none;
  price_card_cents = none;
  currency = none;
  availability = unknown;
  method = method;
  error = some error;
  price_pix_member_cents = none;
  price_card_member_cents = none;
  raw_ref = none;
}

module _ (source_id : String) (ts : ℕ) where
  -- The record of a page that was parsed.
  abbrev pub parsed : FetchResult → Extract → ScrapeRecord
  parsed result e = record {
    source_id = source_id;
    ts = ts;
    status = compute_verdict (some result) (some e) none;
    price_pix_cents = e.price_pix_cents;
    price_card_cents = e.price_card_cents;
    currency = some e.currency;
    availability = e.availability;
    method = some result.method;
    error = none;
    price_pix_member_cents = e.price_pix_member_cents;
    price_card_member_cents = e.price_card_member_cents;
    raw_ref = none;
  }

  -- `extract = parser.extract(result.html)` with its `except ParseError`; any other exception
  -- leaves for the net.
  abbrev pub on_extract : FetchResult → Outcome Extract → ScrapeRecord
  on_extract result (returned e) = parsed result e
  on_extract result (raised (parse_error m)) =
      indeterminate_record source_id ts (some result.method) (ErrorText.parse m)
  on_extract result (raised (fetch_error m)) =
      indeterminate_record source_id ts none (ErrorText.unexpected (fetch_error m))
  on_extract result (raised (other k m)) =
      indeterminate_record source_id ts none (ErrorText.unexpected (other k m))

  -- `result = fetch_with_retry(...)` with its `except FetchError`.
  abbrev pub on_fetch : Parser → Outcome FetchResult → ScrapeRecord
  on_fetch parser (returned result) =
      if result.challenged
      then indeterminate_record source_id ts (some result.method)
          (ErrorText.challenged_http result.status)
      else on_extract result (parser result.html)
  on_fetch parser (raised (fetch_error m)) =
      indeterminate_record source_id ts none (ErrorText.fetch m)
  on_fetch parser (raised (parse_error m)) =
      indeterminate_record source_id ts none (ErrorText.unexpected (parse_error m))
  on_fetch parser (raised (other k m)) =
      indeterminate_record source_id ts none (ErrorText.unexpected (other k m))

-- The retries and the backoff are the defaults of `fetch_with_retry`; both callers pass `now`.
unfoldable pub scrape_one : Fetcher → Parser → String → ℕ → ScrapeRecord
unfolding indeterminate_record
scrape_one fetch parser source_id now =
    on_fetch source_id now parser (fetch_with_retry fetch default_retries 1).outcome
