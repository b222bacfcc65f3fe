-- ===== src/Scrape/Verdict.antt =====
-- packages/kerdoos/src/kerdoos/core/verdict.py: the one place where the three-valued status is
-- decided.
use kerdoos.Prelude.{
  String, ◌≡◌, ◌↔◌, Bool, true, false, Option, none, some, is_some, if◌then◌else◌, arith,
}
use kerdoos.Scrape.Domain.{
  ScrapeStatus, ok, indeterminate, unavailable, Availability, out_of_stock, Extract, has_price,
  FetchResult,
}

abbrev is_out_of_stock : Availability → Bool
is_out_of_stock out_of_stock = true
is_out_of_stock _ = false

-- The tests after the two guards.
abbrev of_extract : Extract → ScrapeStatus
of_extract e =
    if is_out_of_stock e.availability
    then unavailable
    else if has_price e
    then ok
    else indeterminate

-- `if extract is None or parse_error is not None`
abbrev of_parse : Option Extract → Option String → ScrapeStatus
of_parse none parse_error = indeterminate
of_parse (some e) parse_error = if is_some parse_error then indeterminate else of_extract e

unfoldable pub compute_verdict : Option FetchResult → Option Extract → Option String → ScrapeStatus
compute_verdict none extract parse_error = indeterminate
compute_verdict (some r) extract parse_error =
    if r.challenged then indeterminate else of_parse extract parse_error

-- A page that was read: not challenged, parsed to `e`, and with no parse error.
abbrev pub IsRead : Option FetchResult → Option Extract → Option String → Extract → Type 0
IsRead fetched extract parse_error e =
    ((r : FetchResult) × (fetched ≡ some r) × (r.challenged ≡ false))
    × (extract ≡ some e)
    × (parse_error ≡ none)

module _ (fetched : Option FetchResult) (extract : Option Extract)
    (parse_error : Option String) where
  -- `unavailable` is answered for a page that was read with an explicit OutOfStock, and only then.
  pub compute_verdict-unavailable :
      (compute_verdict fetched extract parse_error ≡ unavailable)
      ↔ ((e : Extract) × IsRead fetched extract parse_error e × (e.availability ≡ out_of_stock))
  unfolding compute_verdict
  compute_verdict-unavailable = (λ h. ground arith, λ h. ground arith)

  -- `ok` is answered for a page that was read with a price and without OutOfStock, and only then.
  pub compute_verdict-ok : (compute_verdict fetched extract parse_error ≡ ok) ↔ (
      (e : Extract) × IsRead fetched extract parse_error e
      × ¬ (e.availability ≡ out_of_stock)
      × (has_price e ≡ true))
  unfolding compute_verdict
  compute_verdict-ok = (λ h. ground arith, λ h. ground arith)
