-- ===== src/Scrape/Orchestrator/FailClosed.antt =====
-- The scrape records of core/orchestrator.py.
use kerdoos.Prelude.{
  ◌≤◌, ◌+◌, none, arith, ℕ, String, ◌≡◌, refl, ◌∙◌, inl, inr, ◌↔◌, true, false, arith, Bool-cases,
}
use kerdoos.Scrape.Domain.{
  ok, indeterminate, unavailable, out_of_stock, Extract, has_price, FetchResult, fetch_error,
  parse_error, other, Outcome, returned, raised, ScrapeRecord, Fetcher, Parser,
}
use kerdoos.Scrape.Retry.{fetch_with_retry, default_retries}
use kerdoos.Scrape.Retry.Attempts.{IsChallenged, fetch_with_retry_attempts}
use kerdoos.Scrape.Verdict.{compute_verdict}
use kerdoos.Scrape.Orchestrator.{scrape_one, on_extract, on_fetch, parsed, indeterminate_record}

-- The page that the loop came back with, and what the parser read on it.
abbrev pub Reads : Fetcher → Parser → FetchResult → Extract → Type 0
Reads fetch parser r e =
    ((fetch_with_retry fetch default_retries 1).outcome ≡ returned r)
    × (r.challenged ≡ false)
    × (parser r.html ≡ returned e)

module _ (source_id : String) (now : ℕ) where
  on_extract-unavailable :
      (r : FetchResult) (x : Outcome Extract)
      → r.challenged ≡ false
      → (on_extract source_id now r x).status ≡ unavailable
      → (e : Extract) × (x ≡ returned e) × (e.availability ≡ out_of_stock)
  unfolding indeterminate_record compute_verdict
  on_extract-unavailable r (returned e) c h = (e, refl, ground arith)
  on_extract-unavailable r (raised (parse_error m)) c h = cc
  on_extract-unavailable r (raised x) c h = cc

  on_extract-ok :
      (r : FetchResult) (x : Outcome Extract)
      → r.challenged ≡ false
      → (on_extract source_id now r x).status ≡ ok
      → (e : Extract) × (x ≡ returned e)
        × (has_price e ≡ true)
        × (on_extract source_id now r x ≡ parsed source_id now r e)
  unfolding indeterminate_record compute_verdict
  on_extract-ok r (returned e) c h = (e, refl, ground arith, refl)
  on_extract-ok r (raised (parse_error m)) c h = cc
  on_extract-ok r (raised x) c h = cc

  on_fetch-not-indeterminate :
      (parser : Parser) (o : Outcome FetchResult)
      → ¬ ((on_fetch source_id now parser o).status ≡ indeterminate)
      → (r : FetchResult) × (o ≡ returned r)
        × (r.challenged ≡ false)
        × (on_fetch source_id now parser o ≡ on_extract source_id now r (parser r.html))
  unfolding indeterminate_record
  on_fetch-not-indeterminate parser (returned r) h = elim (Bool-cases r.challenged) [
    | inl c ↦ absurd (h (ground arith))
    | inr c ↦ (r, refl, c, ground arith)
  ]
  on_fetch-not-indeterminate parser (raised (fetch_error m)) h = absurd (h refl)
  on_fetch-not-indeterminate parser (raised (parse_error m)) h = absurd (h refl)
  on_fetch-not-indeterminate parser (raised (other k m)) h = absurd (h refl)

module _ (fetch : Fetcher) (parser : Parser) (source_id : String) (now : ℕ) where
  -- A stock-out is recorded exactly when the retry loop came back with a page that is not
  -- challenged and on which the parser read OutOfStock.
  pub scrape_one-unavailable : ((scrape_one fetch parser source_id now).status ≡ unavailable) ↔ (
      (r : FetchResult) × (e : Extract) × Reads fetch parser r e × (e.availability ≡ out_of_stock))
  unfolding scrape_one
  scrape_one-unavailable = (forth, back)
    where
      forth :
          (scrape_one fetch parser source_id now).status ≡ unavailable
          → (r : FetchResult) × (e : Extract) × Reads fetch parser r e
            × (e.availability ≡ out_of_stock)
      forth h =
          let (r, o, c, same) =
            on_fetch-not-indeterminate source_id now parser
              (fetch_with_retry fetch default_retries 1).outcome (λ i. cc) in
          let (e, p, a) = on_extract-unavailable source_id now r (parser r.html) c (cc) in
          (r, e, (o, c, p), a)

      back :
          ((r : FetchResult) × (e : Extract) × Reads fetch parser r e
            × (e.availability ≡ out_of_stock))
          → (scrape_one fetch parser source_id now).status ≡ unavailable
      back (r, e, (o, c, p), a) = rw o (unfold compute_verdict in ground arith)

  -- A record with status ok is the record of a page that is not challenged and on which the
  -- parser read a price: its prices and currency are those that were read, and it has no error.
  pub scrape_one-ok :
      (scrape_one fetch parser source_id now).status ≡ ok
      → (r : FetchResult) × (e : Extract) × Reads fetch parser r e
        × (has_price e ≡ true)
        × (scrape_one fetch parser source_id now ≡ parsed source_id now r e)
  unfolding scrape_one
  scrape_one-ok h =
      let (r, o, c, same) =
        on_fetch-not-indeterminate source_id now parser
          (fetch_with_retry fetch default_retries 1).outcome (λ i. cc) in
      let (e, p, priced, full) = on_extract-ok source_id now r (parser r.html) c (cc) in
      (r, e, (o, c, p), priced, same ∙ full)

-- No price in any slot.
abbrev pub IsPriceless : ScrapeRecord → Type 0
IsPriceless r =
    (r.price_pix_cents ≡ none)
    × (r.price_card_cents ≡ none)
    × (r.price_pix_member_cents ≡ none)
    × (r.price_card_member_cents ≡ none)

module _ (parser : Parser) (source_id : String) (now : ℕ) where
  on_challenged :
      (o : Outcome FetchResult)
      → IsChallenged o
      → ((on_fetch source_id now parser o).status ≡ indeterminate)
        × IsPriceless (on_fetch source_id now parser o)
  unfolding indeterminate_record
  on_challenged (returned r) c = rw c (refl, (refl, refl, refl, refl))
  on_challenged (raised x) c = absurd c

  -- When each of the four calls that the loop may make is answered with a challenge, the record
  -- is indeterminate and carries no price, whatever the pages hold.
  pub scrape_one_blocked :
      (fetch : Fetcher)
      → ((i : ℕ) → i ≤ default_retries → IsChallenged (fetch i))
      → ((scrape_one fetch parser source_id now).status ≡ indeterminate)
        × IsPriceless (scrape_one fetch parser source_id now)
  unfolding scrape_one
  scrape_one_blocked fetch h =
      let (n, t) = fetch_with_retry_attempts fetch 1 default_retries in
      rw (t.answer) (on_challenged (fetch (0 + n)) (h (0 + n) (omega (arith, t.within))))
