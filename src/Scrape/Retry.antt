-- ===== src/Scrape/Retry.antt =====
-- packages/kerdoos/src/kerdoos/core/retry.py: the same-tier retry loop. The sleeps are recorded in
-- the unit of `backoff_base`, in the order in which the code makes them.
pub mod Attempts
use kerdoos.Prelude.{ℕ, zero, suc, ◌+◌, ◌*◌, ◌^◌, Bool, true, false, List, [], ◌∷◌}
use kerdoos.Scrape.Domain.{FetchResult, Outcome, returned, raised, Fetcher}

pub record Run : Type 0 where
  pub outcome : Outcome FetchResult
  pub sleeps : List ℕ

abbrev pub default_retries : ℕ
default_retries = 3

abbrev stop : Outcome FetchResult → Run
stop o = record { outcome = o; sleeps = [] }

abbrev slept : ℕ → Run → Run
slept d run = record { outcome = run.outcome; sleeps = d ∷ run.sleeps }

-- An exception of `fetch` leaves the loop; a result goes on to the next test.
abbrev then_test : Outcome FetchResult → (FetchResult → Run) → Run
then_test (raised e) k = stop (raised e)
then_test (returned r) k = k r

-- `while result.challenged and attempt < retries`, on the retries that are left.
retry_loop : Fetcher → ℕ → ℕ → ℕ → FetchResult → Run
retry_loop fetch base zero attempt result = stop (returned result)
retry_loop fetch base (suc left) attempt result = elim result.challenged [
  | true ↦
      slept (base * 2 ^ attempt)
        (then_test (fetch (attempt + 1)) (λ r. retry_loop fetch base left (attempt + 1) r))
  | false ↦ stop (returned result)
]

unfoldable pub fetch_with_retry : Fetcher → ℕ → ℕ → Run
unfolding retry_loop
fetch_with_retry fetch retries base = then_test (fetch 0) (λ r. retry_loop fetch base retries 0 r)
