-- ===== src/State/Scrapes/Tenancy.antt =====
-- The history of persistence/sqlite_store.py after `record`.
use kerdoos.Prelude.{
  ℕ, suc, ◌≤◌, String, ◌≡◌, ◌≢◌, ◌⊎◌, inl, inr, some, List, ◌∷◌, ◌==◌, arith, eq_iff, eq_refl, keep,
  All, Bool-cases,
}
use kerdoos.Scrape.Domain.{ScrapeRecord}
use kerdoos.State.Scrapes.{ScrapeRow, record_scrape, is_of, by_ts, history}
use kerdoos.State.Scrapes.Sorting.{insert_by_ts_front}

-- The rows of one owner's source.
abbrev pub rows_of : String → String → List ScrapeRow → List ScrapeRow
rows_of owner source_id rows = keep (is_of owner source_id) rows

-- A record that is stored for another owner, or for another source, leaves a history as it
-- was.
pub history-record_scrape_other :
    (o s : String) (limit : ℕ) (owner : String) (r : ScrapeRecord) (rows new : List ScrapeRow)
    → (o ≢ owner) ⊎ (s ≢ r.source_id)
    → record_scrape owner r rows ≡ some new
    → history o s limit new ≡ history o s limit rows
unfolding history record_scrape
history-record_scrape_other o s limit owner r rows new ne e =
    ground (arith, eq_iff owner o, eq_iff r.source_id s)

rows_of-cons :
    (owner : String) (r : ScrapeRecord) (rows : List ScrapeRow)
    → rows_of owner r.source_id ((record { owner_id = owner; scrape = r }) ∷ rows)
      ≡ (record { owner_id = owner; scrape = r }) ∷ rows_of owner r.source_id rows
unfolding keep
rows_of-cons owner r rows = ground (arith, eq_refl owner, eq_refl r.source_id)

-- Where the owner is not empty, a record that is not older than any of its owner's source is
-- the first of its history, and the rest is the history before, one shorter.
pub history-record_scrape :
    (limit : ℕ) (owner : String) (r : ScrapeRecord) (rows new : List ScrapeRow)
    → record_scrape owner r rows ≡ some new
    → All (λ x. x.scrape.ts ≤ r.ts) (by_ts (rows_of owner r.source_id rows))
    → history owner r.source_id (suc limit) new ≡ r ∷ history owner r.source_id limit rows
history-record_scrape limit owner r rows new e newest = elim (Bool-cases (owner == "")) [
  | inl b ↦ absurd (unfold record_scrape in ground arith)
  | inr b ↦
      let row : ScrapeRow = record { owner_id = owner; scrape = r } in
      let same : row ∷ rows ≡ new = unfold record_scrape in ground arith in
      rw (← same) (
        unfold history in
        simp (
          rows_of-cons owner r rows,
          insert_by_ts_front row (by_ts (rows_of owner r.source_id rows)) newest,
        ))
]
