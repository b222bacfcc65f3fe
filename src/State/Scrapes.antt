-- ===== src/State/Scrapes.antt =====
-- The `scrapes` table: record, history, latest_all. The newest row stands in front, so the order of
-- the list is `id DESC`.
pub mod Sorting
pub mod Tenancy
pub mod Latest
pub mod Newest
use Prim.Native.Nat.{Ordering}
use Prim.Native.String.{compare}
use kerdoos.Prelude.{
  ℕ, String, Bool, true, false, ◌&&◌, Option, none, some, List, [], ◌∷◌, map, ◌==◌, leb, take,
  if◌then◌else◌, keep, some_in,
}
use kerdoos.Scrape.Domain.{ScrapeRecord}

pub record ScrapeRow : Type 0 where
  pub owner_id : String
  pub scrape : ScrapeRecord

-- `record` raises ValueError on an empty owner.
unfoldable pub record_scrape : String → ScrapeRecord → List ScrapeRow → Option (List ScrapeRow)
record_scrape owner scrape rows =
    if owner == "" then none else some ((record { owner_id = owner; scrape = scrape }) ∷ rows)

-- ORDER BY ts DESC, id DESC: a row goes before the older rows of the same ts.
unfoldable pub insert_by_ts : ScrapeRow → List ScrapeRow → List ScrapeRow
insert_by_ts r [] = r ∷ []
insert_by_ts r (x ∷ xs) =
    let rest = insert_by_ts r xs in if leb x.scrape.ts r.scrape.ts then r ∷ x ∷ xs else x ∷ rest

unfoldable pub by_ts : List ScrapeRow → List ScrapeRow
by_ts [] = []
by_ts (r ∷ rs) = insert_by_ts r (by_ts rs)

abbrev pub is_of : String → String → ScrapeRow → Bool
is_of owner source_id r = (r.owner_id == owner) && (r.scrape.source_id == source_id)

abbrev pub scrapes_of : List ScrapeRow → List ScrapeRecord
scrapes_of = map (λ r. r.scrape)

unfoldable pub history : String → String → ℕ → List ScrapeRow → List ScrapeRecord
unfolding by_ts insert_by_ts keep
history owner source_id limit rows =
    scrapes_of (take limit (by_ts (keep (is_of owner source_id) rows)))

-- ROW_NUMBER() OVER (PARTITION BY source_id ORDER BY ts DESC, id DESC) = 1, on rows in that
-- order: the first row of each source. The sources that were met are `seen`.
unfoldable pub firsts : List String → List ScrapeRow → List ScrapeRow
firsts seen [] = []
firsts seen (r ∷ rs) =
    let skipped = firsts seen rs in
    let taken = firsts (r.scrape.source_id ∷ seen) rs in
    if some_in (λ s. s == r.scrape.source_id) seen then skipped else r ∷ taken

-- ORDER BY source_id: texts compare by code point, as SQLite compares their bytes.
unfoldable pub insert_by_source : ScrapeRow → List ScrapeRow → List ScrapeRow
insert_by_source r [] = r ∷ []
insert_by_source r (x ∷ xs) =
    let rest = insert_by_source r xs in
    elim (compare x.scrape.source_id r.scrape.source_id) [ Ordering.lt ↦ x ∷ rest | _ ↦ r ∷ x ∷ xs ]

unfoldable pub by_source : List ScrapeRow → List ScrapeRow
by_source [] = []
by_source (r ∷ rs) = insert_by_source r (by_source rs)

unfoldable pub latest_all : String → List ScrapeRow → List ScrapeRecord
unfolding by_source insert_by_source firsts by_ts insert_by_ts keep some_in
latest_all owner rows =
    scrapes_of (by_source (firsts [] (by_ts (keep (λ r. r.owner_id == owner) rows))))
