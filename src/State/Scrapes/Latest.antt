-- ===== src/State/Scrapes/Latest.antt =====
-- `latest_all` of persistence/sqlite_store.py against `history`.
use kerdoos.Prelude.{
  String, ◌≡◌, refl, List, [], ◌∷◌, ◌==◌, arith, eq_iff, keep, take, some_in, if◌then◌else◌, ap,
  sym, ◌∙◌,
}
use kerdoos.State.Scrapes.{
  ScrapeRow, by_ts, scrapes_of, history, firsts, insert_by_source, by_source, latest_all, is_of,
}
use kerdoos.State.Scrapes.Sorting.{keep-by_ts}

-- The rows of a source.
abbrev pub of_source : String → List ScrapeRow → List ScrapeRow
of_source s = keep (λ r. r.scrape.source_id == s)

of_source-insert_by_source :
    (s : String) (r : ScrapeRow) (rs : List ScrapeRow)
    → of_source s (insert_by_source r rs) ≡ of_source s (r ∷ rs)
unfolding keep insert_by_source
of_source-insert_by_source s r [] = refl
of_source-insert_by_source s r (x ∷ rs) = ground (
  arith,
  eq_iff r.scrape.source_id s,
  eq_iff x.scrape.source_id s,
  eq_iff x.scrape.source_id r.scrape.source_id,
  of_source-insert_by_source s r rs,
)

of_source-cons :
    (s : String) (r : ScrapeRow) (xs ys : List ScrapeRow)
    → of_source s xs ≡ of_source s ys
    → of_source s (r ∷ xs) ≡ of_source s (r ∷ ys)
unfolding keep
of_source-cons s r xs ys e = ground (arith, e)

of_source-by_source :
    (s : String) (rs : List ScrapeRow) → of_source s (by_source rs) ≡ of_source s rs
unfolding by_source
of_source-by_source s [] = refl
of_source-by_source s (r ∷ rs) =
    of_source-insert_by_source s r (by_source rs)
    ∙ of_source-cons s r (by_source rs) rs (of_source-by_source s rs)

of_source-firsts :
    (s : String) (seen : List String) (rs : List ScrapeRow)
    → of_source s (firsts seen rs)
      ≡ (if some_in (λ t. t == s) seen then [] else take 1 (of_source s rs))
unfolding firsts some_in keep
of_source-firsts s seen [] = ground arith
of_source-firsts s seen (r ∷ rs) = ground (
  arith,
  eq_iff r.scrape.source_id s,
  ap (λ z. some_in (λ t. t == z) seen) {x = r.scrape.source_id} {y = s},
  of_source-firsts s seen rs,
  of_source-firsts s (r.scrape.source_id ∷ seen) rs,
)

keep-scrapes_of :
    (s : String) (rs : List ScrapeRow)
    → keep (λ r. r.source_id == s) (scrapes_of rs) ≡ scrapes_of (of_source s rs)
unfolding keep
keep-scrapes_of s [] = refl
keep-scrapes_of s (r ∷ rs) = ground (arith, keep-scrapes_of s rs)

keep-keep :
    (owner s : String) (rs : List ScrapeRow)
    → keep (is_of owner s) rs
      ≡ keep (λ r. r.scrape.source_id == s) (keep (λ r. r.owner_id == owner) rs)
unfolding keep
keep-keep owner s [] = refl
keep-keep owner s (r ∷ rs) = ground (arith, keep-keep owner s rs)

-- For every source, the records of it that the dashboard's `latest_all` shows are those of
-- `history(owner, source_id, limit=1)`: one where the owner has a record of the source, and none
-- otherwise.
pub latest_all-history :
    (owner s : String) (rows : List ScrapeRow)
    → keep (λ r. r.source_id == s) (latest_all owner rows) ≡ history owner s 1 rows
unfolding latest_all history
latest_all-history owner s rows =
    let mine : List ScrapeRow = keep (λ r. r.owner_id == owner) rows in
    keep-scrapes_of s (by_source (firsts [] (by_ts mine)))
    ∙ ap scrapes_of (
        of_source-by_source s (firsts [] (by_ts mine))
        ∙ of_source-firsts s [] (by_ts mine)
        ∙ ap (take 1) (
            keep-by_ts (λ r. r.scrape.source_id == s) mine
            ∙ ap by_ts (sym (keep-keep owner s rows))))
