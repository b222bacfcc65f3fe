-- ===== src/Evaluator/PlanB/Records.antt =====
-- The records of a digest that `_collect_job_digest` in core/evaluator.py reads off the history.
use Prim.{absurd}
use kerdoos.Prelude.{inl, inr, ap}
use kerdoos.Prelude.{◌++◌, some_in, arith}
use kerdoos.Prelude.{String, ◌≡◌, refl, true, false, List, [], ◌∷◌}
use kerdoos.Scrape.Domain.{ScrapeRecord}
use kerdoos.State.Scrapes.{ScrapeRow, history, is_of}
use kerdoos.State.Scrapes.Newest.{Within, IsNewestOf, history-IsNewestOf}
use kerdoos.Evaluator.PlanB.{with_first}

-- The digest of a job: the latest record of each linked source that has one, and the labels.
unfoldable pub records_of : String → List String → List ScrapeRow → List ScrapeRecord
records_of owner [] rows = []
records_of owner (s ∷ ss) rows = with_first (history owner s 1 rows) (records_of owner ss rows)

-- The records are, source by source, a newest one of the owner's where there is one.
abbrev pub IsLatest : String → List ScrapeRow → List String → List ScrapeRecord → Type 0
IsLatest owner rows [] rs = rs ≡ []
IsLatest owner rows (s ∷ ss) rs =
    (newest : List ScrapeRecord) × (rest : List ScrapeRecord) × (rs ≡ newest ++ rest)
    × IsNewestOf owner s rows newest
    × IsLatest owner rows ss rest

with_first-IsLatest :
    (owner s : String) (rows : List ScrapeRow) (ss : List String) (newest rest : List ScrapeRecord)
    → IsNewestOf owner s rows newest
    → IsLatest owner rows ss rest
    → IsLatest owner rows (s ∷ ss) (with_first newest rest)
with_first-IsLatest owner s rows ss [] rest n h = ([], rest, refl, n, h)
with_first-IsLatest owner s rows ss (r ∷ rs) rest n h = (r ∷ [], rest, refl, (refl, n.1, n.2), h)

pub records_of-IsLatest :
    (owner : String) (ss : List String) (rows : List ScrapeRow)
    → IsLatest owner rows ss (records_of owner ss rows)
unfolding records_of
records_of-IsLatest owner [] rows = refl
records_of-IsLatest owner (s ∷ ss) rows =
    with_first-IsLatest owner s rows ss (history owner s 1 rows) (records_of owner ss rows)
      (history-IsNewestOf owner s rows) (records_of-IsLatest owner ss rows)

abbrev pub IsFilled : List ScrapeRecord → Type 0
IsFilled rs = (r : ScrapeRecord) × (more : List ScrapeRecord) × (rs ≡ r ∷ more)

-- A linked source with a row gives a record.
pub records_of-IsFilled :
    (owner : String) (ss : List String) (rows : List ScrapeRow)
    → some_in (λ s. some_in (is_of owner s) rows) ss ≡ true
    → IsFilled (records_of owner ss rows)
unfolding records_of some_in
records_of-IsFilled owner [] rows h = absurd (ground (arith, h))
records_of-IsFilled owner (s ∷ ss) rows h =
    by_history (records_of-IsFilled owner ss rows) (history owner s 1 rows)
      (history-IsNewestOf owner s rows)
  where
    by_history :
        (some_in (λ t. some_in (is_of owner t) rows) ss ≡ true
          → IsFilled (records_of owner ss rows))
        → (newest : List ScrapeRecord) → IsNewestOf owner s rows newest
        → IsFilled (with_first newest (records_of owner ss rows))
    by_history later [] n = later (ground (arith, h, n))
    by_history later (r ∷ more) n = (r, records_of owner ss rows, refl)

pub records_of-empty :
    (owner : String) (ss : List String) (rows : List ScrapeRow)
    → some_in (λ s. some_in (is_of owner s) rows) ss ≡ false
    → records_of owner ss rows ≡ []
unfolding records_of some_in
records_of-empty owner [] rows h = refl
records_of-empty owner (s ∷ ss) rows h =
    by_history (history owner s 1 rows) (history-IsNewestOf owner s rows)
      (records_of-empty owner ss rows (ground (arith, h)))
  where
    by_history :
        (newest : List ScrapeRecord)
        → IsNewestOf owner s rows newest
        → records_of owner ss rows ≡ []
        → with_first newest (records_of owner ss rows) ≡ []
    by_history [] n later = later
    by_history (r ∷ more) n later =
        let (x, i, e, f) = n.1 in absurd (there rows x i e (ground (arith, h)))
      where
        there :
            (xs : List ScrapeRow) (x : ScrapeRow)
            → Within x xs
            → is_of owner s x ≡ true
            → some_in (is_of owner s) xs ≡ false
            → ⊥
        there [] x i e k = i
        there (y ∷ ys) x (inl p) e k = absurd (ground (arith, k, ap (is_of owner s) p, e))
        there (y ∷ ys) x (inr i) e k = there ys x i e (ground (arith, k))
