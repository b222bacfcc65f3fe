-- ===== src/State/Scrapes/Newest.antt =====
-- `history` of persistence/sqlite_store.py with a limit of one.
use Prim.{tt, absurd}
use kerdoos.Prelude.{
  ◌≤◌, ◌≡◌, refl, ◌⊎◌, inl, inr, Bool, true, false, String, List, [], ◌∷◌, leb, keep, take, some_in,
  All, if◌then◌else◌, arith,
}
use kerdoos.Prelude.Rows.{All-keep, All-weaken}
use kerdoos.Scrape.Domain.{ScrapeRecord}
use kerdoos.State.Scrapes.{ScrapeRow, insert_by_ts, by_ts, is_of, scrapes_of, history}
use kerdoos.State.Scrapes.Sorting.{IsNewestFirst, by_ts-IsNewestFirst}

abbrev pub Within : ScrapeRow → List ScrapeRow → Type 0
Within x [] = ⊥
Within x (y ∷ ys) = (x ≡ y) ⊎ Within x ys

-- No record where no row of the owner is of the source; otherwise the record of such a row, and none
-- of them is newer.
abbrev pub IsNewestOf : String → String → List ScrapeRow → List ScrapeRecord → Type 0
IsNewestOf owner s rows [] = some_in (is_of owner s) rows ≡ false
IsNewestOf owner s rows (r ∷ rs) =
    (rs ≡ [])
    × ((x : ScrapeRow) × Within x rows × (is_of owner s x ≡ true) × (x.scrape ≡ r))
    × All (λ y. is_of owner s y ≡ true → y.scrape.ts ≤ r.ts) rows

rows_are_there : (rows : List ScrapeRow) → All (λ x. Within x rows) rows
rows_are_there [] = tt
rows_are_there (y ∷ ys) = (
  inl refl,
  All-weaken (λ x. Within x ys) (λ x. Within x (y ∷ ys)) (λ x i. inr i) ys (rows_are_there ys),
)

module _ (P : ScrapeRow → Type 0) where
  inserted : (r : ScrapeRow) (rs : List ScrapeRow) → P r → All P rs → All P (insert_by_ts r rs)
  unfolding insert_by_ts
  inserted r [] p h = (p, tt)
  inserted r (x ∷ xs) p h = by_test (inserted r xs p h.1) (leb x.scrape.ts r.scrape.ts)
    where
      by_test :
          All P (insert_by_ts r xs)
          → (b : Bool) → All P (if b then r ∷ x ∷ xs else x ∷ insert_by_ts r xs)
      by_test later true = (p, h)
      by_test later false = (h.0, later)

  sorted : (rs : List ScrapeRow) → All P rs → All P (by_ts rs)
  unfolding by_ts
  sorted [] h = tt
  sorted (r ∷ rs) h = inserted r (by_ts rs) h.0 (sorted rs h.1)

  before_insert : (r : ScrapeRow) (rs : List ScrapeRow) → All P (insert_by_ts r rs) → P r × All P rs
  unfolding insert_by_ts
  before_insert r [] h = (h.0, tt)
  before_insert r (x ∷ xs) h = by_test (before_insert r xs) (leb x.scrape.ts r.scrape.ts) h
    where
      by_test :
          (All P (insert_by_ts r xs) → P r × All P xs)
          → (b : Bool) → All P (if b then r ∷ x ∷ xs else x ∷ insert_by_ts r xs)
          → P r × All P (x ∷ xs)
      by_test later true k = (k.0, k.1)
      by_test later false k = let i = later k.1 in (i.0, (k.0, i.1))

  before_sort : (rs : List ScrapeRow) → All P (by_ts rs) → All P rs
  unfolding by_ts
  before_sort [] h = tt
  before_sort (r ∷ rs) h = let i = before_insert r (by_ts rs) h in (i.0, before_sort rs i.1)

  before_keep :
      (q : ScrapeRow → Bool) (rs : List ScrapeRow)
      → All P (keep q rs)
      → All (λ y. q y ≡ true → P y) rs
  unfolding keep
  before_keep q [] h = tt
  before_keep q (x ∷ xs) h = by_test (before_keep q xs) (q x) refl h
    where
      by_test :
          (All P (keep q xs) → All (λ y. q y ≡ true → P y) xs)
          → (b : Bool) → q x ≡ b
          → All P (if b then x ∷ keep q xs else keep q xs)
          → All (λ y. q y ≡ true → P y) (x ∷ xs)
      by_test later true e k = ((λ t. k.0), later k.1)
      by_test later false e k = ((λ t. absurd (ground (arith, e, t))), later k)

none_passes :
    (q : ScrapeRow → Bool) (rs : List ScrapeRow)
    → All (λ y. q y ≡ true → ⊥) rs
    → some_in q rs ≡ false
unfolding some_in
none_passes q [] h = refl
none_passes q (x ∷ xs) h = by_test (none_passes q xs h.1) (q x) refl
  where
    by_test : some_in q xs ≡ false → (b : Bool) → q x ≡ b → some_in q (x ∷ xs) ≡ false
    by_test later true e = absurd (h.0 e)
    by_test later false e = ground (arith, e, later)

-- The history with a limit of one is a newest record of the owner's rows of the source.
pub history-IsNewestOf :
    (owner s : String) (rows : List ScrapeRow) → IsNewestOf owner s rows (history owner s 1 rows)
unfolding history
history-IsNewestOf owner s rows =
    by_sorted (by_ts (keep q rows))
      (sorted (λ x. Within x rows × (q x ≡ true)) (keep q rows)
        (All-keep (λ x. Within x rows) (λ x. Within x rows × (q x ≡ true)) q (λ x e i. (i, e)) rows
          (rows_are_there rows)))
      (by_ts-IsNewestFirst (keep q rows))
      (λ P h. before_keep P q rows (before_sort P (keep q rows) h))
  where
    q : ScrapeRow → Bool
    q = is_of owner s

    by_sorted :
        (xs : List ScrapeRow)
        → All (λ x. Within x rows × (q x ≡ true)) xs
        → IsNewestFirst xs
        → ((P : ScrapeRow → Type 0) → All P xs → All (λ y. q y ≡ true → P y) rows)
        → IsNewestOf owner s rows (scrapes_of (take 1 xs))
    by_sorted [] a n back = none_passes q rows (back (λ y. ⊥) tt)
    by_sorted (x ∷ xs) a n back =
        (refl, (x, a.0.0, a.0.1, refl), back (λ y. y.scrape.ts ≤ x.scrape.ts) (omega arith, n.0))
