-- ===== src/State/Scrapes/Sorting.antt =====
-- `by_ts` sorts, and keeps the rows of a test in order.
use kerdoos.Prelude.{
  ℕ, ◌≤◌, ◌≡◌, refl, sym, ap, ◌∙◌, inl, inr, Bool, true, false, List, [], ◌∷◌, leb, arith, keep,
  Bool-cases, All,
}
use kerdoos.State.Scrapes.{ScrapeRow, insert_by_ts, by_ts}

-- No row is newer than the one in front of it.
abbrev pub IsNewestFirst : List ScrapeRow → Type 0
IsNewestFirst [] = Unit
IsNewestFirst (r ∷ rs) = All (λ x. x.scrape.ts ≤ r.scrape.ts) rs × IsNewestFirst rs

All-le_trans :
    (a b : ℕ) (rs : List ScrapeRow)
    → a ≤ b
    → All (λ x. x.scrape.ts ≤ a) rs
    → All (λ x. x.scrape.ts ≤ b) rs
All-le_trans a b [] h l = tt
All-le_trans a b (x ∷ rs) h l = (omega arith, All-le_trans a b rs h l.1)

All-insert_by_ts :
    (n : ℕ) (r : ScrapeRow) (rs : List ScrapeRow)
    → r.scrape.ts ≤ n
    → All (λ x. x.scrape.ts ≤ n) rs
    → All (λ x. x.scrape.ts ≤ n) (insert_by_ts r rs)
unfolding insert_by_ts
All-insert_by_ts n r [] h l = (h, tt)
All-insert_by_ts n r (x ∷ rs) h l = ground (arith, All-insert_by_ts n r rs h l.1)

insert_by_ts-IsNewestFirst :
    (r : ScrapeRow) (rs : List ScrapeRow) → IsNewestFirst rs → IsNewestFirst (insert_by_ts r rs)
unfolding insert_by_ts
insert_by_ts-IsNewestFirst r [] s = (tt, tt)
insert_by_ts-IsNewestFirst r (x ∷ rs) s = elim (Bool-cases (leb x.scrape.ts r.scrape.ts)) [
  | inl e ↦ simp e ((ground arith, All-le_trans x.scrape.ts r.scrape.ts rs (ground arith) s.0), s)
  | inr e ↦
      simp e
        (All-insert_by_ts x.scrape.ts r rs (ground arith) s.0, insert_by_ts-IsNewestFirst r rs s.1)
]

pub by_ts-IsNewestFirst : (rs : List ScrapeRow) → IsNewestFirst (by_ts rs)
unfolding by_ts
by_ts-IsNewestFirst [] = tt
by_ts-IsNewestFirst (r ∷ rs) = insert_by_ts-IsNewestFirst r (by_ts rs) (by_ts-IsNewestFirst rs)

-- A row that is not older than any goes in front.
pub insert_by_ts_front :
    (r : ScrapeRow) (rs : List ScrapeRow)
    → All (λ x. x.scrape.ts ≤ r.scrape.ts) rs
    → insert_by_ts r rs ≡ r ∷ rs
unfolding insert_by_ts
insert_by_ts_front r [] h = refl
insert_by_ts_front r (x ∷ rs) h = ground arith

All-keep :
    (n : ℕ) (p : ScrapeRow → Bool) (rs : List ScrapeRow)
    → All (λ x. x.scrape.ts ≤ n) rs
    → All (λ x. x.scrape.ts ≤ n) (keep p rs)
unfolding keep
All-keep n p [] h = tt
All-keep n p (x ∷ rs) h = ground (arith, All-keep n p rs h.1)

-- A row that the test drops leaves no trace, and one that it keeps finds its place among those kept.
keep-insert_by_ts_out :
    (p : ScrapeRow → Bool) (r : ScrapeRow) (rs : List ScrapeRow)
    → p r ≡ false
    → keep p (insert_by_ts r rs) ≡ keep p rs
unfolding keep insert_by_ts
keep-insert_by_ts_out p r [] e = rw e
keep-insert_by_ts_out p r (x ∷ rs) e = ground (arith, keep-insert_by_ts_out p r rs e)

keep-insert_by_ts_in :
    (p : ScrapeRow → Bool) (r : ScrapeRow) (rs : List ScrapeRow)
    → p r ≡ true
    → IsNewestFirst rs
    → keep p (insert_by_ts r rs) ≡ insert_by_ts r (keep p rs)
unfolding keep insert_by_ts
keep-insert_by_ts_in p r [] e s = rw e
keep-insert_by_ts_in p r (x ∷ rs) e s = elim (Bool-cases (leb x.scrape.ts r.scrape.ts)) [
  | inl h ↦
      simp (h, e)
        (sym (
          insert_by_ts_front r (keep p (x ∷ rs)) (
            All-keep r.scrape.ts p (x ∷ rs)
              (ground arith, All-le_trans x.scrape.ts r.scrape.ts rs (ground arith) s.0))))
  | inr h ↦ ground (arith, keep-insert_by_ts_in p r rs e s.1)
]

-- To sort and then to filter is to filter and then to sort.
pub keep-by_ts :
    (p : ScrapeRow → Bool) (rs : List ScrapeRow) → keep p (by_ts rs) ≡ by_ts (keep p rs)
unfolding by_ts
keep-by_ts p [] = unfold keep in refl
keep-by_ts p (r ∷ rs) = elim (Bool-cases (p r)) [
  | inl e ↦
      keep-insert_by_ts_in p r (by_ts rs) e (by_ts-IsNewestFirst rs)
      ∙ (ap (insert_by_ts r) (keep-by_ts p rs) ∙ sym (unfold keep in rw e))
  | inr e ↦ keep-insert_by_ts_out p r (by_ts rs) e ∙ (keep-by_ts p rs ∙ sym (unfold keep in rw e))
]
