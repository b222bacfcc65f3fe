-- ===== src/Digest/View/Links.antt =====
-- The links of a digest (packages/kerdoos/src/kerdoos/digest/view.py).
use Prim.{tt, absurd}
use kerdoos.Prelude.{◌≢◌, ◌⊎◌, inl, inr, eq_of_test, ne_of_test}
use kerdoos.Prelude.{
  ℕ, ◌≡◌, refl, sym, ap, ◌∙◌, String, Bool, true, false, Option, none, some, List, [], ◌∷◌,
  if◌then◌else◌, ◌==◌,
}
use kerdoos.Prelude.Dict.{get}
use kerdoos.Scrape.Domain.{fetch_error, parse_error, other, Outcome, returned, raised, ScrapeRecord}
use kerdoos.Registry.Jobs.{DigestJob}
use kerdoos.Egress.Safety.{Net, check_scheme_and_domain}
use kerdoos.Digest.Render.{Printing}
use kerdoos.Digest.View.{
  DigestLineView, DigestView, linked, safe_href, line_view, then_line, view_lines, in_view,
  build_digest_view,
}

module _ (net : Net) (allowed : String → Bool) where
  -- A url that passes the check of its scheme and domain is linked; one that is refused is not,
  -- and no url is none.
  abbrev pub LinksTo : Option String → Option String → Type 0
  LinksTo none href = href ≡ none
  LinksTo (some url) none =
      (url ≡ "")
      ⊎ ((m : String) × (check_scheme_and_domain net url allowed ≡ raised (fetch_error m)))
  LinksTo (some url) (some linked_url) =
      (linked_url ≡ url)
      × (url ≢ "")
      × ((checked : String × String) × (check_scheme_and_domain net url allowed ≡ returned checked))

  linked-LinksTo :
      (url : String) (o : Outcome (String × String)) (h : Option String)
      → (url == "") ≡ false
      → check_scheme_and_domain net url allowed ≡ o
      → linked url o ≡ returned h
      → LinksTo (some url) h
  linked-LinksTo url (returned checked) none n e k = absurd cc
  linked-LinksTo url (returned checked) (some u) n e k =
      let same : url ≡ u = cc in (sym same, ne_of_test url "" n, (checked, e))
  linked-LinksTo url (raised (fetch_error m)) none n e k = inr (m, e)
  linked-LinksTo url (raised (fetch_error m)) (some u) n e k = absurd cc
  linked-LinksTo url (raised (parse_error m)) h n e k = absurd cc
  linked-LinksTo url (raised (other x m)) h n e k = absurd cc

  safe_href-LinksTo : (o h : Option String) → safe_href net allowed o ≡ returned h → LinksTo o h
  unfolding safe_href
  safe_href-LinksTo none none e = refl
  safe_href-LinksTo none (some u) e = absurd cc
  safe_href-LinksTo (some url) h e = by_test (url == "") refl h e
    where
      by_test :
          (b : Bool)
          → (url == "") ≡ b
          → (x : Option String)
          → (if b then returned none else linked url (check_scheme_and_domain net url allowed))
            ≡ returned x
          → LinksTo (some url) x
      by_test true n none k = inl (eq_of_test url "" n)
      by_test true n (some u) k = absurd cc
      by_test false n x k = linked-LinksTo url _ x n refl k

  module _ (printing : Printing) where
    -- Each line's link is that of the record in its place.
    abbrev pub MatchesRecords :
        List (String × String) → List ScrapeRecord → List DigestLineView → Type 0
    MatchesRecords urls [] [] = Unit {0}
    MatchesRecords urls [] (l ∷ ls) = ⊥
    MatchesRecords urls (r ∷ rs) [] = ⊥
    MatchesRecords urls (r ∷ rs) (l ∷ ls) =
        LinksTo (get r.source_id urls) l.href × MatchesRecords urls rs ls

    module _ (job : DigestJob) (generated_at : ℕ) (labels urls names : List (String × String)) where
      matched_line :
          (r : ScrapeRecord) (rs : List ScrapeRecord) (o : Outcome (Option String))
          (rest : Outcome (List DigestLineView)) (ls : List DigestLineView)
          → safe_href net allowed (get r.source_id urls) ≡ o
          → ((ks : List DigestLineView) → rest ≡ returned ks → MatchesRecords urls rs ks)
          → then_line net allowed printing
              (line_view net allowed printing job generated_at labels names r)
              o
              rest
            ≡ returned ls
          → MatchesRecords urls (r ∷ rs) ls
      matched_line r rs (raised e) rest ls p f q = absurd cc
      matched_line r rs (returned href) (raised e) ls p f q = absurd cc
      matched_line r rs (returned href) (returned ks) [] p f q = absurd cc
      matched_line r rs (returned href) (returned ks) (l ∷ ls) p f q =
          let hrefs : href ≡ l.href = cc in
          let rest : ks ≡ ls = cc in
          let known = p ∙ ap returned hrefs in
          (safe_href-LinksTo (get r.source_id urls) l.href known, f ls (ap returned rest))

      lines-MatchesRecords :
          (rs : List ScrapeRecord) (ls : List DigestLineView)
          → view_lines net allowed printing job generated_at labels urls names rs ≡ returned ls
          → MatchesRecords urls rs ls
      unfolding view_lines
      lines-MatchesRecords [] [] e = tt
      lines-MatchesRecords [] (l ∷ ls) e = absurd cc
      lines-MatchesRecords (r ∷ rs) ls e =
          matched_line r rs (safe_href net allowed (get r.source_id urls))
            (view_lines net allowed printing job generated_at labels urls names rs) ls refl
            (lines-MatchesRecords rs) e

      in_view-MatchesRecords :
          (rs : List ScrapeRecord) (o : Outcome (List DigestLineView)) (v : DigestView)
          → ((ls : List DigestLineView) → o ≡ returned ls → MatchesRecords urls rs ls)
          → in_view net allowed printing job generated_at o ≡ returned v
          → MatchesRecords urls rs v.lines
      in_view-MatchesRecords rs (raised e) v f p = absurd cc
      in_view-MatchesRecords rs (returned ls) v f p = f v.lines (ap returned cc)

-- A digest's view has one line for each record, in their order. Where a line has a link, it is the
-- url of its source, and its scheme and domain passed the check; where it has none, the source has
-- no url or an empty one, or the check refused it.
pub build_digest_view-MatchesRecords :
    (net : Net) (allowed : String → Bool) (printing : Printing) (job : DigestJob)
    (records : List ScrapeRecord) (generated_at : ℕ) (labels urls names : List (String × String))
    (v : DigestView)
    → build_digest_view net allowed printing job records generated_at labels urls names ≡ returned v
    → MatchesRecords net allowed printing urls records v.lines
unfolding build_digest_view
build_digest_view-MatchesRecords net allowed printing job records generated_at labels urls names v
      e =
    in_view-MatchesRecords net allowed printing job generated_at labels urls names records
      (view_lines net allowed printing job generated_at labels urls names records) v
      (lines-MatchesRecords net allowed printing job generated_at labels urls names records) e
