-- ===== src/Digest/View.antt =====
-- packages/kerdoos/src/kerdoos/digest/view.py: the lines that the HTML template is given.
pub mod Links
use kerdoos.Prelude.{
  ℕ, String, Bool, Option, none, some, List, [], ◌∷◌, if◌then◌else◌, get_or, ◌==◌,
}
use kerdoos.Prelude.Dict.{get}
use kerdoos.Scrape.Domain.{
  Exc, fetch_error, parse_error, other, Outcome, returned, raised, ScrapeRecord, ErrorText,
}
use kerdoos.Registry.Jobs.{DigestJob}
use kerdoos.Egress.Safety.{Net, check_scheme_and_domain}
use kerdoos.Digest.Texts.{sanitize_error}
use kerdoos.Digest.Prices.{price_field}
use kerdoos.Digest.Render.{
  Printing, unknown_source_label, status_value, availability_value, scraped_at_label,
}

pub record DigestLineView : Type 0 where
  pub source_label : String
  pub status_label : String
  pub price_line : String
  pub availability_label : String
  pub scraped_at : String
  pub error : Option String
  pub href : Option String

pub record DigestView : Type 0 where
  pub job_name : String
  pub generated_at : ℕ
  pub lines : List DigestLineView

-- `except SSRFError`; another exception is raised. check_scheme_and_domain raises no other FetchError.
abbrev pub linked : String → Outcome (String × String) → Outcome (Option String)
linked url (returned checked) = returned (some url)
linked url (raised (fetch_error m)) = returned none
linked url (raised (parse_error m)) = raised (parse_error m)
linked url (raised (other k m)) = raised (other k m)

module _ (net : Net) (allowed : String → Bool) where
  unfoldable pub safe_href : Option String → Outcome (Option String)
  unfolding check_scheme_and_domain
  safe_href none = returned none
  safe_href (some url) =
      if url == "" then returned none else linked url (check_scheme_and_domain net url allowed)

  module _ (printing : Printing) where
    open printing use {error_text}

    abbrev pub shown_error : Option ErrorText → Option String
    shown_error none = none
    shown_error (some e) = if error_text e == "" then none else some (sanitize_error (error_text e))

    abbrev pub line_view :
        DigestJob
        → ℕ
        → List (String × String)
        → List (String × String)
        → ScrapeRecord
        → Option String
        → DigestLineView
    line_view job generated_at labels names r href = record {
      source_label = get_or (get r.source_id names) unknown_source_label;
      status_label = status_value r.status;
      price_line = price_field r (get r.source_id labels);
      availability_label = availability_value r.availability;
      scraped_at = scraped_at_label printing r.ts generated_at job.timezone;
      error = shown_error r.error;
      href = href;
    }

    abbrev pub then_line :
        (Option String → DigestLineView)
        → Outcome (Option String)
        → Outcome (List DigestLineView)
        → Outcome (List DigestLineView)
    then_line line (raised e) rest = raised e
    then_line line (returned href) (raised e) = raised e
    then_line line (returned href) (returned ls) = returned (line href ∷ ls)

    unfoldable pub view_lines :
        DigestJob
        → ℕ
        → List (String × String)
        → List (String × String)
        → List (String × String)
        → List ScrapeRecord
        → Outcome (List DigestLineView)
    unfolding safe_href
    view_lines job generated_at labels urls names [] = returned []
    view_lines job generated_at labels urls names (r ∷ rs) =
        then_line (line_view job generated_at labels names r) (safe_href (get r.source_id urls))
          (view_lines job generated_at labels urls names rs)

    abbrev pub in_view : DigestJob → ℕ → Outcome (List DigestLineView) → Outcome DigestView
    in_view job generated_at (raised e) = raised e
    in_view job generated_at (returned ls) =
        returned (record { job_name = job.name; generated_at = generated_at; lines = ls })

    unfoldable pub build_digest_view :
        DigestJob
        → List ScrapeRecord
        → ℕ
        → List (String × String)
        → List (String × String)
        → List (String × String)
        → Outcome DigestView
    unfolding view_lines
    build_digest_view job records generated_at labels urls names =
        in_view job generated_at (view_lines job generated_at labels urls names records)
