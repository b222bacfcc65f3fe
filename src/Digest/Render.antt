-- ===== src/Digest/Render.antt =====
-- packages/kerdoos/src/kerdoos/digest/render.py: the text of a digest. What datetime
-- and zoneinfo do is a parameter; stamps count seconds.
pub mod Lines
pub mod Forging
use Prim.Native.String
use kerdoos.Prelude.{
  ℕ, zero, suc, ◌+◌, ◌-◌, ◌/◌, String, Bool, true, false, not, Option, none, some, List, [], ◌∷◌,
  ◌++◌, map, length, ltb, if◌then◌else◌, get_or, ◌==◌, count_in,
}
use kerdoos.Prelude.Dict.{get}
use kerdoos.Scrape.Domain.{
  ScrapeStatus, ok, indeterminate, unavailable, Availability, in_stock, out_of_stock, unknown,
  ScrapeRecord, ErrorText,
}
use kerdoos.Digest.Texts.{sanitize_error, concat, join_lines, print_nat}
use kerdoos.Digest.Prices.{price_field}

-- What the datetime library and str() of an error are to this code.
pub record Printing : Type 0 where
  pub stamp : ℕ → String → String
  pub known_zone : String → Bool
  pub error_text : ErrorText → String
  pub iso : ℕ → String

abbrev pub unknown_source_label : String
unknown_source_label = "(removed source)"

abbrev pub status_value : ScrapeStatus → String
status_value ok = "ok"
status_value indeterminate = "indeterminate"
status_value unavailable = "unavailable"

-- `f"{status.value:>13}"`
abbrev pub status_padded : ScrapeStatus → String
status_padded ok = "           ok"
status_padded indeterminate = "indeterminate"
status_padded unavailable = "  unavailable"

abbrev pub availability_value : Availability → String
availability_value in_stock = "InStock"
availability_value out_of_stock = "OutOfStock"
availability_value unknown = "UNKNOWN"

abbrev pub is_status : ScrapeStatus → ScrapeStatus → Bool
is_status ok ok = true
is_status indeterminate indeterminate = true
is_status unavailable unavailable = true
is_status s t = false

-- A day in seconds; `.days` of a negative span is negative.
abbrev pub age_pieces : ℕ → ℕ → List String
age_pieces record_ts generated_at =
    if ltb generated_at record_ts
    then " (clock skew)" ∷ []
    else if ltb ((generated_at - record_ts) / 86400) 1
    then []
    else " (" ∷ print_nat ((generated_at - record_ts) / 86400) "d ago)" ∷ []

module _ (printing : Printing) where
  open printing use {stamp, known_zone, error_text, iso}

  -- `ZoneInfo(tz_name)`, or UTC
  abbrev pub zone_or_utc : String → String
  zone_or_utc tz_name = if known_zone tz_name then tz_name else "UTC"

  unfoldable pub scraped_at_label : ℕ → ℕ → String → String
  unfolding concat print_nat
  scraped_at_label record_ts generated_at tz_name =
      concat
        ("scraped " ∷ stamp record_ts (zone_or_utc tz_name) ∷ age_pieces record_ts generated_at)

  -- `if record.error`
  abbrev pub error_pieces : Option ErrorText → List String
  error_pieces none = []
  error_pieces (some e) =
      if error_text e == "" then [] else "  (" ∷ sanitize_error (error_text e) ∷ ")" ∷ []

  abbrev pub line_pieces :
      List (String × String) → List (String × String) → ℕ → ScrapeRecord → List String
  line_pieces labels names generated_at r =
      "["
      ∷ status_padded r.status
      ∷ "] "
      ∷ get_or (get r.source_id names) unknown_source_label
      ∷ "  "
      ∷ price_field r (get r.source_id labels)
      ∷ "  availability="
      ∷ availability_value r.availability
      ∷ "  "
      ∷ scraped_at_label r.ts generated_at "UTC"
      ∷ error_pieces r.error

  unfoldable pub digest_line :
      List (String × String) → List (String × String) → ℕ → ScrapeRecord → String
  unfolding concat scraped_at_label price_field sanitize_error
  digest_line labels names generated_at r = concat (line_pieces labels names generated_at r)

  abbrev pub rule : String
  rule = "------------------------------------------------------------"

  abbrev pub summary_pieces : List ScrapeRecord → List String
  summary_pieces records =
      ("summary: ok="
        ∷ print_nat (count_in (λ r. is_status ok r.status) records) ""
        ∷ "  indeterminate="
        ∷ print_nat (count_in (λ r. is_status indeterminate r.status) records) ""
        ∷ "  unavailable="
        ∷ print_nat (count_in (λ r. is_status unavailable r.status) records) ""
        ∷ [])

  unfoldable pub summary : List ScrapeRecord → String
  unfolding concat print_nat count_in
  summary records = concat (summary_pieces records)

  unfoldable pub digest_lines :
      List ScrapeRecord → ℕ → List (String × String) → List (String × String) → List String
  unfolding digest_line summary concat print_nat
  digest_lines records generated_at labels names =
      "Kerdoos daily digest"
      ∷ concat ("generated_at: " ∷ iso generated_at ∷ [])
      ∷ concat ("sources: " ∷ print_nat (length records) "" ∷ [])
      ∷ rule
      ∷ (map (digest_line labels names generated_at) records ++ (rule ∷ summary records ∷ []))

  unfoldable pub render_digest :
      List ScrapeRecord → ℕ → List (String × String) → List (String × String) → String
  unfolding digest_lines join_lines
  render_digest records generated_at labels names =
      join_lines (digest_lines records generated_at labels names)
