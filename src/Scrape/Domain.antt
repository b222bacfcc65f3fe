-- ===== src/Scrape/Domain.antt =====
-- packages/kerdoos/src/kerdoos/core/domain.py, the DTOs of packages/autolycos/src/autolycos/ports.py
-- and the record of packages/kerdoos/src/kerdoos/persistence/ports.py.
use kerdoos.Prelude.{ℕ, String, Bool, ◌||◌, Option, is_some}

pub data ScrapeStatus : Type 0 where
  ok indeterminate unavailable : ScrapeStatus

pub data Availability : Type 0 where
  in_stock out_of_stock unknown : Availability

-- Prices are integer cents; an absent price is `none`.
pub record Extract : Type 0 where
  pub price_pix_cents : Option ℕ
  pub price_card_cents : Option ℕ
  pub currency : String
  pub availability : Availability
  pub price_pix_member_cents : Option ℕ
  pub price_card_member_cents : Option ℕ

unfoldable pub has_price : Extract → Bool
has_price e =
    is_some e.price_pix_cents
    || (is_some e.price_card_cents
        || (is_some e.price_pix_member_cents || is_some e.price_card_member_cents))

pub record FetchResult : Type 0 where
  pub html : String
  pub status : ℕ
  pub method : String
  pub challenged : Bool

-- The exceptions that the pipeline tells apart: `FetchError` (`SSRFError` is a subclass of it),
-- `ParseError`, and any other, with its class name. The text is `str(exc)`.
pub data Exc : Type 0 where
  fetch_error : String → Exc
  parse_error : String → Exc
  other : String → String → Exc

-- What a call does: it returns, or it raises.
pub data Outcome {ℓ} (A : Type ℓ) : Type ℓ where
  returned : A → Outcome A
  raised : Exc → Outcome A

-- The `error` column: each constructor is one f-string of the code, with the values it formats.
pub data ErrorText : Type 0 where
  fetch : String → ErrorText
  challenged_http : ℕ → ErrorText
  parse : String → ErrorText
  unexpected : Exc → ErrorText
  source_failed : Exc → ErrorText

-- `ts` is the ISO-8601 UTC text as the instant that it names; texts of one offset sort as instants.
pub record ScrapeRecord : Type 0 where
  pub source_id : String
  pub ts : ℕ
  pub status : ScrapeStatus
  pub price_pix_cents : Option ℕ
  pub price_card_cents : Option ℕ
  pub currency : Option String
  pub availability : Availability
  pub method : Option String
  pub error : Option ErrorText
  pub price_pix_member_cents : Option ℕ
  pub price_card_member_cents : Option ℕ
  pub raw_ref : Option String

-- The ports: the n-th call of `fetcher.fetch(url)`, and `parser.extract(html)`.
abbrev pub Fetcher : Type 0
Fetcher = ℕ → Outcome FetchResult

abbrev pub Parser : Type 0
Parser = String → Outcome Extract
