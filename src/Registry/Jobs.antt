-- ===== src/Registry/Jobs.antt =====
-- packages/kerdoos/src/kerdoos/registry/ports.py: digest jobs, their options and schedules, and the
-- identifiers of sources. The raw options of a job are a dict of Python values.
pub mod Options
pub mod Schedules
pub mod SourceIds
use Prim.Native.Char.{Char, code}
use Prim.Native.String
use kerdoos.Prelude.{
  ℕ, suc, ◌+◌, ◌*◌, ◌/◌, ◌%◌, ◌-◌, String, Bool, true, false, not, ◌&&◌, ◌||◌, Option, none, some,
  ltb, leb, nat_eq, is_some, get_or, List, [], ◌∷◌, if◌then◌else◌, ◌==◌, some_in,
}
use kerdoos.Prelude.Int.{ℤ, pos, negsuc, within}
use kerdoos.Prelude.Dict.{get, member}
use kerdoos.Scrape.Domain.{Exc, other, Outcome, returned, raised}

-- A float that is a number is its count of thousandths; an infinity counts as `nan`, since each test
-- here refuses both.
pub data Value : Type 0 where
  flag : Bool → Value
  int float : ℤ → Value
  text : String → Value
  nan null compound : Value

-- `variation_threshold_pct` is a percentage, in thousandths.
pub record JobOptions : Type 0 where
  pub show_pix : Bool
  pub show_card : Bool
  pub variation_threshold_pct : Option ℕ

abbrev pub value_error : String → Exc
value_error s = other "ValueError" s

abbrev pub allowed_option_keys : List String
allowed_option_keys = "show_pix" ∷ "show_card" ∷ "variation_threshold_pct" ∷ []

-- `set(raw) - _ALLOWED_OPTION_KEYS`
unfoldable pub has_unknown : List (String × Value) → Bool
unfolding member some_in
has_unknown [] = false
has_unknown ((k, v) ∷ raw) = not (member k allowed_option_keys) || has_unknown raw

abbrev pub bool_option : String → Option Value → Outcome Bool
bool_option name none = returned true
bool_option name (some (flag b)) = returned b
bool_option name (some _) = raised (value_error name)

abbrev pub magnitude : ℤ → ℕ
magnitude (pos n) = n
magnitude (negsuc n) = suc n

abbrev pub threshold_option : Option Value → Outcome (Option ℕ)
threshold_option none = returned none
threshold_option (some null) = returned none
threshold_option (some (int i)) =
    if within 100 i
    then returned (some (magnitude i * 1000))
    else raised (value_error "variation_threshold_pct must be within [0, 100]")
threshold_option (some (float i)) =
    if within 100000 i
    then returned (some (magnitude i))
    else raised (value_error "variation_threshold_pct must be within [0, 100]")
threshold_option (some nan) = raised (value_error "variation_threshold_pct must be within [0, 100]")
threshold_option (some _) = raised (value_error "variation_threshold_pct must be numeric")

abbrev pub options_of : Outcome Bool → Outcome Bool → Outcome (Option ℕ) → Outcome JobOptions
options_of (raised e) card limit = raised e
options_of (returned p) (raised e) limit = raised e
options_of (returned p) (returned c) (raised e) = raised e
options_of (returned p) (returned c) (returned t) =
    returned (record { show_pix = p; show_card = c; variation_threshold_pct = t })

unfoldable pub parse_job_options : List (String × Value) → Outcome JobOptions
unfolding has_unknown get
parse_job_options raw =
    if has_unknown raw
    then raised (value_error "unknown job option keys")
    else options_of (bool_option "show_pix" (get "show_pix" raw))
        (bool_option "show_card" (get "show_card" raw))
        (threshold_option (get "variation_threshold_pct" raw))

abbrev pub dump_threshold : Option ℕ → Value
dump_threshold none = null
dump_threshold (some t) = float (pos t)

unfoldable pub dump_job_options : JobOptions → List (String × Value)
dump_job_options o =
    ("show_pix", flag o.show_pix)
    ∷ ("show_card", flag o.show_card)
    ∷ ("variation_threshold_pct", dump_threshold o.variation_threshold_pct)
    ∷ []

-- What `str.isspace` and `str.split` take for white space.
abbrev pub is_space : Char → Bool
is_space c =
    let n = code c in
    (leb 9 n && leb n 13)
    || (leb 28 n && leb n 32)
    || nat_eq n 133
    || nat_eq n 160
    || nat_eq n 5760
    || (leb 8192 n && leb n 8202)
    || (leb 8232 n && leb n 8233)
    || nat_eq n 8239
    || nat_eq n 8287
    || nat_eq n 12288

-- `len(s.split())`: the words that begin in `s`; `inside` tells that one is under way.
unfoldable pub count_fields : Bool → String → ℕ
count_fields inside String.[] = 0
count_fields inside (String.◌∷◌ c s) =
    let blank = count_fields false s in
    let word = count_fields true s in if is_space c then blank else (if inside then 0 else 1) + word

abbrev pub digit_char : ℕ → Char
digit_char d =
    if nat_eq d 0
    then "0"
    else if nat_eq d 1
    then "1"
    else if nat_eq d 2
    then "2"
    else if nat_eq d 3
    then "3"
    else if nat_eq d 4
    then "4"
    else if nat_eq d 5
    then "5"
    else if nat_eq d 6
    then "6"
    else if nat_eq d 7
    then "7"
    else if nat_eq d 8
    then "8"
    else "9"

-- `f"{n}{rest}"` for a number of at most two digits
unfoldable pub decimal : ℕ → String → String
decimal n rest =
    if ltb n 10
    then String.◌∷◌ (digit_char n) rest
    else String.◌∷◌ (digit_char (n / 10)) (String.◌∷◌ (digit_char (n % 10)) rest)

abbrev pub cron_given : Option String → Outcome String
cron_given none = raised (value_error "cron_expr is required for frequency_kind='cron'")
cron_given (some s) =
    if s == ""
    then raised (value_error "cron_expr is required for frequency_kind='cron'")
    else if not (nat_eq (count_fields false s) 5)
    then raised (value_error "cron_expr must have exactly 5 space-separated fields")
    else returned s

unfoldable pub normalize_schedule : String → ℤ → ℤ → Option String → Outcome String
unfolding decimal count_fields
normalize_schedule kind minute hour cron_expr =
    if kind == "hourly"
    then (if not (within 59 minute)
        then raised (value_error "minute must be within [0, 59]")
        else returned (decimal (magnitude minute) " * * * *"))
    else if kind == "daily"
    then (if not (within 59 minute)
        then raised (value_error "minute must be within [0, 59]")
        else if not (within 23 hour)
        then raised (value_error "hour must be within [0, 23]")
        else returned
            (decimal (magnitude minute) (String.◌∷◌ " " (decimal (magnitude hour) " * * *"))))
    else if kind == "cron"
    then cron_given cron_expr
    else raised (value_error kind)

-- `available_timezones()` is a parameter.
unfoldable pub validate_timezone : (String → Bool) → String → Option Exc
validate_timezone known zone = if known zone then none else some (value_error zone)

abbrev pub valid_template_ids : List String
valid_template_ids = "default" ∷ []

unfoldable pub validate_template_id : String → Option Exc
unfolding member some_in
validate_template_id id = if member id valid_template_ids then none else some (value_error id)

-- `":" in product_key`
unfoldable pub has_colon : String → Bool
has_colon String.[] = false
has_colon (String.◌∷◌ c s) = nat_eq (code c) b':' || has_colon s

unfoldable pub validate_product_key : String → Option Exc
unfolding has_colon
validate_product_key key =
    if key == ""
    then some (value_error "product_key must not be empty")
    else if has_colon key
    then some (value_error "product_key must not contain ':'")
    else none

abbrev pub source_id_of : String → String → String → String
source_id_of key site digest =
    String.◌++◌ key (String.◌∷◌ ":" (String.◌++◌ site (String.◌∷◌ ":" digest)))

abbrev pub id_or_raise : Option Exc → String → Outcome String
id_or_raise (some e) id = raised e
id_or_raise none id = returned id

-- `digest` is `sha256(url.encode()).hexdigest()[:12]`.
unfoldable pub make_source_id : (String → String) → String → String → String → Outcome String
make_source_id digest key site url =
    id_or_raise (validate_product_key key) (source_id_of key site (digest url))

pub record DigestJob : Type 0 where
  pub id : String
  pub owner_id : String
  pub name : String
  pub frequency_kind : String
  pub schedule_cron : String
  pub timezone : String
  pub template_id : String
  pub options : JobOptions
  pub enabled : Bool
  pub created_at : Option ℕ
  pub source_ids : List String
