-- ===== src/AppService.antt =====
-- packages/kerdoos/src/kerdoos/core/app/services.py: the use-cases over the config store, with their
-- guards. The router, urlsplit, sha256 and the time zones are parameters.
pub mod Batches
pub mod Runs
pub mod Statuses
use Prim.{tt}
use kerdoos.Prelude.{
  ℕ, String, Bool, true, false, not, ◌&&◌, ◌||◌, Option, none, some, List, [], ◌∷◌, map, ◌==◌,
  some_in, if◌then◌else◌,
}
use kerdoos.Prelude.Int.{ℤ}
use kerdoos.Prelude.Dict.{get}
use kerdoos.Scrape.Domain.{Exc, other, Outcome, returned, raised}
use kerdoos.Registry.{SiteConfig, ProductSource, Product, find_site}
use kerdoos.Registry.Jobs.{
  Value, JobOptions, DigestJob, value_error, parse_job_options, normalize_schedule,
  validate_timezone, validate_template_id, validate_product_key, make_source_id,
}
use kerdoos.ConfigStore.Tables.{ConfigDb, load, list_jobs}
use kerdoos.ConfigStore.Operations.{Done, config_error}
use kerdoos.ConfigStore.Operations
use kerdoos.State.JobRuns.{JobRun}
use kerdoos.State.JobRuns.Summaries.{JobRunSummary, latest_job_runs}
use kerdoos.Auth.Service.{Principal}
use kerdoos.Egress.Safety.{Net, catalogue_allowed, validate_source_url}
use kerdoos.State.JobRuns.{JobRun}

-- What the service is given.
pub record Deployment : Type 0 where
  pub net : Net
  pub known_tiers : List String
  pub tier_available : String → Outcome Bool
  pub digest : String → String
  pub known_zone : String → Bool

-- A use-case of the config store: it returns or raises, and what it wrote stays.
abbrev pub Action : Type 0 → Type 0
Action A = ConfigDb → ConfigDb × Outcome A

abbrev pub continue : {A B : Type 0} → Outcome A → (A → Action B) → Action B
continue (returned a) f db = f a db
continue (raised e) f db = (db, raised e)

infixl 5 ◌>>=◌ ◌>>◌
unfoldable pub ◌>>=◌ : {A B : Type 0} → Action A → (A → Action B) → Action B
◌>>=◌ m f db = let (db', o) = m db in continue o f db'

abbrev pub ◌>>◌ : {A B : Type 0} → Action A → Action B → Action B
m >> k = m >>= λ _. k

abbrev pub lift : {A : Type 0} → Outcome A → Action A
lift o db = (db, o)

abbrev pub check : Option Exc → Outcome Done
check none = returned tt
check (some e) = raised e

abbrev pub require : Bool → Exc → Outcome Done
require b e = if b then returned tt else raised e

abbrev pub permission_error : Exc
permission_error = other "PermissionError" "not allowed"

abbrev pub is_admin : Principal → Bool
is_admin p = p.role == "admin"

pub record DigestJobSpec : Type 0 where
  pub name : String
  pub frequency_kind : String
  pub minute : ℤ
  pub hour : ℤ
  pub cron_expr : Option String
  pub timezone : String
  pub template_id : String
  pub options : List (String × Value)
  pub enabled : Bool
  pub source_ids : List String

abbrev site_or_raise : String → Option SiteConfig → Outcome SiteConfig
site_or_raise name none = raised (other "KeyError" name)
site_or_raise name (some site) = returned site

-- `(job, latest.get(job.id))`
abbrev pub with_status :
    List (String × JobRunSummary) → DigestJob → DigestJob × Option JobRunSummary
with_status latest job = (job, get job.id latest)

module _ (dep : Deployment) where
  -- `_unknown_fetcher_tier_error`
  abbrev pub is_known_tier : SiteConfig → Bool
  is_known_tier spec = some_in (λ t. t == spec.fetcher) dep.known_tiers

  unfoldable pub add_site : Principal → SiteConfig → Action SiteConfig
  unfolding ◌>>=◌ Operations.add_site some_in
  add_site principal spec = do
    lift (require (is_admin principal) permission_error)
    lift (require (is_known_tier spec) (config_error spec.name))
    λ db. (Operations.add_site spec db, returned spec)

  abbrev product_of : String → Option String → Product
  product_of key name = record { id = key; name = name; sources = [] }

  unfoldable pub add_product : String → String → Option String → Action Product
  unfolding ◌>>=◌ Operations.add_product validate_product_key
  add_product owner key name = do
    lift (require (not (owner == "")) (value_error "owner must not be empty"))
    lift (check (validate_product_key key))
    λ db. (Operations.add_product owner (product_of key name) db, returned (product_of key name))

  abbrev source_of : String → String → String → String → ProductSource
  source_of id key site url = record { source_id = id; product_id = key; site = site; url = url }

  unfoldable pub add_source : String → String → String → String → Action ProductSource
  unfolding ◌>>=◌ Operations.add_source validate_product_key make_source_id find_site load
      validate_source_url catalogue_allowed
  add_source owner key site url = do
    lift (require (not (owner == "")) (value_error "owner must not be empty"))
    lift (check (validate_product_key key))
    found ← λ db. (db, site_or_raise site (find_site site (load owner db).sites))
    available ← lift (dep.tier_available found.fetcher)
    lift (require available (other "FetcherTierUnavailableError" site))
    λ db. (db, validate_source_url dep.net url (catalogue_allowed dep.net db))
    id ← lift (make_source_id dep.digest key site url)
    Operations.add_source owner (source_of id key site url)
    lift (returned (source_of id key site url))

  -- The DigestJob of a specification, once it is validated.
  unfoldable pub job_of : String → String → Option ℕ → DigestJobSpec → Outcome DigestJob
  unfolding normalize_schedule validate_timezone validate_template_id parse_job_options
  job_of owner id now spec =
      job_with (normalize_schedule spec.frequency_kind spec.minute spec.hour spec.cron_expr)
        (check (validate_timezone dep.known_zone spec.timezone))
        (check (validate_template_id spec.template_id)) (parse_job_options spec.options)
    where
      job_with :
          Outcome String → Outcome Done → Outcome Done → Outcome JobOptions → Outcome DigestJob
      job_with (raised e) zone template options = raised e
      job_with (returned cron) (raised e) template options = raised e
      job_with (returned cron) (returned z) (raised e) options = raised e
      job_with (returned cron) (returned z) (returned t) (raised e) = raised e
      job_with (returned cron) (returned z) (returned t) (returned o) = returned (record {
        id = id;
        owner_id = owner;
        name = spec.name;
        frequency_kind = spec.frequency_kind;
        schedule_cron = cron;
        timezone = spec.timezone;
        template_id = spec.template_id;
        options = o;
        enabled = spec.enabled;
        created_at = now;
        source_ids = [];
      })

  -- `id` is the new uuid.
  unfoldable pub create_job : String → ℕ → Principal → DigestJobSpec → Action DigestJob
  unfolding ◌>>=◌ job_of Operations.create_job
  create_job id now principal spec = do
    lift (require (not (principal.owner_id == "")) (value_error "owner must not be empty"))
    job ← lift (job_of principal.owner_id id (some now) spec)
    Operations.create_job principal.owner_id job spec.source_ids

  unfoldable pub update_job : String → String → DigestJobSpec → Action DigestJob
  unfolding ◌>>=◌ job_of Operations.update_job
  update_job owner id spec = do
    lift (require (not (owner == "")) (value_error "owner must not be empty"))
    job ← lift (job_of owner id none spec)
    Operations.update_job owner id job

-- The join of the two stores, in memory.
unfoldable pub list_jobs_with_status :
    String → ConfigDb → List JobRun → List (DigestJob × Option JobRunSummary)
unfolding latest_job_runs list_jobs get
list_jobs_with_status owner db rows =
    map (with_status (latest_job_runs owner rows)) (list_jobs owner db)
