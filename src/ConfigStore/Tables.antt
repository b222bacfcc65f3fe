-- ===== src/ConfigStore/Tables.antt =====
-- packages/kerdoos/src/kerdoos/registry/sqlite_store.py: the schema and the reads.
use kerdoos.Prelude.{
  ℕ, String, Bool, not, ◌&&◌, Option, none, some, List, [], ◌∷◌, map, ◌==◌, keep, some_in,
  if◌then◌else◌,
}
use kerdoos.Prelude.Dict.{get}
use kerdoos.Prelude.Sorting.{text_le, sort_by}
use kerdoos.Scrape.Domain.{Exc, other, Outcome, returned, raised}
use kerdoos.Registry.{SiteConfig, ProductSource, Product, Registry}
use kerdoos.Registry.Jobs.{JobOptions, DigestJob}

pub record ProductRow : Type 0 where
  pub owner_id : String
  pub product_key : String
  pub name : Option String

pub record SourceRow : Type 0 where
  pub owner_id : String
  pub source : ProductSource

-- A row of digest_jobs: a job without its sources.
pub record JobRow : Type 0 where
  pub id : String
  pub owner_id : String
  pub name : String
  pub frequency_kind : String
  pub schedule_cron : String
  pub timezone : String
  pub template_id : String
  pub options : JobOptions
  pub enabled : Bool
  pub created_at : Option ℕ

-- A row of digest_job_sources.
pub record Link : Type 0 where
  pub owner_id : String
  pub job_id : String
  pub source_id : String

pub record ConfigDb : Type 0 where
  pub sites : List (String × SiteConfig)
  pub products : List ProductRow
  pub sources : List SourceRow
  pub jobs : List JobRow
  pub links : List Link

-- The primary keys and the names by which rows are found.
abbrev pub is_product : String → String → ProductRow → Bool
is_product owner key r = (r.owner_id == owner) && (r.product_key == key)

abbrev pub is_source : String → String → SourceRow → Bool
is_source owner id r = (r.owner_id == owner) && (r.source.source_id == id)

abbrev pub is_job : String → String → JobRow → Bool
is_job owner id r = (r.owner_id == owner) && (r.id == id)

abbrev pub is_link : String → String → Link → Bool
is_link job source l = (l.job_id == job) && (l.source_id == source)

abbrev pub source_before : SourceRow → SourceRow → Bool
source_before r t =
    if r.source.product_id == t.source.product_id
    then text_le r.source.source_id t.source.source_id
    else text_le r.source.product_id t.source.product_id

abbrev pub sources_of_product : String → List SourceRow → List ProductSource
sources_of_product key rows = map (λ r. r.source) (keep (λ r. r.source.product_id == key) rows)

-- `_load_products`, on the owner's rows.
unfoldable pub products_from : List ProductRow → List SourceRow → List Product
unfolding sort_by keep
products_from products sources =
    map
      (λ r. record {
        id = r.product_key;
        name = r.name;
        sources = sources_of_product r.product_key (sort_by source_before sources);
      })
      (sort_by (λ r t. text_le r.product_key t.product_key) products)

unfoldable pub load : String → ConfigDb → Registry
unfolding sort_by keep
load owner db = record {
  sites = sort_by (λ a b. text_le a.0 b.0) db.sites;
  products =
      products_from (keep (λ r. r.owner_id == owner) db.products)
        (keep (λ r. r.owner_id == owner) db.sources);
}

-- `SELECT domain FROM sites WHERE domain != ''`
unfoldable pub site_domains : ConfigDb → List String
unfolding keep
site_domains db = keep (λ d. not (d == "")) (map (λ s. s.1.domain) db.sites)

abbrev pub linked_to : String → List Link → List String
linked_to job links = sort_by text_le (map (λ l. l.source_id) (keep (λ l. l.job_id == job) links))

-- `_row_to_job`, on the owner's links.
abbrev pub job_from : List Link → JobRow → DigestJob
job_from links r = record {
  id = r.id;
  owner_id = r.owner_id;
  name = r.name;
  frequency_kind = r.frequency_kind;
  schedule_cron = r.schedule_cron;
  timezone = r.timezone;
  template_id = r.template_id;
  options = r.options;
  enabled = r.enabled;
  created_at = r.created_at;
  source_ids = linked_to r.id links;
}

abbrev pub own_links : String → ConfigDb → List Link
own_links owner db = keep (λ l. l.owner_id == owner) db.links

unfoldable pub list_jobs : String → ConfigDb → List DigestJob
unfolding sort_by keep
list_jobs owner db =
    map (job_from (own_links owner db))
      (sort_by (λ r t. text_le r.name t.name) (keep (λ r. r.owner_id == owner) db.jobs))

abbrev owner_before : JobRow → JobRow → Bool
owner_before r t =
    if r.owner_id == t.owner_id then text_le r.name t.name else text_le r.owner_id t.owner_id

unfoldable pub list_all_enabled_jobs : ConfigDb → List DigestJob
unfolding sort_by keep
list_all_enabled_jobs db =
    map (λ r. job_from (own_links r.owner_id db) r)
      (sort_by owner_before (keep (λ r. r.enabled) db.jobs))

abbrev tier_of : Option SiteConfig → List String → List String
tier_of none tiers = tiers
tier_of (some site) tiers =
    if some_in (λ t. t == site.fetcher) tiers then tiers else site.fetcher ∷ tiers

-- `SELECT DISTINCT sites.fetcher FROM sources JOIN sites`
unfoldable pub referenced_tiers : List (String × SiteConfig) → List SourceRow → List String
unfolding get some_in
referenced_tiers sites [] = []
referenced_tiers sites (r ∷ rs) = tier_of (get r.source.site sites) (referenced_tiers sites rs)

unfoldable pub list_referenced_fetcher_tiers : ConfigDb → List String
unfolding referenced_tiers
list_referenced_fetcher_tiers db = referenced_tiers db.sites db.sources

abbrev pub unknown_job : String → Exc
unknown_job id = other "KeyError" id

abbrev found_job : String → List Link → List JobRow → Outcome DigestJob
found_job id links [] = raised (unknown_job id)
found_job id links (r ∷ rs) = returned (job_from links r)

unfoldable pub get_job : String → String → ConfigDb → Outcome DigestJob
unfolding keep sort_by
get_job owner id db = found_job id (own_links owner db) (keep (is_job owner id) db.jobs)
