-- ===== src/ConfigStore/Integrity.antt =====
-- The keys and foreign keys of config.db (registry/sqlite_store.py).
pub mod Products
pub mod Sources
pub mod Jobs
pub mod Links
pub mod Writes
use Prim.{tt, absurd}
use kerdoos.Prelude.{
  ◌≡◌, refl, sym, ap, ◌∙◌, String, Bool, true, false, not, ◌&&◌, ◌||◌, Option, none, some, List, [],
  ◌∷◌, ◌==◌, keep, some_in, is_some, if◌then◌else◌, All, arith, eq_iff,
}
use kerdoos.Prelude.Dict.{get, put, get-put}
use kerdoos.Prelude.Rows.{Unique, All-weaken, All-keep, Unique-keep, some_in-kept, some_in-spared}
use kerdoos.Registry.{SiteConfig, ProductSource, Product}
use kerdoos.Registry.Jobs.{DigestJob}
use kerdoos.ConfigStore.Tables.{
  ProductRow, SourceRow, JobRow, Link, ConfigDb, is_product, is_source, is_job, is_link,
}
use kerdoos.ConfigStore.Operations.{
  add_site, add_product, rename, add_source, is_same_source, delete_sources, is_orphaned,
  remove_source, remove_product, is_source_of, delete_product, links_new, insert_link, link_sources,
  create_job, is_named, row_of_job, update_job, update_rows, overwrite, delete_job, add_job_source,
  remove_job_source, Write, apply, Done, integrity_error,
}
use kerdoos.Scrape.Domain.{Exc, other, Outcome, returned, raised}

abbrev pub same_name : String × SiteConfig → String × SiteConfig → Bool
same_name x y = y.0 == x.0

-- FOREIGN KEY (owner_id, product_key) and FOREIGN KEY (site)
abbrev pub SourceFound : List ProductRow → List (String × SiteConfig) → SourceRow → Type 0
SourceFound products sites r =
    (some_in (is_product r.owner_id r.source.product_id) products ≡ true)
    × (is_some (get r.source.site sites) ≡ true)

-- FOREIGN KEY (job_id), to a job of the same owner, and FOREIGN KEY (owner_id, source_id)
abbrev pub LinkFound : List JobRow → List SourceRow → Link → Type 0
LinkFound jobs sources l =
    (some_in (is_job l.owner_id l.job_id) jobs ≡ true)
    × (some_in (is_source l.owner_id l.source_id) sources ≡ true)

-- The keys are unique, and every source and every link points at rows that are there.
pub record IsSound (db : ConfigDb) : Type 0 where
  pub sites_unique : Unique same_name db.sites
  pub products_unique : Unique (λ r. is_product r.owner_id r.product_key) db.products
  pub sources_unique : Unique (λ r. is_source r.owner_id r.source.source_id) db.sources
  pub jobs_unique : Unique (λ r t. t.id == r.id) db.jobs
  pub links_unique : Unique (λ l. is_link l.job_id l.source_id) db.links
  pub sources_found : All (SourceFound db.products db.sites) db.sources
  pub links_found : All (LinkFound db.jobs db.sources) db.links
