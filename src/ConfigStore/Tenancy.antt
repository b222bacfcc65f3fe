-- ===== src/ConfigStore/Tenancy.antt =====
-- What a write of one owner does to the rows of another (registry/sqlite_store.py).
pub mod Sources
pub mod Jobs
pub mod Writes
use Prim.{tt, absurd}
use kerdoos.Prelude.{
  ◌≡◌, ◌≢◌, refl, sym, ap, ◌∙◌, String, Bool, true, false, not, ◌&&◌, ◌||◌, Option, none, some,
  List, [], ◌∷◌, map, ◌==◌, keep, some_in, is_some, if◌then◌else◌, All, arith, eq_iff, eq_refl,
  first_if, either_if,
}
use kerdoos.Prelude.Dict.{get, put}
use kerdoos.Prelude.Sorting.{text_le, sort_by}
use kerdoos.Prelude.Rows.{Unique, keep-kept, keep-kept-All, some_in-weaken, some_in-none}
use kerdoos.Scrape.Domain.{Outcome, returned, raised, other}
use kerdoos.Registry.{SiteConfig, ProductSource, Product}
use kerdoos.Registry.Jobs.{DigestJob}
use kerdoos.ConfigStore.Tables.{
  ProductRow, SourceRow, JobRow, Link, ConfigDb, is_product, is_source, is_job, is_link, load,
  products_from, list_jobs, job_from, own_links, unknown_job,
}
use kerdoos.ConfigStore.Operations.{
  Done, Write, adds_site, adds_product, adds_source, removes_source, removes_product, deletes_job,
  creates_job, updates_job, adds_job_source, removes_job_source, apply, add_site, rename,
  add_product, is_same_source, add_source, delete_sources, is_orphaned, remove_source, is_source_of,
  delete_product, remove_product, links_new, insert_link, link_sources, create_job, is_named,
  row_of_job, overwrite, update_rows, update_job, delete_job, any_linked, add_job_source,
  remove_job_source, integrity_error, config_error,
}
use kerdoos.ConfigStore.Integrity.{LinkFound, IsSound}

module _ (owner mine : String) where
  abbrev pub my_products : List ProductRow → List ProductRow
  my_products = keep (λ r. r.owner_id == mine)

  abbrev pub my_sources : List SourceRow → List SourceRow
  my_sources = keep (λ r. r.owner_id == mine)

  abbrev pub my_jobs : List JobRow → List JobRow
  my_jobs = keep (λ r. r.owner_id == mine)

  abbrev pub my_links : List Link → List Link
  my_links = keep (λ l. l.owner_id == mine)

  -- The rows of `mine` are the same.
  pub record IsSame (db db' : ConfigDb) : Type 0 where
    pub same_products : my_products db'.products ≡ my_products db.products
    pub same_sources : my_sources db'.sources ≡ my_sources db.sources
    pub same_jobs : my_jobs db'.jobs ≡ my_jobs db.jobs
    pub same_links : my_links db'.links ≡ my_links db.links

  pub unchanged : (db : ConfigDb) → IsSame db db
  unchanged db = record {
    same_products = refl;
    same_sources = refl;
    same_jobs = refl;
    same_links = refl;
  }

  pub IsSame-trans : (a b c : ConfigDb) → IsSame a b → IsSame b c → IsSame a c
  IsSame-trans a b c h k = record {
    same_products = k.same_products ∙ h.same_products;
    same_sources = k.same_sources ∙ h.same_sources;
    same_jobs = k.same_jobs ∙ h.same_jobs;
    same_links = k.same_links ∙ h.same_links;
  }

  pub products-IsSame :
      (ps : List ProductRow) (db : ConfigDb)
      → my_products ps ≡ my_products db.products
      → IsSame db (record db { products = ps })
  products-IsSame ps db e = record {
    same_products = e;
    same_sources = refl;
    same_jobs = refl;
    same_links = refl;
  }

  pub sources-IsSame :
      (ss : List SourceRow) (ls : List Link) (db : ConfigDb)
      → my_sources ss ≡ my_sources db.sources
      → my_links ls ≡ my_links db.links
      → IsSame db (record db { sources = ss; links = ls })
  sources-IsSame ss ls db e f = record {
    same_products = refl;
    same_sources = e;
    same_jobs = refl;
    same_links = f;
  }

  pub jobs-IsSame :
      (js : List JobRow) (ls : List Link) (db : ConfigDb)
      → my_jobs js ≡ my_jobs db.jobs
      → my_links ls ≡ my_links db.links
      → IsSame db (record db { jobs = js; links = ls })
  jobs-IsSame js ls db e f = record {
    same_products = refl;
    same_sources = refl;
    same_jobs = e;
    same_links = f;
  }

  pub not_mine : owner ≢ mine → (x : String) → (x == owner) ≡ true → (x == mine) ≡ false
  not_mine apart x e = ground (arith, e, eq_iff x owner, eq_iff x mine, apart)
