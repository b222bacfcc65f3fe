-- ===== src/ConfigStore/Operations.antt =====
-- packages/kerdoos/src/kerdoos/registry/sqlite_store.py: the writes. `IntegrityError` stands for
-- sqlite3's own exception.
use kerdoos.Prelude.{
  String, Bool, true, false, not, ◌&&◌, ◌||◌, Option, List, [], ◌∷◌, ◌==◌, keep, some_in, is_some,
  if◌then◌else◌,
}
use kerdoos.Prelude.Dict.{get, put}
use kerdoos.Prelude.Sorting.{sort_by}
use kerdoos.Scrape.Domain.{Exc, other, Outcome, returned, raised}
use kerdoos.Registry.{SiteConfig, ProductSource, Product}
use kerdoos.Registry.Jobs.{DigestJob}
use kerdoos.ConfigStore.Tables.{
  ProductRow, SourceRow, JobRow, Link, ConfigDb, is_product, is_source, is_job, is_link, job_from,
  own_links, unknown_job,
}

abbrev pub Done : Type 0
Done = Unit {0}

abbrev pub integrity_error : Exc
integrity_error = other "IntegrityError" "constraint failed"

abbrev pub config_error : String → Exc
config_error text = other "ConfigError" text

-- INSERT … ON CONFLICT(name) DO UPDATE
unfoldable pub add_site : SiteConfig → ConfigDb → ConfigDb
unfolding put
add_site site db = record db { sites = put site.name site db.sites }

unfoldable pub rename : String → String → Option String → List ProductRow → List ProductRow
rename owner key name [] = []
rename owner key name (r ∷ rs) =
    (if is_product owner key r then record r { name = name } else r) ∷ rename owner key name rs

-- INSERT … ON CONFLICT(owner_id, product_key) DO UPDATE
unfoldable pub add_product : String → Product → ConfigDb → ConfigDb
unfolding rename some_in
add_product owner p db =
    if some_in (is_product owner p.id) db.products
    then record db { products = rename owner p.id p.name db.products }
    else record db {
      products = record { owner_id = owner; product_key = p.id; name = p.name } ∷ db.products;
    }

-- UNIQUE (owner_id, product_key, site, url)
abbrev pub is_same_source : String → ProductSource → SourceRow → Bool
is_same_source owner s r =
    (r.owner_id == owner)
    && (r.source.product_id == s.product_id)
    && (r.source.site == s.site)
    && (r.source.url == s.url)

-- INSERT … ON CONFLICT(owner_id, source_id) DO NOTHING: the named conflict is looked at first, then
-- the other unique key, and then the two foreign keys.
unfoldable pub add_source : String → ProductSource → ConfigDb → ConfigDb × Outcome Done
unfolding some_in get
add_source owner s db =
    if some_in (is_source owner s.source_id) db.sources
    then (db, returned tt)
    else if some_in (is_same_source owner s) db.sources
    then (db, raised integrity_error)
    else if some_in (is_product owner s.product_id) db.products && is_some (get s.site db.sites)
    then (record db { sources = record { owner_id = owner; source = s } ∷ db.sources }, returned tt)
    else (db, raised integrity_error)

-- A row of digest_job_sources goes with the source that it names.
abbrev pub is_orphaned : (SourceRow → Bool) → List SourceRow → Link → Bool
is_orphaned p sources l = some_in (λ r. p r && is_source l.owner_id l.source_id r) sources

-- DELETE FROM sources WHERE …, with ON DELETE CASCADE
unfoldable pub delete_sources : (SourceRow → Bool) → ConfigDb → ConfigDb
unfolding keep some_in
delete_sources p db = record db {
  sources = keep (λ r. not (p r)) db.sources;
  links = keep (λ l. not (is_orphaned p db.sources l)) db.links;
}

unfoldable pub remove_source : String → String → ConfigDb → ConfigDb
unfolding delete_sources
remove_source owner id db = delete_sources (is_source owner id) db

abbrev pub is_source_of : String → String → SourceRow → Bool
is_source_of owner key r = (r.owner_id == owner) && (r.source.product_id == key)

abbrev pub delete_product : String → String → ConfigDb → ConfigDb
delete_product owner key db = record db {
  products = keep (λ r. not (is_product owner key r)) db.products;
}

unfoldable pub remove_product : String → String → ConfigDb → ConfigDb × Outcome Done
unfolding delete_sources some_in keep
remove_product owner key db =
    if some_in (is_product owner key) db.products
    then (delete_product owner key (delete_sources (is_source_of owner key) db), returned tt)
    else (db, raised (other "KeyError" key))

-- INSERT … SELECT … ON CONFLICT(job_id, source_id) DO NOTHING
abbrev pub links_new : String → String → String → ConfigDb → Bool
links_new owner job source db =
    some_in (is_source owner source) db.sources && not (some_in (is_link job source) db.links)

abbrev pub insert_link : String → String → String → ConfigDb → ConfigDb
insert_link owner job source db = record db {
  links = record { owner_id = owner; job_id = job; source_id = source } ∷ db.links;
}

abbrev and_first : Bool → String → List String → List String
and_first true s ss = s ∷ ss
and_first false s ss = ss

-- `_link_sources`, with the ids that were linked.
unfoldable pub link_sources : String → String → List String → ConfigDb → ConfigDb × List String
unfolding some_in
link_sources owner job [] db = (db, [])
link_sources owner job (s ∷ ss) db =
    let new = links_new owner job s db in
    let rest = link_sources owner job ss (if new then insert_link owner job s db else db) in
    (rest.0, and_first new s rest.1)

abbrev pub is_named : String → String → JobRow → Bool
is_named owner name r = (r.owner_id == owner) && (r.name == name)

abbrev pub row_of_job : String → DigestJob → JobRow
row_of_job owner job = record {
  id = job.id;
  owner_id = owner;
  name = job.name;
  frequency_kind = job.frequency_kind;
  schedule_cron = job.schedule_cron;
  timezone = job.timezone;
  template_id = job.template_id;
  options = job.options;
  enabled = job.enabled;
  created_at = job.created_at;
}

unfoldable pub create_job :
    String → DigestJob → List String → ConfigDb → ConfigDb × Outcome DigestJob
unfolding link_sources some_in
create_job owner job source_ids db =
    if some_in (λ r. r.id == job.id) db.jobs || some_in (is_named owner job.name) db.jobs
    then (db, raised (config_error job.name))
    else let linked =
        link_sources owner job.id source_ids
          (record db { jobs = row_of_job owner job ∷ db.jobs }) in
      (linked.0, returned (record job { owner_id = owner; source_ids = linked.1 }))

-- The columns that UPDATE sets.
abbrev pub overwrite : DigestJob → JobRow → JobRow
overwrite job r = record r {
  name = job.name;
  frequency_kind = job.frequency_kind;
  schedule_cron = job.schedule_cron;
  timezone = job.timezone;
  template_id = job.template_id;
  options = job.options;
  enabled = job.enabled;
}

unfoldable pub update_rows : String → String → DigestJob → List JobRow → List JobRow
update_rows owner id job [] = []
update_rows owner id job (r ∷ rs) =
    (if is_job owner id r then overwrite job r else r) ∷ update_rows owner id job rs

unfoldable pub update_job : String → String → DigestJob → ConfigDb → ConfigDb × Outcome DigestJob
unfolding update_rows some_in keep sort_by
update_job owner id job db =
    if not (some_in (is_job owner id) db.jobs)
    then (db, raised (unknown_job id))
    else if some_in (λ r. is_named owner job.name r && not (r.id == id)) db.jobs
    then (db, raised (config_error job.name))
    else (
      record db { jobs = update_rows owner id job db.jobs },
      returned (record job {
        id = id;
        owner_id = owner;
        source_ids =
            (job_from (own_links owner db) (row_of_job owner (record job { id = id }))).source_ids;
      }),
    )

-- The links go with the statement of the method, and by ON DELETE CASCADE.
unfoldable pub delete_job : String → String → ConfigDb → ConfigDb × Outcome Done
unfolding some_in keep
delete_job owner id db =
    if some_in (is_job owner id) db.jobs
    then (
      record db {
        links =
            keep (λ l. not (l.job_id == id))
              (keep (λ l. not ((l.owner_id == owner) && (l.job_id == id))) db.links);
        jobs = keep (λ r. not (is_job owner id r)) db.jobs;
      },
      returned tt,
    )
    else (db, raised (unknown_job id))

abbrev pub any_linked : List String → Bool
any_linked [] = false
any_linked (s ∷ ss) = true

unfoldable pub add_job_source : String → String → String → ConfigDb → ConfigDb × Outcome Bool
unfolding link_sources some_in
add_job_source owner job source db =
    if not (some_in (is_job owner job) db.jobs)
    then (db, raised (unknown_job job))
    else let linked = link_sources owner job (source ∷ []) db in
      (linked.0, returned (any_linked linked.1))

unfoldable pub remove_job_source : String → String → String → ConfigDb → ConfigDb
unfolding keep
remove_job_source owner job source db = record db {
  links = keep (λ l. not ((l.owner_id == owner) && is_link job source l)) db.links;
}

-- Every write, with the owner that makes it; the catalogue of sites has none.
pub data Write : Type 0 where
  adds_site : SiteConfig → Write
  adds_product : Product → Write
  adds_source : ProductSource → Write
  removes_source removes_product deletes_job : String → Write
  creates_job : DigestJob → List String → Write
  updates_job : String → DigestJob → Write
  adds_job_source removes_job_source : String → String → Write

unfoldable pub apply : String → Write → ConfigDb → ConfigDb
unfolding add_site add_product add_source remove_source remove_product delete_job create_job
    update_job add_job_source remove_job_source
apply owner (adds_site site) db = add_site site db
apply owner (adds_product p) db = add_product owner p db
apply owner (adds_source s) db = (add_source owner s db).0
apply owner (removes_source id) db = remove_source owner id db
apply owner (removes_product key) db = (remove_product owner key db).0
apply owner (deletes_job id) db = (delete_job owner id db).0
apply owner (creates_job job ids) db = (create_job owner job ids db).0
apply owner (updates_job id job) db = (update_job owner id job db).0
apply owner (adds_job_source job source) db = (add_job_source owner job source db).0
apply owner (removes_job_source job source) db = remove_job_source owner job source db
