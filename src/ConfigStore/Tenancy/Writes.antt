-- ===== src/ConfigStore/Tenancy/Writes.antt =====
-- Every write, for what another owner reads (registry/sqlite_store.py).
use kerdoos.Prelude.{◌≡◌, ◌≢◌, refl, String}
use kerdoos.ConfigStore.Tables.{ConfigDb, load, list_jobs}
use kerdoos.ConfigStore.Operations.{
  Write, adds_site, adds_product, adds_source, removes_source, removes_product, deletes_job,
  creates_job, updates_job, adds_job_source, removes_job_source, apply, add_site,
}
use kerdoos.ConfigStore.Integrity.{IsSound}
use kerdoos.ConfigStore.Tenancy.{IsSame}
use kerdoos.ConfigStore.Tenancy.Sources.{
  add_product-IsSame, add_source-IsSame, remove_source-IsSame, remove_product-IsSame,
}
use kerdoos.ConfigStore.Tenancy.Jobs.{
  create_job-IsSame, update_job-IsSame, delete_job-IsSame, add_job_source-IsSame,
  remove_job_source-IsSame,
}

apply-IsSame :
    (owner mine : String)
    → owner ≢ mine
    → (w : Write) (db : ConfigDb) → IsSound db
    → IsSame owner mine db (apply owner w db)
unfolding apply add_site
apply-IsSame owner mine apart (adds_site site) db h = record {
  same_products = refl;
  same_sources = refl;
  same_jobs = refl;
  same_links = refl;
}
apply-IsSame owner mine apart (adds_product p) db h = add_product-IsSame owner mine apart p db
apply-IsSame owner mine apart (adds_source s) db h = add_source-IsSame owner mine apart s db
apply-IsSame owner mine apart (removes_source id) db h = remove_source-IsSame owner mine apart id db
apply-IsSame owner mine apart (removes_product key) db h =
    remove_product-IsSame owner mine apart key db
apply-IsSame owner mine apart (deletes_job id) db h = delete_job-IsSame owner mine apart id db h
apply-IsSame owner mine apart (creates_job job ids) db h =
    create_job-IsSame owner mine apart job ids db
apply-IsSame owner mine apart (updates_job id job) db h =
    update_job-IsSame owner mine apart id job db
apply-IsSame owner mine apart (adds_job_source job source) db h =
    add_job_source-IsSame owner mine apart job source db
apply-IsSame owner mine apart (removes_job_source job source) db h =
    remove_job_source-IsSame owner mine apart job source db

-- On a sound database a write of one owner changes neither the products and sources that another
-- owner loads nor the jobs that it lists, with their sources.
pub list_jobs-apply :
    (owner mine : String) (w : Write) (db : ConfigDb)
    → owner ≢ mine
    → IsSound db
    → ((load mine (apply owner w db)).products ≡ (load mine db).products)
      × (list_jobs mine (apply owner w db) ≡ list_jobs mine db)
unfolding load list_jobs
list_jobs-apply owner mine w db apart h =
    let same = apply-IsSame owner mine apart w db h in
    (cc (same.same_products, same.same_sources), cc (same.same_jobs, same.same_links))
