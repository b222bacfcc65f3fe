-- ===== src/ConfigStore/Integrity/Writes.antt =====
-- The keys of config.db under every write of registry/sqlite_store.py.
use kerdoos.Prelude.{String}
use kerdoos.ConfigStore.Tables.{ConfigDb, is_source}
use kerdoos.ConfigStore.Operations.{
  Write, adds_site, adds_product, adds_source, removes_source, removes_product, deletes_job,
  creates_job, updates_job, adds_job_source, removes_job_source, apply, remove_source,
}
use kerdoos.ConfigStore.Integrity.{IsSound}
use kerdoos.ConfigStore.Integrity.Products.{add_site-IsSound, add_product-IsSound}
use kerdoos.ConfigStore.Integrity.Sources.{
  add_source-IsSound, delete_sources-IsSound, remove_product-IsSound,
}
use kerdoos.ConfigStore.Integrity.Jobs.{create_job-IsSound, update_job-IsSound}
use kerdoos.ConfigStore.Integrity.Links.{
  delete_job-IsSound, add_job_source-IsSound, remove_job_source-IsSound,
}

-- Every write of any owner keeps the tables sound: each primary key names one row, each source has
-- its owner's product and a site, and each link has a job and a source of its own owner.
pub apply-IsSound :
    (owner : String) (write : Write) (db : ConfigDb) → IsSound db → IsSound (apply owner write db)
unfolding apply
apply-IsSound owner (adds_site site) db h = add_site-IsSound site db h
apply-IsSound owner (adds_product p) db h = add_product-IsSound owner p db h
apply-IsSound owner (adds_source s) db h = add_source-IsSound owner s db h
apply-IsSound owner (removes_source id) db h =
    unfold remove_source in delete_sources-IsSound (is_source owner id) db h
apply-IsSound owner (removes_product key) db h = remove_product-IsSound owner key db h
apply-IsSound owner (deletes_job id) db h = delete_job-IsSound owner id db h
apply-IsSound owner (creates_job job ids) db h = create_job-IsSound owner job ids db h
apply-IsSound owner (updates_job id job) db h = update_job-IsSound owner id job db h
apply-IsSound owner (adds_job_source job source) db h = add_job_source-IsSound owner job source db h
apply-IsSound owner (removes_job_source job source) db h =
    remove_job_source-IsSound owner job source db h
