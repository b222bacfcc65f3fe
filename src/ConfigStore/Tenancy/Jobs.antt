-- ===== src/ConfigStore/Tenancy/Jobs.antt =====
-- Writes of digest jobs, for another owner's rows (registry/sqlite_store.py).
use kerdoos.Prelude.{
  ◌≡◌, ◌≢◌, refl, ap, ◌∙◌, String, true, false, not, ◌&&◌, ◌||◌, List, [], ◌∷◌, ◌==◌, keep, some_in,
  if◌then◌else◌, arith, eq_iff, eq_refl, first_if, either_if,
}
use kerdoos.Prelude.Rows.{Unique, keep-kept, keep-kept-All, All-keep, some_in-weaken}
use kerdoos.Scrape.Domain.{raised}
use kerdoos.Registry.Jobs.{DigestJob}
use kerdoos.ConfigStore.Tables.{JobRow, Link, ConfigDb, is_job, is_link, unknown_job}
use kerdoos.ConfigStore.Operations.{
  links_new, insert_link, link_sources, create_job, is_named, row_of_job, update_rows, update_job,
  delete_job, add_job_source, remove_job_source, config_error,
}
use kerdoos.ConfigStore.Integrity.{LinkFound, IsSound}
use kerdoos.ConfigStore.Tenancy.{
  my_jobs, my_links, IsSame, unchanged, IsSame-trans, jobs-IsSame, not_mine,
}

module _ (owner mine : String) (apart : owner ≢ mine) where
  my_jobs-update_rows :
      (id : String) (job : DigestJob) (rows : List JobRow)
      → my_jobs owner mine (update_rows owner id job rows) ≡ my_jobs owner mine rows
  unfolding update_rows keep
  my_jobs-update_rows id job [] = refl
  my_jobs-update_rows id job (r ∷ rs) =
      ground (arith, not_mine owner mine apart r.owner_id, my_jobs-update_rows id job rs)

  link_sources-IsSame :
      (job : String) (sources : List String) (db : ConfigDb)
      → IsSame owner mine db (link_sources owner job sources db).0
  unfolding link_sources
  link_sources-IsSame job [] db = unchanged owner mine db
  link_sources-IsSame job (s ∷ ss) db =
      IsSame-trans owner mine db
        (if links_new owner job s db then insert_link owner job s db else db)
        (link_sources owner job (s ∷ ss) db).0
        (either_if (IsSame owner mine db) (links_new owner job s db) (insert_link owner job s db) db
          (unfold keep in
            jobs-IsSame owner mine db.jobs
              (record { owner_id = owner; job_id = job; source_id = s } ∷ db.links) db refl
              (ground (arith, not_mine owner mine apart owner (eq_refl owner))))
          (unchanged owner mine db))
        (link_sources-IsSame job ss
          (if links_new owner job s db then insert_link owner job s db else db))

  pub create_job-IsSame :
      (job : DigestJob) (ids : List String) (db : ConfigDb)
      → IsSame owner mine db (create_job owner job ids db).0
  unfolding create_job
  create_job-IsSame job ids db =
      first_if (IsSame owner mine db)
        (some_in (λ r. r.id == job.id) db.jobs || some_in (is_named owner job.name) db.jobs)
        (db, raised (config_error job.name)) _ (λ e. unchanged owner mine db)
        (λ e.
          IsSame-trans owner mine db (record db { jobs = row_of_job owner job ∷ db.jobs })
            (link_sources owner job.id ids (record db { jobs = row_of_job owner job ∷ db.jobs })).0
            (unfold keep in
              jobs-IsSame owner mine (row_of_job owner job ∷ db.jobs) db.links db
                (ground (arith, not_mine owner mine apart owner (eq_refl owner))) refl)
            (link_sources-IsSame job.id ids (record db { jobs = row_of_job owner job ∷ db.jobs })))

  pub update_job-IsSame :
      (id : String) (job : DigestJob) (db : ConfigDb)
      → IsSame owner mine db (update_job owner id job db).0
  unfolding update_job
  update_job-IsSame id job db =
      first_if (IsSame owner mine db) (not (some_in (is_job owner id) db.jobs))
        (db, raised (unknown_job id)) _ (λ e. unchanged owner mine db)
        (λ e.
          first_if (IsSame owner mine db)
            (some_in (λ r. is_named owner job.name r && not (r.id == id)) db.jobs)
            (db, raised (config_error job.name)) _ (λ f. unchanged owner mine db)
            (λ f.
              jobs-IsSame owner mine (update_rows owner id job db.jobs) db.links db
                (my_jobs-update_rows id job db.jobs) refl))

  -- Two owners have no job of one id.
  one_owner :
      (id : String) (jobs : List JobRow)
      → Unique (λ r t. t.id == r.id) jobs
      → some_in (is_job owner id) jobs ≡ true
      → some_in (is_job mine id) jobs ≡ false
  unfolding some_in
  one_owner id [] u e = refl
  one_owner id (r ∷ rs) u e = ground (
    arith,
    one_owner id rs u.1,
    u.0,
    not_mine owner mine apart r.owner_id,
    eq_iff r.id id,
    some_in-weaken (is_job mine id) (λ t. t.id == id) (λ x f. ground (arith, f)) rs,
    some_in-weaken (is_job owner id) (λ t. t.id == id) (λ x f. ground (arith, f)) rs,
    ap (λ i. some_in (λ t. t.id == i) rs) {x = r.id} {y = id},
  )

  delete_links :
      (id : String) (db : ConfigDb)
      → IsSound db
      → some_in (is_job owner id) db.jobs ≡ true
      → my_links owner mine (
          keep
            (λ l. not (l.job_id == id))
            (keep (λ l. not ((l.owner_id == owner) && (l.job_id == id))) db.links))
        ≡ my_links owner mine db.links
  delete_links id db h e =
      keep-kept-All (LinkFound db.jobs db.sources) (λ l. l.owner_id == mine)
        (λ l. not (l.job_id == id)) (λ l found f. elsewhere l found f)
        (keep (λ l. not ((l.owner_id == owner) && (l.job_id == id))) db.links)
        (All-keep (LinkFound db.jobs db.sources) (LinkFound db.jobs db.sources)
          (λ l. not ((l.owner_id == owner) && (l.job_id == id))) (λ l f found. found) db.links
          h.links_found)
      ∙ keep-kept (λ l. l.owner_id == mine) (λ l. not ((l.owner_id == owner) && (l.job_id == id)))
          (λ l f. ground (arith, f, not_mine owner mine apart l.owner_id)) db.links
    where
      elsewhere :
          (l : Link)
          → LinkFound db.jobs db.sources l
          → (l.owner_id == mine) ≡ true
          → not (l.job_id == id) ≡ true
      elsewhere l found f = ground (
        arith,
        one_owner id db.jobs h.jobs_unique e,
        found.0,
        f,
        eq_iff l.owner_id mine,
        eq_iff l.job_id id,
        ap (λ o. some_in (is_job o l.job_id) db.jobs) {x = l.owner_id} {y = mine},
        ap (λ i. some_in (is_job mine i) db.jobs) {x = l.job_id} {y = id},
      )

  pub delete_job-IsSame :
      (id : String) (db : ConfigDb) → IsSound db → IsSame owner mine db (delete_job owner id db).0
  unfolding delete_job
  delete_job-IsSame id db h =
      first_if (IsSame owner mine db) (some_in (is_job owner id) db.jobs) _
        (db, raised (unknown_job id))
        (λ e.
          jobs-IsSame owner mine (keep (λ r. not (is_job owner id r)) db.jobs)
            (keep (λ l. not (l.job_id == id))
              (keep (λ l. not ((l.owner_id == owner) && (l.job_id == id))) db.links))
            db
            (keep-kept (λ r. r.owner_id == mine) (λ r. not (is_job owner id r))
              (λ r f. ground (arith, f, not_mine owner mine apart r.owner_id)) db.jobs)
            (delete_links id db h e))
        (λ e. unchanged owner mine db)

  pub add_job_source-IsSame :
      (job source : String) (db : ConfigDb)
      → IsSame owner mine db (add_job_source owner job source db).0
  unfolding add_job_source
  add_job_source-IsSame job source db =
      first_if (IsSame owner mine db) (not (some_in (is_job owner job) db.jobs))
        (db, raised (unknown_job job)) _ (λ e. unchanged owner mine db)
        (λ e. link_sources-IsSame job (source ∷ []) db)

  pub remove_job_source-IsSame :
      (job source : String) (db : ConfigDb)
      → IsSame owner mine db (remove_job_source owner job source db)
  unfolding remove_job_source
  remove_job_source-IsSame job source db =
      jobs-IsSame owner mine db.jobs
        (keep (λ l. not ((l.owner_id == owner) && is_link job source l)) db.links) db refl
        (keep-kept (λ l. l.owner_id == mine)
          (λ l. not ((l.owner_id == owner) && is_link job source l))
          (λ l f. ground (arith, f, not_mine owner mine apart l.owner_id)) db.links)
