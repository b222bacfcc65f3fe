-- ===== src/ConfigStore/Integrity/Links.antt =====
-- The keys of config.db when jobs and their links are deleted, and links are added.
use kerdoos.Prelude.{
  first_if, ◌∙◌, String, Bool, not, ◌&&◌, [], ◌∷◌, ◌==◌, keep, some_in, arith, eq_iff,
}
use kerdoos.Prelude.Rows.{All-keep, Unique-keep, some_in-kept}
use kerdoos.ConfigStore.Tables.{Link, ConfigDb, is_job, is_link}
use kerdoos.ConfigStore.Operations.{delete_job, add_job_source, remove_job_source}
use kerdoos.ConfigStore.Integrity.{LinkFound, IsSound}
use kerdoos.ConfigStore.Integrity.Jobs.{link_sources-IsSound}

fewer_links-IsSound :
    (q : Link → Bool) (db : ConfigDb) → IsSound db → IsSound (record db { links = keep q db.links })
fewer_links-IsSound q db h = record {
  sites_unique = h.sites_unique;
  products_unique = h.products_unique;
  sources_unique = h.sources_unique;
  jobs_unique = h.jobs_unique;
  links_unique = Unique-keep (λ l. is_link l.job_id l.source_id) q db.links h.links_unique;
  sources_found = h.sources_found;
  links_found =
      All-keep (LinkFound db.jobs db.sources) (LinkFound db.jobs db.sources) q (λ l e f. f) db.links
        h.links_found;
}

job_gone-IsSound :
    (owner id : String) (db : ConfigDb)
    → IsSound db
    → IsSound (record db {
      links = keep (λ l. not (l.job_id == id)) db.links;
      jobs = keep (λ r. not (is_job owner id r)) db.jobs;
    })
job_gone-IsSound owner id db h = record {
  sites_unique = h.sites_unique;
  products_unique = h.products_unique;
  sources_unique = h.sources_unique;
  jobs_unique =
      Unique-keep (λ r t. t.id == r.id) (λ r. not (is_job owner id r)) db.jobs h.jobs_unique;
  links_unique =
      Unique-keep (λ l. is_link l.job_id l.source_id) (λ l. not (l.job_id == id)) db.links
        h.links_unique;
  sources_found = h.sources_found;
  links_found =
      All-keep (LinkFound db.jobs db.sources)
        (LinkFound (keep (λ r. not (is_job owner id r)) db.jobs) db.sources)
        (λ l. not (l.job_id == id))
        (λ l e f. (
          some_in-kept (is_job l.owner_id l.job_id) (λ r. not (is_job owner id r))
                (λ r g.
                  ground (arith, e, g, eq_iff l.job_id id, eq_iff r.id l.job_id, eq_iff r.id id))
                db.jobs
              ∙ f.0,
          f.1,
        ))
        db.links h.links_found;
}

pub delete_job-IsSound :
    (owner id : String) (db : ConfigDb) → IsSound db → IsSound (delete_job owner id db).0
unfolding delete_job
delete_job-IsSound owner id db h =
    first_if IsSound (some_in (is_job owner id) db.jobs) _ _
      (λ e.
        job_gone-IsSound owner id
          (record db {
            links = keep (λ l. not ((l.owner_id == owner) && (l.job_id == id))) db.links;
          })
          (fewer_links-IsSound (λ l. not ((l.owner_id == owner) && (l.job_id == id))) db h))
      (λ e. h)

pub add_job_source-IsSound :
    (owner job source : String) (db : ConfigDb)
    → IsSound db
    → IsSound (add_job_source owner job source db).0
unfolding add_job_source
add_job_source-IsSound owner job source db h =
    first_if IsSound (not (some_in (is_job owner job) db.jobs)) _ _ (λ e. h)
      (λ e. link_sources-IsSound owner job (source ∷ []) db (ground (arith, e)) h)

pub remove_job_source-IsSound :
    (owner job source : String) (db : ConfigDb)
    → IsSound db
    → IsSound (remove_job_source owner job source db)
unfolding remove_job_source
remove_job_source-IsSound owner job source db h =
    fewer_links-IsSound (λ l. not ((l.owner_id == owner) && is_link job source l)) db h
