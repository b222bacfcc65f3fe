-- ===== src/ConfigStore/Integrity/Jobs.antt =====
-- The keys of config.db under the writes of digest jobs.
use Prim.{tt}
use kerdoos.Prelude.{
  first_if, ◌≡◌, refl, ap, ◌∙◌, String, Bool, true, false, not, ◌&&◌, ◌||◌, List, [], ◌∷◌, ◌==◌,
  some_in, if◌then◌else◌, arith, eq_refl,
}
use kerdoos.Prelude.Rows.{Unique, All-weaken}
use kerdoos.Registry.Jobs.{DigestJob}
use kerdoos.ConfigStore.Tables.{JobRow, Link, ConfigDb, is_source, is_job, is_link}
use kerdoos.ConfigStore.Operations.{
  links_new, insert_link, link_sources, create_job, is_named, row_of_job, update_job, update_rows,
  overwrite,
}
use kerdoos.ConfigStore.Integrity.{LinkFound, IsSound}

linked-IsSound :
    (l : Link) (db : ConfigDb)
    → some_in (is_job l.owner_id l.job_id) db.jobs ≡ true
    → some_in (is_source l.owner_id l.source_id) db.sources ≡ true
    → some_in (is_link l.job_id l.source_id) db.links ≡ false
    → IsSound db
    → IsSound (record db { links = l ∷ db.links })
linked-IsSound l db job source new h = record {
  sites_unique = h.sites_unique;
  products_unique = h.products_unique;
  sources_unique = h.sources_unique;
  jobs_unique = h.jobs_unique;
  links_unique = (new, h.links_unique);
  sources_found = h.sources_found;
  links_found = ((job, source), h.links_found);
}

pub link_sources-IsSound :
    (owner job : String) (sources : List String) (db : ConfigDb)
    → some_in (is_job owner job) db.jobs ≡ true
    → IsSound db
    → IsSound (link_sources owner job sources db).0
unfolding link_sources
link_sources-IsSound owner job [] db there h = h
link_sources-IsSound owner job (s ∷ ss) db there h =
    link_by (links_new owner job s db) refl (link_sources-IsSound owner job ss)
  where
    link_by :
        (b : Bool)
        → links_new owner job s db ≡ b
        → ((d : ConfigDb)
            → some_in (is_job owner job) d.jobs ≡ true
            → IsSound d
            → IsSound (link_sources owner job ss d).0)
        → IsSound (link_sources owner job ss (if b then insert_link owner job s db else db)).0
    link_by true e rest = rest (insert_link owner job s db) there (
        linked-IsSound (record { owner_id = owner; job_id = job; source_id = s }) db there
          (ground (arith, e)) (ground (arith, e)) h)
    link_by false e rest = rest db there h

new_job-IsSound :
    (r : JobRow) (db : ConfigDb)
    → some_in (λ t. t.id == r.id) db.jobs ≡ false
    → IsSound db
    → IsSound (record db { jobs = r ∷ db.jobs })
unfolding some_in
new_job-IsSound r db new h = record {
  sites_unique = h.sites_unique;
  products_unique = h.products_unique;
  sources_unique = h.sources_unique;
  jobs_unique = (new, h.jobs_unique);
  links_unique = h.links_unique;
  sources_found = h.sources_found;
  links_found =
      All-weaken (LinkFound db.jobs db.sources) (LinkFound (r ∷ db.jobs) db.sources)
        (λ l f. (ground (arith, f.0), f.1)) db.links h.links_found;
}

first-found :
    (owner : String) (job : DigestJob) (rows : List JobRow)
    → some_in (is_job owner job.id) (row_of_job owner job ∷ rows) ≡ true
unfolding some_in
first-found owner job rows = ground (arith, eq_refl owner, eq_refl job.id)

pub create_job-IsSound :
    (owner : String) (job : DigestJob) (ids : List String) (db : ConfigDb)
    → IsSound db
    → IsSound (create_job owner job ids db).0
unfolding create_job
create_job-IsSound owner job ids db h =
    first_if IsSound
      (some_in (λ r. r.id == job.id) db.jobs || some_in (is_named owner job.name) db.jobs) _ _
      (λ e. h)
      (λ e.
        link_sources-IsSound owner job.id ids (record db { jobs = row_of_job owner job ∷ db.jobs })
          (first-found owner job db.jobs)
          (new_job-IsSound (row_of_job owner job) db (ground (arith, e)) h))

-- An UPDATE sets no column of a key.
some_in-update_rows :
    (p : String → String → Bool) (owner id : String) (job : DigestJob) (rows : List JobRow)
    → some_in (λ r. p r.owner_id r.id) (update_rows owner id job rows)
      ≡ some_in (λ r. p r.owner_id r.id) rows
unfolding some_in update_rows
some_in-update_rows p owner id job [] = refl
some_in-update_rows p owner id job (r ∷ rs) =
    same_by (is_job owner id r) (some_in-update_rows p owner id job rs)
  where
    same_by :
        (b : Bool)
        → some_in (λ r. p r.owner_id r.id) (update_rows owner id job rs)
          ≡ some_in (λ r. p r.owner_id r.id) rs
        → some_in
            (λ r. p r.owner_id r.id)
            ((if b then overwrite job r else r) ∷ update_rows owner id job rs)
          ≡ some_in (λ r. p r.owner_id r.id) (r ∷ rs)
    same_by true ih = ap (λ x. p r.owner_id r.id || x) ih
    same_by false ih = ap (λ x. p r.owner_id r.id || x) ih

id-overwrite :
    (b : Bool) (job : DigestJob) (r : JobRow) → (if b then overwrite job r else r).id ≡ r.id
id-overwrite true job r = refl
id-overwrite false job r = refl

Unique-update_rows :
    (owner id : String) (job : DigestJob) (rows : List JobRow)
    → Unique (λ r t. t.id == r.id) rows
    → Unique (λ r t. t.id == r.id) (update_rows owner id job rows)
unfolding update_rows
Unique-update_rows owner id job [] h = tt
Unique-update_rows owner id job (r ∷ rs) h = (
  ap (λ x. some_in (λ t. t.id == x) (update_rows owner id job rs))
        (id-overwrite (is_job owner id r) job r)
      ∙ some_in-update_rows (λ o i. i == r.id) owner id job rs
      ∙ h.0,
  Unique-update_rows owner id job rs h.1,
)

updated-IsSound :
    (owner id : String) (job : DigestJob) (db : ConfigDb)
    → IsSound db
    → IsSound (record db { jobs = update_rows owner id job db.jobs })
updated-IsSound owner id job db h = record {
  sites_unique = h.sites_unique;
  products_unique = h.products_unique;
  sources_unique = h.sources_unique;
  jobs_unique = Unique-update_rows owner id job db.jobs h.jobs_unique;
  links_unique = h.links_unique;
  sources_found = h.sources_found;
  links_found =
      All-weaken (LinkFound db.jobs db.sources)
        (LinkFound (update_rows owner id job db.jobs) db.sources)
        (λ l f. (
          some_in-update_rows (λ o i. (o == l.owner_id) && (i == l.job_id)) owner id job db.jobs
              ∙ f.0,
          f.1,
        ))
        db.links h.links_found;
}

pub update_job-IsSound :
    (owner id : String) (job : DigestJob) (db : ConfigDb)
    → IsSound db
    → IsSound (update_job owner id job db).0
unfolding update_job
update_job-IsSound owner id job db h =
    first_if IsSound (not (some_in (is_job owner id) db.jobs)) _ _ (λ e. h)
      (λ e.
        first_if IsSound (some_in (λ r. is_named owner job.name r && not (r.id == id)) db.jobs) _ _
          (λ f. h) (λ f. updated-IsSound owner id job db h))
