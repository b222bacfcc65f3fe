-- ===== src/ConfigStore/Integrity/Sources.antt =====
-- The keys of config.db under the writes of sources, and remove_product.
use Prim.{tt}
use kerdoos.Prelude.{
  first_if, ◌≡◌, ◌∙◌, String, Bool, true, false, not, ◌&&◌, List, [], ◌∷◌, keep, some_in, is_some,
  All, arith, eq_iff,
}
use kerdoos.Prelude.Dict.{get}
use kerdoos.Prelude.Rows.{All-weaken, All-keep, Unique-keep, some_in-kept, some_in-spared}
use kerdoos.Registry.{ProductSource}
use kerdoos.ConfigStore.Tables.{SourceRow, ConfigDb, is_product, is_source, is_link}
use kerdoos.ConfigStore.Operations.{
  add_source, is_same_source, delete_sources, is_orphaned, remove_product, is_source_of,
  delete_product,
}
use kerdoos.ConfigStore.Integrity.{SourceFound, LinkFound, IsSound}

new_source-IsSound :
    (owner : String) (s : ProductSource) (db : ConfigDb)
    → some_in (is_source owner s.source_id) db.sources ≡ false
    → (some_in (is_product owner s.product_id) db.products && is_some (get s.site db.sites)) ≡ true
    → IsSound db
    → IsSound (record db { sources = record { owner_id = owner; source = s } ∷ db.sources })
unfolding some_in
new_source-IsSound owner s db new there h = record {
  sites_unique = h.sites_unique;
  products_unique = h.products_unique;
  sources_unique = (new, h.sources_unique);
  jobs_unique = h.jobs_unique;
  links_unique = h.links_unique;
  sources_found = ((ground (arith, there), ground (arith, there)), h.sources_found);
  links_found =
      All-weaken (LinkFound db.jobs db.sources)
        (LinkFound db.jobs (record { owner_id = owner; source = s } ∷ db.sources))
        (λ l f. (f.0, ground (arith, f.1))) db.links h.links_found;
}

pub add_source-IsSound :
    (owner : String) (s : ProductSource) (db : ConfigDb)
    → IsSound db
    → IsSound (add_source owner s db).0
unfolding add_source
add_source-IsSound owner s db h =
    first_if IsSound (some_in (is_source owner s.source_id) db.sources) _ _ (λ e. h)
      (λ e.
        first_if IsSound (some_in (is_same_source owner s) db.sources) _ _ (λ f. h)
          (λ f.
            first_if IsSound
              (some_in (is_product owner s.product_id) db.products && is_some (get s.site db.sites))
              _ _ (λ g. new_source-IsSound owner s db e g h) (λ g. h)))

pub delete_sources-IsSound :
    (p : SourceRow → Bool) (db : ConfigDb) → IsSound db → IsSound (delete_sources p db)
unfolding delete_sources
delete_sources-IsSound p db h = record {
  sites_unique = h.sites_unique;
  products_unique = h.products_unique;
  sources_unique =
      Unique-keep (λ r. is_source r.owner_id r.source.source_id) (λ r. not (p r)) db.sources
        h.sources_unique;
  jobs_unique = h.jobs_unique;
  links_unique =
      Unique-keep (λ l. is_link l.job_id l.source_id) (λ l. not (is_orphaned p db.sources l))
        db.links h.links_unique;
  sources_found =
      All-keep (SourceFound db.products db.sites) (SourceFound db.products db.sites)
        (λ r. not (p r)) (λ r e f. f) db.sources h.sources_found;
  links_found =
      All-keep (LinkFound db.jobs db.sources) (LinkFound db.jobs (keep (λ r. not (p r)) db.sources))
        (λ l. not (is_orphaned p db.sources l))
        (λ l e f. (
          f.0,
          some_in-spared (is_source l.owner_id l.source_id) p db.sources f.1 (ground (arith, e)),
        ))
        db.links h.links_found;
}

-- A product goes when none of its sources is left.
delete_product-IsSound :
    (owner key : String) (db : ConfigDb)
    → All (λ r. is_source_of owner key r ≡ false) db.sources
    → IsSound db
    → IsSound (delete_product owner key db)
delete_product-IsSound owner key db gone h = record {
  sites_unique = h.sites_unique;
  products_unique =
      Unique-keep (λ r. is_product r.owner_id r.product_key) (λ r. not (is_product owner key r))
        db.products h.products_unique;
  sources_unique = h.sources_unique;
  jobs_unique = h.jobs_unique;
  links_unique = h.links_unique;
  sources_found = still_found db.sources gone h.sources_found;
  links_found = h.links_found;
}
  where
    still_found :
        (rows : List SourceRow)
        → All (λ r. is_source_of owner key r ≡ false) rows
        → All (SourceFound db.products db.sites) rows
        → All (SourceFound (keep (λ r. not (is_product owner key r)) db.products) db.sites) rows
    still_found [] g f = tt
    still_found (r ∷ rs) g f = (
      (
        some_in-kept (is_product r.owner_id r.source.product_id) (λ x. not (is_product owner key x))
              (λ x e. ground (
                arith,
                e,
                g.0,
                eq_iff x.owner_id r.owner_id,
                eq_iff x.product_key r.source.product_id,
                eq_iff x.owner_id owner,
                eq_iff x.product_key key,
                eq_iff r.owner_id owner,
                eq_iff r.source.product_id key,
              ))
              db.products
            ∙ f.0.0,
        f.0.1,
      ),
      still_found rs g.1 f.1,
    )

All-units : (rows : List SourceRow) → All (λ r. Unit {0}) rows
All-units [] = tt
All-units (r ∷ rs) = (tt, All-units rs)

pub remove_product-IsSound :
    (owner key : String) (db : ConfigDb) → IsSound db → IsSound (remove_product owner key db).0
unfolding remove_product
remove_product-IsSound owner key db h =
    first_if IsSound (some_in (is_product owner key) db.products) _ _
      (λ e.
        delete_product-IsSound owner key (delete_sources (is_source_of owner key) db)
          (unfold delete_sources in
            All-keep (λ r. Unit {0}) (λ r. is_source_of owner key r ≡ false)
              (λ r. not (is_source_of owner key r)) (λ r f u. ground (arith, f)) db.sources
              (All-units db.sources))
          (delete_sources-IsSound (is_source_of owner key) db h))
      (λ e. h)
