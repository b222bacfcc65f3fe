-- ===== src/ConfigStore/Catalogue.antt =====
-- The registry that load of registry/sqlite_store.py builds, as Registry.iter_sources of
-- registry/ports.py walks it.
use Prim.{tt}
use kerdoos.Prelude.{
  ◌≡◌, refl, ap, ◌∙◌, String, Bool, true, false, some, List, [], ◌∷◌, map, ◌==◌, keep, is_some,
  if◌then◌else◌, All, All-append, arith,
}
use kerdoos.Prelude.Dict.{get}
use kerdoos.Prelude.Sorting.{text_le, insert_sorted, sort_by}
use kerdoos.Prelude.Rows.{All-keep, All-sort_by, All-map}
use kerdoos.Scrape.Domain.{Outcome, returned}
use kerdoos.Registry.{SiteConfig, ProductSource, Entry, find_site, all_sources}
use kerdoos.ConfigStore.Tables.{
  ProductRow, SourceRow, ConfigDb, load, products_from, sources_of_product, source_before,
}
use kerdoos.ConfigStore.Integrity.{SourceFound, IsSound}

pub find_site-get :
    (name : String) (sites : List (String × SiteConfig)) → find_site name sites ≡ get name sites
unfolding find_site get
find_site-get name [] = refl
find_site-get name ((k, s) ∷ rest) =
    ap (λ o. if k == name then some s else o) (find_site-get name rest)

module _ (le : (String × SiteConfig) → (String × SiteConfig) → Bool) (name : String) where
  insert_by :
      (a x : String × SiteConfig) (xs : List (String × SiteConfig)) (b : Bool)
      → is_some (get name (insert_sorted le a xs)) ≡ is_some (get name (a ∷ xs))
      → is_some (get name (if b then a ∷ x ∷ xs else x ∷ insert_sorted le a xs))
        ≡ is_some (get name (a ∷ x ∷ xs))
  unfolding get
  insert_by a x xs true ih = refl
  insert_by a x xs false ih = ground (arith, ih)

  get-insert_sorted :
      (a : String × SiteConfig) (xs : List (String × SiteConfig))
      → is_some (get name (insert_sorted le a xs)) ≡ is_some (get name (a ∷ xs))
  unfolding insert_sorted
  get-insert_sorted a [] = refl
  get-insert_sorted a (x ∷ xs) = insert_by a x xs (le a x) (get-insert_sorted a xs)

  get-cons :
      (a : String × SiteConfig) (xs ys : List (String × SiteConfig))
      → is_some (get name xs) ≡ is_some (get name ys)
      → is_some (get name (a ∷ xs)) ≡ is_some (get name (a ∷ ys))
  unfolding get
  get-cons a xs ys h = ground (arith, h)

  -- Sorting finds the same sites.
  get-sort_by :
      (sites : List (String × SiteConfig))
      → is_some (get name (sort_by le sites)) ≡ is_some (get name sites)
  unfolding sort_by
  get-sort_by [] = refl
  get-sort_by (x ∷ xs) =
      get-insert_sorted x (sort_by le xs) ∙ get-cons x (sort_by le xs) xs (get-sort_by xs)

-- The site of a source is in the catalogue.
abbrev pub HasSite : List (String × SiteConfig) → ProductSource → Type 0
HasSite sites s = is_some (get s.site sites) ≡ true

sources-HasSite :
    (sites : List (String × SiteConfig)) (rows : List SourceRow) (products : List ProductRow)
    → All (λ r. HasSite sites r.source) rows
    → All (HasSite sites) (
        all_sources (
          map
            (λ r. record {
              id = r.product_key;
              name = r.name;
              sources = sources_of_product r.product_key rows;
            })
            products))
unfolding all_sources
sources-HasSite sites rows [] h = tt
sources-HasSite sites rows (p ∷ ps) h =
    All-append (HasSite sites) (sources_of_product p.product_key rows)
      (all_sources (
        map
          (λ r. record {
            id = r.product_key;
            name = r.name;
            sources = sources_of_product r.product_key rows;
          })
          ps))
      (All-map (HasSite sites) (λ r. r.source)
        (keep (λ r. r.source.product_id == p.product_key) rows)
        (All-keep (λ r. HasSite sites r.source) (λ r. HasSite sites r.source)
          (λ r. r.source.product_id == p.product_key) (λ r e f. f) rows h))
      (sources-HasSite sites rows ps h)

-- The site of an entry is the one that its source names.
abbrev pub HasItsSite : List (String × SiteConfig) → Entry → Type 0
HasItsSite sites e = get e.source.site sites ≡ some e.site

-- What a walk over known sites yields.
abbrev Walked : List (String × SiteConfig) → Outcome (List Entry) → List ProductSource → Type 0
Walked sites o sources =
    (es : List Entry) × (o ≡ returned es)
    × (map (λ e. e.source) es ≡ sources)
    × All (HasItsSite sites) es

pub load-HasSite :
    (owner : String) (db : ConfigDb)
    → IsSound db
    → All (HasSite (load owner db).sites) (all_sources (load owner db).products)
unfolding load products_from
load-HasSite owner db h =
    sources-HasSite (load owner db).sites
      (sort_by source_before (keep (λ r. r.owner_id == owner) db.sources))
      (sort_by (λ r t. text_le r.product_key t.product_key)
        (keep (λ r. r.owner_id == owner) db.products))
      (All-sort_by (λ r. HasSite (load owner db).sites r.source) source_before
        (keep (λ r. r.owner_id == owner) db.sources)
        (All-keep (SourceFound db.products db.sites) (λ r. HasSite (load owner db).sites r.source)
          (λ r. r.owner_id == owner)
          (λ r e f. get-sort_by (λ a b. text_le a.0 b.0) r.source.site db.sites ∙ f.1) db.sources
          h.sources_found))
