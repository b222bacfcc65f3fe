-- ===== src/ConfigStore/Integrity/Products.antt =====
-- The keys of config.db under add_site and add_product of registry/sqlite_store.py.
use Prim.{tt}
use kerdoos.Prelude.{
  split_if, ◌≡◌, refl, ◌∙◌, String, Bool, true, false, Option, List, [], ◌∷◌, some_in,
  if◌then◌else◌, arith,
}
use kerdoos.Prelude.{◌++◌, ◌==◌, eq_iff, is_some}
use kerdoos.Prelude.Dict.{get, put, replace, get-put}
use kerdoos.Prelude.Rows.{Unique, All-weaken}
use kerdoos.Registry.{SiteConfig, Product}
use kerdoos.ConfigStore.Tables.{ProductRow, ConfigDb, is_product}
use kerdoos.ConfigStore.Operations.{add_site, add_product, rename}
use kerdoos.ConfigStore.Integrity.{same_name, SourceFound, IsSound}

module _ (k : String) (v : SiteConfig) where
  some_in-replace :
      (j : String) (d : List (String × SiteConfig))
      → some_in (λ y. y.0 == j) (replace k v d) ≡ some_in (λ y. y.0 == j) d
  unfolding some_in replace
  some_in-replace j [] = refl
  some_in-replace j ((i, w) ∷ d) = ground (arith, some_in-replace j d)

  Unique-replace :
      (d : List (String × SiteConfig)) → Unique same_name d → Unique same_name (replace k v d)
  unfolding replace
  Unique-replace [] h = tt
  Unique-replace ((i, w) ∷ d) h = (some_in-replace i d ∙ h.0, Unique-replace d h.1)

  some_in-append :
      (j : String) (d : List (String × SiteConfig))
      → (j == k) ≡ false
      → some_in (λ y. y.0 == j) d ≡ false
      → some_in (λ y. y.0 == j) (d ++ (k, v) ∷ []) ≡ false
  unfolding some_in
  some_in-append j [] e h = ground (arith, e, eq_iff k j, eq_iff j k)
  some_in-append j (x ∷ d) e h = ground (arith, h, some_in-append j d e)

  Unique-append :
      (d : List (String × SiteConfig))
      → is_some (get k d) ≡ false
      → Unique same_name d
      → Unique same_name (d ++ (k, v) ∷ [])
  unfolding get some_in
  Unique-append [] e h = (refl, tt)
  Unique-append ((i, w) ∷ d) e h =
      (some_in-append i d (ground (arith, e)) h.0, Unique-append d (ground (arith, e)) h.1)

  put_by-Unique :
      (d : List (String × SiteConfig)) (b : Bool)
      → is_some (get k d) ≡ b
      → Unique same_name d
      → Unique same_name (if b then replace k v d else d ++ (k, v) ∷ [])
  put_by-Unique d true e h = Unique-replace d h
  put_by-Unique d false e h = Unique-append d e h

  Unique-put : (d : List (String × SiteConfig)) → Unique same_name d → Unique same_name (put k v d)
  unfolding put
  Unique-put d h = put_by-Unique d (is_some (get k d)) refl h

pub add_site-IsSound : (site : SiteConfig) (db : ConfigDb) → IsSound db → IsSound (add_site site db)
unfolding add_site
add_site-IsSound site db h = record {
  sites_unique = Unique-put site.name site db.sites h.sites_unique;
  products_unique = h.products_unique;
  sources_unique = h.sources_unique;
  jobs_unique = h.jobs_unique;
  links_unique = h.links_unique;
  sources_found =
      All-weaken (SourceFound db.products db.sites)
        (SourceFound db.products (put site.name site db.sites))
        (λ r f. (f.0, ground (arith, f.1, get-put r.source.site site.name site db.sites)))
        db.sources h.sources_found;
  links_found = h.links_found;
}

some_in-rename :
    (owner key o k : String) (name : Option String) (rows : List ProductRow)
    → some_in (is_product o k) (rename owner key name rows) ≡ some_in (is_product o k) rows
unfolding some_in rename
some_in-rename owner key o k name [] = refl
some_in-rename owner key o k name (r ∷ rs) = ground (arith, some_in-rename owner key o k name rs)

same_key :
    (r : ProductRow) (name : Option String) (b : Bool) (rows : List ProductRow)
    → some_in
        (is_product
          (if b then record r { name = name } else r).owner_id
          (if b then record r { name = name } else r).product_key)
        rows
      ≡ some_in (is_product r.owner_id r.product_key) rows
same_key r name true rows = refl
same_key r name false rows = refl

Unique-rename :
    (owner key : String) (name : Option String) (rows : List ProductRow)
    → Unique (λ r. is_product r.owner_id r.product_key) rows
    → Unique (λ r. is_product r.owner_id r.product_key) (rename owner key name rows)
unfolding rename
Unique-rename owner key name [] h = tt
Unique-rename owner key name (r ∷ rs) h = (
  same_key r name (is_product owner key r) (rename owner key name rs)
      ∙ some_in-rename owner key r.owner_id r.product_key name rs
      ∙ h.0,
  Unique-rename owner key name rs h.1,
)

renamed-IsSound :
    (owner key : String) (name : Option String) (db : ConfigDb)
    → IsSound db
    → IsSound (record db { products = rename owner key name db.products })
renamed-IsSound owner key name db h = record {
  sites_unique = h.sites_unique;
  products_unique = Unique-rename owner key name db.products h.products_unique;
  sources_unique = h.sources_unique;
  jobs_unique = h.jobs_unique;
  links_unique = h.links_unique;
  sources_found =
      All-weaken (SourceFound db.products db.sites)
        (SourceFound (rename owner key name db.products) db.sites)
        (λ r f.
          (some_in-rename owner key r.owner_id r.source.product_id name db.products ∙ f.0, f.1))
        db.sources h.sources_found;
  links_found = h.links_found;
}

inserted-IsSound :
    (p : ProductRow) (db : ConfigDb)
    → some_in (is_product p.owner_id p.product_key) db.products ≡ false
    → IsSound db
    → IsSound (record db { products = p ∷ db.products })
unfolding some_in
inserted-IsSound p db new h = record {
  sites_unique = h.sites_unique;
  products_unique = (new, h.products_unique);
  sources_unique = h.sources_unique;
  jobs_unique = h.jobs_unique;
  links_unique = h.links_unique;
  sources_found =
      All-weaken (SourceFound db.products db.sites) (SourceFound (p ∷ db.products) db.sites)
        (λ r f. (ground (arith, f.0), f.1)) db.sources h.sources_found;
  links_found = h.links_found;
}

pub add_product-IsSound :
    (owner : String) (p : Product) (db : ConfigDb) → IsSound db → IsSound (add_product owner p db)
unfolding add_product
add_product-IsSound owner p db h =
    split_if IsSound (some_in (is_product owner p.id) db.products) _ _
      (λ e. renamed-IsSound owner p.id p.name db h)
      (λ e.
        inserted-IsSound (record { owner_id = owner; product_key = p.id; name = p.name }) db e h)
