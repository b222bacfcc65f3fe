-- ===== src/ConfigStore/Tenancy/Sources.antt =====
-- Writes of products and sources, for another owner's rows (registry/sqlite_store.py).
use Prim.{tt}
use kerdoos.Prelude.{
  ◌≡◌, ◌≢◌, refl, String, Bool, true, not, ◌&&◌, Option, List, [], ◌∷◌, ◌==◌, keep, some_in,
  is_some, arith, eq_iff, eq_refl, first_if, either_if,
}
use kerdoos.Prelude.Dict.{get}
use kerdoos.Prelude.Rows.{keep-kept, some_in-none}
use kerdoos.Scrape.Domain.{returned, raised, other}
use kerdoos.Registry.{ProductSource, Product}
use kerdoos.ConfigStore.Tables.{ProductRow, SourceRow, Link, ConfigDb, is_product, is_source}
use kerdoos.ConfigStore.Operations.{
  rename, add_product, is_same_source, add_source, delete_sources, is_orphaned, remove_source,
  is_source_of, delete_product, remove_product, integrity_error,
}
use kerdoos.ConfigStore.Tenancy.{
  my_products, IsSame, unchanged, IsSame-trans, products-IsSame, sources-IsSame, not_mine,
}

module _ (owner mine : String) (apart : owner ≢ mine) where
  my_products-rename :
      (key : String) (name : Option String) (rows : List ProductRow)
      → my_products owner mine (rename owner key name rows) ≡ my_products owner mine rows
  unfolding rename keep
  my_products-rename key name [] = refl
  my_products-rename key name (r ∷ rs) =
      ground (arith, not_mine owner mine apart r.owner_id, my_products-rename key name rs)

  pub add_product-IsSame :
      (p : Product) (db : ConfigDb) → IsSame owner mine db (add_product owner p db)
  unfolding add_product keep
  add_product-IsSame p db =
      either_if (IsSame owner mine db) (some_in (is_product owner p.id) db.products)
        (record db { products = rename owner p.id p.name db.products })
        (record db {
          products = record { owner_id = owner; product_key = p.id; name = p.name } ∷ db.products;
        })
        (products-IsSame owner mine (rename owner p.id p.name db.products) db
          (my_products-rename p.id p.name db.products))
        (products-IsSame owner mine
          (record { owner_id = owner; product_key = p.id; name = p.name } ∷ db.products) db
          (ground (arith, not_mine owner mine apart owner (eq_refl owner))))

  spared :
      (p : SourceRow → Bool) (sources : List SourceRow)
      → ((r : SourceRow) → p r ≡ true → (r.owner_id == owner) ≡ true)
      → (l : Link) → (l.owner_id == mine) ≡ true
      → not (is_orphaned p sources l) ≡ true
  spared p sources own l e = ground (
    arith,
    some_in-none (λ r. p r && is_source l.owner_id l.source_id r)
        (λ r. ground (
          arith,
          own r,
          eq_iff r.owner_id owner,
          eq_iff r.owner_id l.owner_id,
          eq_iff l.owner_id mine,
          e,
          apart,
        ))
        sources,
  )

  delete_sources-IsSame :
      (p : SourceRow → Bool) (db : ConfigDb)
      → ((r : SourceRow) → p r ≡ true → (r.owner_id == owner) ≡ true)
      → IsSame owner mine db (delete_sources p db)
  unfolding delete_sources
  delete_sources-IsSame p db own =
      sources-IsSame owner mine (keep (λ r. not (p r)) db.sources)
        (keep (λ l. not (is_orphaned p db.sources l)) db.links) db
        (keep-kept (λ r. r.owner_id == mine) (λ r. not (p r))
          (λ r e. ground (arith, e, own r, not_mine owner mine apart r.owner_id)) db.sources)
        (keep-kept (λ l. l.owner_id == mine) (λ l. not (is_orphaned p db.sources l))
          (spared p db.sources own) db.links)

  pub remove_source-IsSame :
      (id : String) (db : ConfigDb) → IsSame owner mine db (remove_source owner id db)
  unfolding remove_source
  remove_source-IsSame id db =
      delete_sources-IsSame (is_source owner id) db (λ r e. ground (arith, e))

  pub remove_product-IsSame :
      (key : String) (db : ConfigDb) → IsSame owner mine db (remove_product owner key db).0
  unfolding remove_product
  remove_product-IsSame key db =
      first_if (IsSame owner mine db) (some_in (is_product owner key) db.products)
        (delete_product owner key (delete_sources (is_source_of owner key) db), returned tt)
        (db, raised (other "KeyError" key))
        (λ e.
          IsSame-trans owner mine db (delete_sources (is_source_of owner key) db)
            (delete_product owner key (delete_sources (is_source_of owner key) db))
            (delete_sources-IsSame (is_source_of owner key) db (λ r f. ground (arith, f)))
            (products-IsSame owner mine
              (keep (λ r. not (is_product owner key r))
                (delete_sources (is_source_of owner key) db).products)
              (delete_sources (is_source_of owner key) db)
              (keep-kept (λ r. r.owner_id == mine) (λ r. not (is_product owner key r))
                (λ r f. ground (arith, f, not_mine owner mine apart r.owner_id))
                (delete_sources (is_source_of owner key) db).products)))
        (λ e. unchanged owner mine db)

  pub add_source-IsSame :
      (s : ProductSource) (db : ConfigDb) → IsSame owner mine db (add_source owner s db).0
  unfolding add_source keep
  add_source-IsSame s db =
      first_if (IsSame owner mine db) (some_in (is_source owner s.source_id) db.sources)
        (db, returned tt) _ (λ e. unchanged owner mine db)
        (λ e.
          first_if (IsSame owner mine db) (some_in (is_same_source owner s) db.sources)
            (db, raised integrity_error) _ (λ f. unchanged owner mine db)
            (λ f.
              first_if (IsSame owner mine db)
                (some_in (is_product owner s.product_id) db.products
                  && is_some (get s.site db.sites))
                (
                  record db { sources = record { owner_id = owner; source = s } ∷ db.sources },
                  returned tt,
                )
                (db, raised integrity_error)
                (λ g.
                  sources-IsSame owner mine (record { owner_id = owner; source = s } ∷ db.sources)
                    db.links db (ground (arith, not_mine owner mine apart owner (eq_refl owner)))
                    refl)
                (λ g. unchanged owner mine db)))
