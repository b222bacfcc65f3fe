-- ===== src/AppService/Batches/Accepted.antt =====
-- What import_config of packages/kerdoos/src/kerdoos/core/app/services.py has checked before it writes.
use Prim.{tt, absurd}
use kerdoos.Prelude.{
  ◌≡◌, ◌⊎◌, inl, inr, refl, String, Bool, true, false, not, ◌||◌, Option, none, some, List, [], ◌∷◌,
  ◌++◌, All, if◌then◌else◌,
}
use kerdoos.Prelude.Dict.{get}
use kerdoos.Scrape.Domain.{Exc, Outcome, returned, raised}
use kerdoos.Registry.{SiteConfig}
use kerdoos.Registry.Jobs.{validate_product_key}
use kerdoos.ConfigStore.Tables.{ConfigDb}
use kerdoos.ConfigStore.Operations.{Done}
use kerdoos.Auth.Service.{Principal}
use kerdoos.Egress.Safety.{validate_source_url}
use kerdoos.AppService.{Deployment, permission_error, is_admin, is_known_tier}
use kerdoos.AppService.Batches.{
  ImportError, unknown_tier, Errors, and_errors, is_value_error, bad_url, url_errors, tier_errors,
  key_errors, Batch, Sites, is_own, is_empty, batch_of, ImportSummary, site_errors, batch_allowed,
  listed_errors, source_errors, product_errors, if_clean, write_batch, import_config,
}

both_clean : (a b : Errors) → and_errors a b ≡ returned [] → (a ≡ returned []) × (b ≡ returned [])
both_clean (raised e) b h = absurd cc
both_clean (returned es) (raised e) h = absurd cc
both_clean (returned []) (returned fs) h = (refl, h)
both_clean (returned (e ∷ es)) (returned fs) h = absurd cc

clean_url :
    (key site : String) (o : Outcome Done) → url_errors key site o ≡ returned [] → o ≡ returned tt
clean_url key site (returned u) h = refl
clean_url key site (raised e) h = refused (is_value_error e) h
  where
    refused :
        (b : Bool)
        → (let errors : Errors = if b then returned (bad_url key site e ∷ []) else raised e in
            errors ≡ returned [])
        → ◌≡◌ {A = Outcome Done} (raised e) (returned tt)
    refused true g = absurd cc
    refused false g = absurd cc

clean_tier :
    (key site : String) (o : Outcome Bool)
    → tier_errors key site o ≡ returned []
    → o ≡ returned true
clean_tier key site (raised e) h = absurd cc
clean_tier key site (returned true) h = refl
clean_tier key site (returned false) h = absurd cc

clean_key : (key : String) (o : Option Exc) → key_errors key o ≡ returned [] → o ≡ none
clean_key key none h = refl
clean_key key (some e) h = absurd cc

returned_list : (es fs : List ImportError) → returned es ≡ returned fs → es ≡ fs
returned_list es fs h = cc

module _ (dep : Deployment) where
  abbrev pub KnownSites : Sites → Type 0
  KnownSites sites = All (λ (s : String × SiteConfig). is_known_tier dep s.1 ≡ true) sites

  clean_sites : (sites : Sites) → site_errors dep sites ≡ [] → KnownSites sites
  unfolding site_errors
  clean_sites [] h = tt
  clean_sites ((name, site) ∷ rest) h =
      known_or_not (is_known_tier dep site) refl h (clean_sites rest)
    where
      known_or_not :
          (b : Bool)
          → is_known_tier dep site ≡ b
          → (if b then [] else unknown_tier site.name ∷ []) ++ site_errors dep rest ≡ []
          → (site_errors dep rest ≡ [] → KnownSites rest)
          → (is_known_tier dep site ≡ true) × KnownSites rest
      known_or_not true e g k = (e, k g)
      known_or_not false e g k = absurd cc

  module _ (db : ConfigDb) (sites : Sites) where
    -- A source names a site of the batch whose tier is there, and its url passes.
    abbrev pub AcceptedSource : String × String → Type 0
    AcceptedSource (name, url) =
        (site : SiteConfig) × (get name sites ≡ some site)
        × (dep.tier_available site.fetcher ≡ returned true)
        × (validate_source_url dep.net url (batch_allowed dep db sites) ≡ returned tt)

    abbrev pub AcceptedProduct : String × List (String × String) → Type 0
    AcceptedProduct (key, sources) = (validate_product_key key ≡ none) × All AcceptedSource sources

    listed_clean :
        (key name url : String) (o : Option SiteConfig)
        → get name sites ≡ o
        → listed_errors dep db sites key name url o ≡ returned []
        → AcceptedSource (name, url)
    listed_clean key name url none e h = absurd cc
    listed_clean key name url (some site) e h =
        let (t, u) =
          both_clean (tier_errors key name (dep.tier_available site.fetcher))
            (url_errors key name (validate_source_url dep.net url (batch_allowed dep db sites)))
            h in
        (
          site,
          e,
          clean_tier key name (dep.tier_available site.fetcher) t,
          clean_url key name (validate_source_url dep.net url (batch_allowed dep db sites)) u,
        )

    sources_clean :
        (key : String) (sources : List (String × String))
        → source_errors dep db sites key sources ≡ returned []
        → All AcceptedSource sources
    unfolding source_errors
    sources_clean key [] h = tt
    sources_clean key ((name, url) ∷ rest) h =
        let (a, b) =
          both_clean (listed_errors dep db sites key name url (get name sites))
            (source_errors dep db sites key rest) h in
        (listed_clean key name url (get name sites) refl a, sources_clean key rest b)

    products_clean :
        (products : Batch)
        → product_errors dep db sites products ≡ returned []
        → All AcceptedProduct products
    unfolding product_errors
    products_clean [] h = tt
    products_clean ((key, sources) ∷ rest) h =
        let (a, b) =
          both_clean
            (and_errors (key_errors key (validate_product_key key))
              (source_errors dep db sites key sources))
            (product_errors dep db sites rest) h in
        let (k, s) =
          both_clean (key_errors key (validate_product_key key))
            (source_errors dep db sites key sources) a in
        (
          (clean_key key (validate_product_key key) k, sources_clean key sources s),
          products_clean rest b,
        )

  -- Who may import a batch, and what each of its entries passed.
  abbrev pub IsAccepted : Principal → Option String → Sites → Batch → ConfigDb → Type 0
  IsAccepted principal owner sites products db =
      ((is_empty sites || is_admin principal) ≡ true)
      × ((is_admin principal || is_own principal owner) ≡ true)
      × KnownSites sites
      × All (AcceptedProduct db sites) (batch_of owner products)

  -- An exception, and nothing written.
  abbrev pub Refuses : ConfigDb → ConfigDb × Outcome ImportSummary → Type 0
  Refuses db result = (e : Exc) × (result ≡ (db, raised e))

  clean_by :
      (principal : Principal) (owner : Option String) (sites : Sites) (products : Batch)
      (db : ConfigDb) (o : Errors)
      → and_errors
          (returned (site_errors dep sites))
          (product_errors dep db sites (batch_of owner products))
        ≡ o
      → ((is_empty sites || is_admin principal) ≡ true)
      → ((is_admin principal || is_own principal owner) ≡ true)
      → Refuses db (if_clean dep o (write_batch dep principal owner sites products) db)
        ⊎ (IsAccepted principal owner sites products db
            × (if_clean dep o (write_batch dep principal owner sites products) db
                ≡ write_batch dep principal owner sites products db))
  clean_by principal owner sites products db (raised e) h a b = inl (e, refl)
  clean_by principal owner sites products db (returned (x ∷ xs)) h a b = inl (_, refl)
  clean_by principal owner sites products db (returned []) h a b =
      let (s, p) =
        both_clean (returned (site_errors dep sites))
          (product_errors dep db sites (batch_of owner products)) h in
      inr (
        (
          a,
          b,
          clean_sites sites (returned_list (site_errors dep sites) [] s),
          products_clean db sites (batch_of owner products) p,
        ),
        refl,
      )

  -- An import either raises and writes nothing, or it is accepted and is the write of its entries.
  -- It is accepted only from an admin, or without sites and for the caller's own products; then every
  -- site has a known tier, and every source names a site of the batch, with an available tier and an
  -- url that the policy accepts.
  pub import_config-IsAccepted :
      (principal : Principal) (owner : Option String) (sites : Sites) (products : Batch)
      (db : ConfigDb)
      → Refuses db (import_config dep principal owner sites products db)
        ⊎ (IsAccepted principal owner sites products db
            × (import_config dep principal owner sites products db
                ≡ write_batch dep principal owner sites products db))
  unfolding import_config
  import_config-IsAccepted principal owner sites products db =
      permitted_by (is_empty sites || is_admin principal)
        (is_admin principal || is_own principal owner) refl refl
    where
      permitted_by :
          (a b : Bool)
          → (is_empty sites || is_admin principal) ≡ a
          → (is_admin principal || is_own principal owner) ≡ b
          → (let result : ConfigDb × Outcome ImportSummary =
                if not a
                then (db, raised permission_error)
                else if not b
                then (db, raised permission_error)
                else if_clean dep
                    (and_errors
                      (returned (site_errors dep sites))
                      (product_errors dep db sites (batch_of owner products)))
                    (write_batch dep principal owner sites products)
                    db in
              Refuses db result
              ⊎ (IsAccepted principal owner sites products db
                  × (result ≡ write_batch dep principal owner sites products db)))
      permitted_by false b e f = inl (_, refl)
      permitted_by true false e f = inl (_, refl)
      permitted_by true true e f = clean_by principal owner sites products db _ refl e f
