-- ===== src/AppService/Batches.antt =====
-- `import_config` of packages/kerdoos/src/kerdoos/core/app/services.py: a batch of sites and products
-- is validated whole, and then written entry by entry.
pub mod Accepted
use Prim.{tt}
use kerdoos.Prelude.{
  ℕ, suc, ◌+◌, String, Bool, true, false, not, ◌&&◌, ◌||◌, Option, none, some, List, [], ◌∷◌, ◌++◌,
  map, ◌==◌, some_in, length, if◌then◌else◌,
}
use kerdoos.Prelude.Dict.{get}
use kerdoos.Scrape.Domain.{Exc, fetch_error, parse_error, other, Outcome, returned, raised}
use kerdoos.Registry.{SiteConfig}
use kerdoos.Registry.Jobs.{validate_product_key}
use kerdoos.ConfigStore.Tables.{ConfigDb}
use kerdoos.ConfigStore.Operations.{Done}
use kerdoos.Auth.Service.{Principal}
use kerdoos.Egress.Safety.{domain_allowed, catalogue_allowed, validate_source_url}
use kerdoos.AppService.{
  Deployment, Action, ◌>>=◌, ◌>>◌, lift, require, permission_error, is_admin, is_known_tier,
  add_site, add_product, add_source,
}

-- The messages of `errors`, with the values that they format.
pub data ImportError : Type 0 where
  unknown_tier : String → ImportError
  bad_key : String → Exc → ImportError
  unknown_site unavailable_tier : String → String → ImportError
  bad_url : String → String → Exc → ImportError

abbrev pub Errors : Type 0
Errors = Outcome (List ImportError)

abbrev pub and_errors : Errors → Errors → Errors
and_errors (raised e) more = raised e
and_errors (returned es) (raised e) = raised e
and_errors (returned es) (returned fs) = returned (es ++ fs)

-- `isinstance(exc, ValueError)`, for the exceptions of the two validators.
abbrev pub is_value_error : Exc → Bool
is_value_error (other k m) = (k == "ValueError") || (k == "UrlValidationError")
is_value_error _ = false

abbrev pub url_errors : String → String → Outcome Done → Errors
url_errors key site (returned u) = returned []
url_errors key site (raised e) =
    if is_value_error e then returned (bad_url key site e ∷ []) else raised e

abbrev pub tier_errors : String → String → Outcome Bool → Errors
tier_errors key site (raised e) = raised e
tier_errors key site (returned true) = returned []
tier_errors key site (returned false) = returned (unavailable_tier key site ∷ [])

abbrev pub key_errors : String → Option Exc → Errors
key_errors key none = returned []
key_errors key (some e) = returned (bad_key key e ∷ [])

abbrev pub Batch : Type 0
Batch = List (String × List (String × String))

abbrev pub Sites : Type 0
Sites = List (String × SiteConfig)

-- `if owner:`
abbrev pub has_owner : Option String → Bool
has_owner none = false
has_owner (some owner) = not (owner == "")

-- `owner in (None, principal.owner_id)`
abbrev pub is_own : Principal → Option String → Bool
is_own principal none = true
is_own principal (some owner) = owner == principal.owner_id

abbrev pub is_empty : Sites → Bool
is_empty [] = true
is_empty (s ∷ ss) = false

abbrev pub named_owner : Option String → String
named_owner none = ""
named_owner (some owner) = owner

-- The products that are looked at: none without an owner.
abbrev pub batch_of : Option String → Batch → Batch
batch_of owner products = if has_owner owner then products else []

pub record ImportSummary : Type 0 where
  pub sites : ℕ
  pub products : ℕ

module _ (dep : Deployment) where
  unfoldable pub site_errors : Sites → List ImportError
  unfolding some_in
  site_errors [] = []
  site_errors ((name, site) ∷ rest) =
      (if is_known_tier dep site then [] else unknown_tier site.name ∷ []) ++ site_errors rest

  -- `_CombinedDomainPolicy`: the live policy, or a domain of the batch.
  unfoldable pub batch_allowed : ConfigDb → Sites → String → Bool
  unfolding catalogue_allowed domain_allowed
  batch_allowed db sites host =
      catalogue_allowed dep.net db host || domain_allowed dep.net (map (λ s. s.1.domain) sites) host

  module _ (db : ConfigDb) (sites : Sites) where
    abbrev pub listed_errors : String → String → String → Option SiteConfig → Errors
    listed_errors key name url none = returned (unknown_site key name ∷ [])
    listed_errors key name url (some site) =
        and_errors (tier_errors key name (dep.tier_available site.fetcher))
          (url_errors key name (validate_source_url dep.net url (batch_allowed db sites)))

    unfoldable pub source_errors : String → List (String × String) → Errors
    unfolding get batch_allowed validate_source_url
    source_errors key [] = returned []
    source_errors key ((name, url) ∷ rest) =
        and_errors (listed_errors key name url (get name sites)) (source_errors key rest)

    unfoldable pub product_errors : Batch → Errors
    unfolding source_errors validate_product_key
    product_errors [] = returned []
    product_errors ((key, sources) ∷ rest) =
        and_errors
          (and_errors (key_errors key (validate_product_key key)) (source_errors key sources))
          (product_errors rest)

  unfoldable pub write_sites : Principal → Sites → Action Done
  unfolding ◌>>=◌ add_site
  write_sites principal [] = lift (returned tt)
  write_sites principal ((name, site) ∷ rest) =
      add_site dep principal site >> write_sites principal rest

  unfoldable pub write_sources : String → String → List (String × String) → Action Done
  unfolding ◌>>=◌ add_source
  write_sources owner key [] = lift (returned tt)
  write_sources owner key ((name, url) ∷ rest) =
      add_source dep owner key name url >> write_sources owner key rest

  unfoldable pub write_products : String → Batch → Action Done
  unfolding ◌>>=◌ add_product write_sources
  write_products owner [] = lift (returned tt)
  write_products owner ((key, sources) ∷ rest) =
      add_product dep owner key none >> write_sources owner key sources >> write_products owner rest

  -- `except PermissionError: raise`, and any other exception as ConfigImportPartialError.
  abbrev pub as_partial : Exc → Exc
  as_partial (other k m) =
      if k == "PermissionError" then other k m else other "ConfigImportPartialError" m
  as_partial (fetch_error m) = other "ConfigImportPartialError" m
  as_partial (parse_error m) = other "ConfigImportPartialError" m

  abbrev pub reported : ImportSummary → ConfigDb × Outcome Done → ConfigDb × Outcome ImportSummary
  reported summary (db, returned u) = (db, returned summary)
  reported summary (db, raised e) = (db, raised (as_partial e))

  abbrev pub if_clean : Errors → Action ImportSummary → Action ImportSummary
  if_clean (raised e) write db = (db, raised e)
  if_clean (returned (e ∷ es)) write db = (db, raised (other "ConfigImportError" "batch refused"))
  if_clean (returned []) write db = write db

  abbrev pub write_batch : Principal → Option String → Sites → Batch → Action ImportSummary
  write_batch principal owner sites products db =
      reported (record { sites = length sites; products = length (batch_of owner products) })
        ((write_sites principal sites
            >> write_products (named_owner owner) (batch_of owner products))
          db)

  unfoldable pub import_config : Principal → Option String → Sites → Batch → Action ImportSummary
  unfolding ◌>>=◌ site_errors product_errors write_sites write_products
  import_config principal owner sites products db =
      if not (is_empty sites || is_admin principal)
      then (db, raised permission_error)
      else if not (is_admin principal || is_own principal owner)
      then (db, raised permission_error)
      else if_clean
          (and_errors (returned (site_errors sites))
            (product_errors db sites (batch_of owner products)))
          (write_batch principal owner sites products) db
