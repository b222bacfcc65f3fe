-- ===== src/Registry.antt =====
-- The data of packages/kerdoos/src/kerdoos/registry/ports.py that other parts read: sites, products
-- with their sources, and the walk over them.
pub mod Jobs
use kerdoos.Prelude.{String, Option, none, some, List, [], ◌∷◌, ◌++◌, ◌==◌, if◌then◌else◌}
use kerdoos.Scrape.Domain.{other, Outcome, returned, raised}

-- `SiteConfig`; `parser` names the parser specification.
pub record SiteConfig : Type 0 where
  pub name : String
  pub domain : String
  pub fetcher : String
  pub parser : String
  pub subresource_domains : List String
  pub tier2_label : Option String

pub record ProductSource : Type 0 where
  pub source_id : String
  pub product_id : String
  pub site : String
  pub url : String

pub record Product : Type 0 where
  pub id : String
  pub name : Option String
  pub sources : List ProductSource

-- `sites` is a dict: the first pair of a name is its value.
pub record Registry : Type 0 where
  pub sites : List (String × SiteConfig)
  pub products : List Product

unfoldable pub find_site : String → List (String × SiteConfig) → Option SiteConfig
find_site name [] = none
find_site name ((key, site) ∷ rest) = if key == name then some site else find_site name rest

-- What `iter_sources` yields, without the product, which no caller reads.
pub record Entry : Type 0 where
  pub source : ProductSource
  pub site : SiteConfig

abbrev pub and_rest : Outcome (List Entry) → Entry → Outcome (List Entry)
and_rest (returned es) e = returned (e ∷ es)
and_rest (raised x) e = raised x

abbrev pub entry_or_raise :
    ProductSource → Option SiteConfig → Outcome (List Entry) → Outcome (List Entry)
entry_or_raise source none rest = raised (other "KeyError" source.source_id)
entry_or_raise source (some site) rest = and_rest rest (record { source = source; site = site })

unfoldable pub entries : List (String × SiteConfig) → List ProductSource → Outcome (List Entry)
unfolding find_site
entries sites [] = returned []
entries sites (source ∷ rest) =
    entry_or_raise source (find_site source.site sites) (entries sites rest)

unfoldable pub all_sources : List Product → List ProductSource
all_sources [] = []
all_sources (p ∷ ps) = p.sources ++ all_sources ps

-- `list(registry.iter_sources())`: a dangling site raises KeyError.
unfoldable pub iter_sources : Registry → Outcome (List Entry)
unfolding entries all_sources
iter_sources registry = entries registry.sites (all_sources registry.products)
