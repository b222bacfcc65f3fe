-- ===== src/Examples/Configuring/Shop.antt =====
-- A config store of one site, one product with a source and one job that links it.
use Prim.{tt}
use kerdoos.Prelude.{refl, none, some, true, [], ◌∷◌, some_in}
use kerdoos.Prelude.Dict.{get}
use kerdoos.Registry.{SiteConfig, ProductSource}
use kerdoos.ConfigStore.Tables.{JobRow, ConfigDb}
use kerdoos.ConfigStore.Integrity.{IsSound}

abbrev pub kabum : SiteConfig
kabum = record {
  name = "kabum";
  domain = "kabum.com.br";
  fetcher = "http";
  parser = "nextdata";
  subresource_domains = [];
  tier2_label = none;
}

abbrev ssd_source : ProductSource
ssd_source = record {
  source_id = "ssd:kabum:1";
  product_id = "ssd";
  site = "kabum";
  url = "https://www.kabum.com.br/1";
}

abbrev morning : JobRow
morning = record {
  id = "j";
  owner_id = "alice";
  name = "morning";
  frequency_kind = "daily";
  schedule_cron = "0 8 * * *";
  timezone = "UTC";
  template_id = "default";
  options = record { show_pix = true; show_card = true; variation_threshold_pct = none };
  enabled = true;
  created_at = none;
}

abbrev pub shop : ConfigDb
shop = record {
  sites = ("kabum", kabum) ∷ [];
  products = record { owner_id = "alice"; product_key = "ssd"; name = some "SSD" } ∷ [];
  sources = record { owner_id = "alice"; source = ssd_source } ∷ [];
  jobs = morning ∷ [];
  links = record { owner_id = "alice"; job_id = "j"; source_id = "ssd:kabum:1" } ∷ [];
}

pub shop-IsSound : IsSound shop
unfolding some_in get
shop-IsSound = record {
  sites_unique = (refl, tt);
  products_unique = (refl, tt);
  sources_unique = (refl, tt);
  jobs_unique = (refl, tt);
  links_unique = (refl, tt);
  sources_found = ((refl, refl), tt);
  links_found = ((refl, refl), tt);
}
