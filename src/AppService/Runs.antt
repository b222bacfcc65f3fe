-- ===== src/AppService/Runs.antt =====
-- `run_now` of packages/kerdoos/src/kerdoos/core/app/services.py, with the tier guard of
-- core/fetcher_guard.py. The fetchers, the parsers and the failures of the state store are given.
pub mod Records
use Prim.Native.String
use kerdoos.Prelude.{
  ℕ, suc, ◌+◌, String, Bool, true, false, not, Option, none, some, List, [], ◌∷◌, map, ◌==◌,
  if◌then◌else◌, get_or,
}
use kerdoos.Prelude.Dict.{put}
use kerdoos.Scrape.Domain.{
  Exc, other, Outcome, returned, raised, ErrorText, ScrapeRecord, Fetcher, Parser,
}
use kerdoos.Scrape.Orchestrator.{scrape_one, indeterminate_record}
use kerdoos.Registry.{SiteConfig, ProductSource, Product, Registry, find_site, all_sources}
use kerdoos.State.Scrapes.{ScrapeRow, record_scrape}

-- `fetcher n` is what `router.select` gives for the n-th scrape; `fault n` is what the n-th call of
-- `store.record` raises, if it does.
pub record Ports : Type 0 where
  pub tier_available : String → Outcome Bool
  pub select : ℕ → SiteConfig → Outcome Fetcher
  pub parser_factory : String → Outcome Parser
  pub fault : ℕ → Option Exc

pub record RunWorld : Type 0 where
  pub scrapes : List ScrapeRow
  pub selected : ℕ
  pub calls : ℕ

pub record RunResult : Type 0 where
  pub records : List ScrapeRecord
  pub generated_at : ℕ
  pub tier2_labels : List (String × String)
  pub source_labels : List (String × String)

abbrev pub add_label : String → Option String → List (String × String) → List (String × String)
add_label id none labels = labels
add_label id (some label) labels = if label == "" then labels else put id label labels

-- `product.name or product.id`
abbrev shown_name : String → Option String → String
shown_name id none = id
shown_name id (some name) = if name == "" then id else name

unfoldable pub labels_of :
    String → List ProductSource → List (String × String) → List (String × String)
unfolding put
labels_of shown [] labels = labels
labels_of shown (s ∷ ss) labels =
    labels_of shown ss (put s.source_id (String.◌++◌ shown (String.◌++◌ " -- " s.site)) labels)

unfoldable pub source_labels : List Product → List (String × String) → List (String × String)
unfolding labels_of
source_labels [] labels = labels
source_labels (p ∷ ps) labels =
    source_labels ps (labels_of (shown_name p.id p.name) p.sources labels)

abbrev negated : Outcome Bool → Outcome Bool
negated (raised e) = raised e
negated (returned b) = returned (not b)

-- What the loop has built, its state, and the exception that left it, if one did.
pub record Loop : Type 0 where
  pub records : List ScrapeRecord
  pub labels : List (String × String)
  pub state : RunWorld
  pub left_by : Option Exc

module _ (ports : Ports) (owner : String) (now : ℕ) where
  -- `tier_unavailable`
  unfoldable pub tier_unavailable : SiteConfig → Outcome Bool
  tier_unavailable site = negated (ports.tier_available site.fetcher)

  abbrev pub stored :
      Option Exc
      → Option (List ScrapeRow)
      → ScrapeRecord
      → RunWorld
      → Outcome ScrapeRecord × RunWorld
  stored (some e) rows r st = (raised e, st)
  stored none none r st = (raised (other "ValueError" "owner must not be empty"), st)
  stored none (some rows) r st = (returned r, record st { scrapes = rows })

  -- `store.record(owner, record)`
  abbrev pub store_record : ScrapeRecord → RunWorld → Outcome ScrapeRecord × RunWorld
  store_record r st =
      stored (ports.fault st.calls) (record_scrape owner r st.scrapes) r
        (record st { calls = suc st.calls })

  abbrev pub scraped :
      String → Outcome Fetcher → Outcome Parser → RunWorld → Outcome ScrapeRecord × RunWorld
  scraped id (raised e) parser st = (raised e, st)
  scraped id (returned fetch) (raised e) st = (raised e, st)
  scraped id (returned fetch) (returned parser) st =
      store_record (scrape_one fetch parser id now) st

  -- `except Exception`
  abbrev pub caught : String → Outcome ScrapeRecord × RunWorld → ScrapeRecord × RunWorld
  caught id (returned r, st) = (r, st)
  caught id (raised e, st) = (indeterminate_record id now none (ErrorText.source_failed e), st)

  abbrev pub and_record : Option ScrapeRecord → List ScrapeRecord → List ScrapeRecord
  and_record none rs = rs
  and_record (some r) rs = r ∷ rs

  abbrev pub guarded :
      String → SiteConfig → Outcome Bool → RunWorld → Option ScrapeRecord × RunWorld
  guarded id site (returned true) st = (none, st)
  guarded id site (raised e) st =
      (some (indeterminate_record id now none (ErrorText.source_failed e)), st)
  guarded id site (returned false) st =
      let (r, st') = caught id (
        scraped id (ports.select st.selected site) (ports.parser_factory site.parser)
          (record st { selected = suc st.selected })) in
      (some r, st')

  -- The body of the loop for one source.
  unfoldable pub run_source : ProductSource → SiteConfig → RunWorld → Option ScrapeRecord × RunWorld
  unfolding tier_unavailable scrape_one indeterminate_record record_scrape
  run_source s site st = guarded s.source_id site (tier_unavailable site) st

  abbrev pub and_loop : Option ScrapeRecord → Loop → Loop
  and_loop r l = record l { records = and_record r l.records }

  abbrev pub visit :
      ProductSource
      → Option SiteConfig
      → List (String × String)
      → RunWorld
      → (List (String × String) → RunWorld → Loop)
      → Loop
  visit s none labels st rest = record {
    records = [];
    labels = labels;
    state = st;
    left_by = some (other "KeyError" s.source_id);
  }
  visit s (some site) labels st rest =
      let (r, st') = run_source s site st in
      and_loop r (rest (add_label s.source_id site.tier2_label labels) st')

  unfoldable pub run_sources :
      List (String × SiteConfig) → List ProductSource → List (String × String) → RunWorld → Loop
  unfolding run_source find_site put
  run_sources sites [] labels st = record {
    records = [];
    labels = labels;
    state = st;
    left_by = none;
  }
  run_sources sites (s ∷ ss) labels st =
      visit s (find_site s.site sites) labels st (run_sources sites ss)

  abbrev pub result_of : Registry → Loop → Option Exc → Outcome RunResult
  result_of registry l (some e) = raised e
  result_of registry l none = returned (record {
    records = l.records;
    generated_at = now;
    tier2_labels = l.labels;
    source_labels = source_labels registry.products [];
  })

  -- `registry` is `self._config.load(owner)`.
  unfoldable pub run_now : Registry → RunWorld → Outcome RunResult × RunWorld
  unfolding run_sources all_sources source_labels
  run_now registry st =
      let l = run_sources registry.sites (all_sources registry.products) [] st in
      (result_of registry l l.left_by, l.state)
