-- ===== src/AppService/Runs/Records.antt =====
-- The records that run_now of packages/kerdoos/src/kerdoos/core/app/services.py answers with.
use kerdoos.Prelude.{ℕ, ◌≡◌, String, Bool, true, false, not, Option, none, some, List, map}
use kerdoos.Scrape.Domain.{Outcome, returned, raised, ScrapeRecord}
use kerdoos.Registry.{SiteConfig, ProductSource, find_site}
use kerdoos.AppService.Runs.{Ports, Loop, tier_unavailable}

-- Only a tier that is known to be missing is skipped.
abbrev pub is_attempted : Outcome Bool → Bool
is_attempted (returned b) = not b
is_attempted (raised e) = true

module _ (ports : Ports) (owner : String) (now : ℕ) where
  abbrev pub tier_by : Option SiteConfig → Bool
  tier_by none = true
  tier_by (some site) = is_attempted (tier_unavailable ports owner now site)

  abbrev pub has_tier : List (String × SiteConfig) → ProductSource → Bool
  has_tier sites s = tier_by (find_site s.site sites)

  -- A record of the source, if it was attempted.
  abbrev Answers : Bool → String → Option ScrapeRecord → Type 0
  Answers true id none = ⊥
  Answers true id (some r) = r.source_id ≡ id
  Answers false id none = Unit {0}
  Answers false id (some r) = ⊥

  -- The loop ends by itself, with the records of the sources that were attempted.
  abbrev Covers : List String → Loop → Type 0
  Covers wanted l = (l.left_by ≡ none) × (map (λ r. r.source_id) l.records ≡ wanted)
