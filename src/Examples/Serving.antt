-- ===== src/Examples/Serving.antt =====
-- The use-cases of the application service at concrete inputs.
use Prim.{tt}
use kerdoos.Prelude.Int.{negsuc}
use kerdoos.Egress.Texts.{size}
use kerdoos.Settings.{Num, ratio, Cast, Variable, passes, env_number, variables, safe_workers}
use kerdoos.Settings.Valid.{env_number-passes-All}
use kerdoos.Prelude.{leb, ◌*◌, ◌+◌}
use kerdoos.Settings.Budgets.{
  Spans, safe_uc_orphan_sweep_delay, budget_warnings, new_process, warn_once_per_condition,
  warn_if_uc_launch_timeout_at_or_above_acquire_timeout,
}
use kerdoos.Fetching.Tiers.{browser_check, uc_check, camoufox_check}
use kerdoos.Settings.Budgets.Fits.{safe_uc_orphan_sweep_delay-fits}
use kerdoos.Settings.Budgets.Once.{IsLatched, budget_warnings-IsLatched}
use kerdoos.Settings.Budgets.Conditions.{Gives}
use kerdoos.Prelude.{
  ◌+◌, ◌*◌, ◌↔◌, length, String, List, ℕ, none, refl, Option, All, ◌<◌, ◌==◌, if◌then◌else◌, arith,
  ◌≡◌, ◌⊎◌, some, true, [], ◌∷◌, map,
}
use kerdoos.Scrape.Domain.{Exc, Outcome, returned, raised}
use kerdoos.Auth.Service.{Principal}
use kerdoos.ConfigStore.Tables.{ConfigDb}
use kerdoos.AppService.{Deployment}
use kerdoos.AppService.Batches.{Batch, Sites, import_config, write_batch, ImportSummary}
use kerdoos.AppService.Batches.Accepted.{Refuses, IsAccepted, import_config-IsAccepted}
use kerdoos.AppService.Runs.{Ports, RunWorld}
use kerdoos.Examples.Data.{fetch_page, read_priced}
use kerdoos.Examples.Configuring.Shop.{kabum, shop}
use kerdoos.Examples.Guarding.Wire.{net}

abbrev deployment : Deployment
deployment = record {
  net = net;
  known_tiers = "http" ∷ [];
  tier_available = λ tier. returned true;
  digest = λ url. "1";
  known_zone = λ zone. true;
}

abbrev root : Principal
root = record { owner_id = "root"; role = "admin" }

abbrev new_sites : Sites
new_sites = ("kabum", kabum) ∷ []

abbrev new_products : Batch
new_products = ("cpu", ("kabum", "https://kabum.com.br/2") ∷ []) ∷ []

import_config-IsAccepted_example :
    Refuses deployment shop
      (import_config deployment root (some "alice") new_sites new_products shop)
    ⊎ (IsAccepted deployment root (some "alice") new_sites new_products shop
        × (import_config deployment root (some "alice") new_sites new_products shop
            ≡ write_batch deployment root (some "alice") new_sites new_products shop))
import_config-IsAccepted_example =
    import_config-IsAccepted deployment root (some "alice") new_sites new_products shop

-- The store refuses its first call.
abbrev ports : Ports
ports = record {
  tier_available = λ tier. returned true;
  select = λ n site. returned fetch_page;
  parser_factory = λ spec. returned read_priced;
  fault = λ n. some (Exc.other "OperationalError" "locked");
}

abbrev idle : RunWorld
idle = record { scrapes = []; selected = 0; calls = 0 }

-- A text with a sign is -1, and another is no number.
abbrev cast : Cast → String → Option Num
cast c s = if s == "-1" then some (ratio (negsuc 0) 0) else none

abbrev environ : List (String × String)
environ = ("KERDOOS_SMTP_PORT", "-1") ∷ ("KERDOOS_MCP_MAX_SESSIONS", "many") ∷ []

env_number-passes-All_example :
    All (λ (x : Variable). passes x.is_valid (env_number cast environ x) ≡ true) variables
    × ((n : ℕ) × (safe_workers "4" ≡ returned n) × (0 < n))
unfolding size
env_number-passes-All_example = env_number-passes-All cast environ "4" (omega arith)

-- The acquire timeout leaves a tenth of a second after the launch timeout: the clamp does not help.
clamp_in_vain : safe_uc_orphan_sweep_delay 5000 30000 30100 ≡ 200
unfolding safe_uc_orphan_sweep_delay
clamp_in_vain = refl

safe_uc_orphan_sweep_delay-fits_example :
    ((2 * 30000 + safe_uc_orphan_sweep_delay 5000 30000 30100 < 2 * 30100)
      ↔ ((30000 + 5000 < 30100) ⊎ (30000 + 100 < 30100)))
safe_uc_orphan_sweep_delay-fits_example = safe_uc_orphan_sweep_delay-fits 5000 30000 30100

-- Every tier can hold the gate too long.
abbrev spans : Spans
spans = record {
  acquire = 30100;
  uc_launch = 30000;
  uc_sweep_delay = 5000;
  uc_fetch = 50000;
  browser_launch = 20000;
  browser_fetch = 90000;
  camoufox_launch = 20000;
  camoufox_nav = 45000;
  camoufox_fetch = 60000;
}

-- The uc tier and the camoufox tier break both conditions, the browser tier one.
five_warnings : length (budget_warnings spans new_process).logged ≡ 5
unfolding budget_warnings warn_once_per_condition camoufox_check uc_check safe_uc_orphan_sweep_delay
    browser_check warn_if_uc_launch_timeout_at_or_above_acquire_timeout
five_warnings = refl

budget_warnings-IsLatched_example :
    IsLatched (budget_warnings spans new_process)
    × Gives "_uc_launch_timeout_at_or_above_acquire_warned"
        (leb spans.acquire spans.uc_launch)
        new_process
        (budget_warnings spans new_process)
    × Gives "_browser_fetch_timeout_below_launch_warned"
        (leb spans.browser_fetch (spans.browser_launch + 30000))
        new_process
        (budget_warnings spans new_process)
    × Gives "_browser_fetch_timeout_above_acquire_warned"
        (leb spans.acquire spans.browser_fetch)
        new_process
        (budget_warnings spans new_process)
    × Gives "_uc_fetch_timeout_below_navigation_warned"
        (leb spans.uc_fetch 54000)
        new_process
        (budget_warnings spans new_process)
    × Gives "_uc_fetch_timeout_above_acquire_warned"
        (leb (2 * spans.acquire) (
          2 * (spans.uc_fetch + 15000)
          + safe_uc_orphan_sweep_delay spans.uc_sweep_delay spans.uc_launch spans.acquire))
        new_process
        (budget_warnings spans new_process)
    × Gives "_camoufox_fetch_timeout_below_navigation_warned"
        (leb spans.camoufox_fetch (spans.camoufox_launch + spans.camoufox_nav))
        new_process
        (budget_warnings spans new_process)
    × Gives "_camoufox_fetch_timeout_above_acquire_warned"
        (leb spans.acquire (spans.camoufox_fetch + 15000))
        new_process
        (budget_warnings spans new_process)
budget_warnings-IsLatched_example = budget_warnings-IsLatched spans new_process (refl, tt)

abbrev moved_sites : Sites
moved_sites = ("kabum", record kabum { domain = "moved.br" }) ∷ []

abbrev keys_left : ConfigDb × Outcome ImportSummary → List String
keys_left r = map (λ p. p.product_key) r.0.products

-- A batch that moves a site, with a source on its old domain, is refused after the product is written.
partial_import :
    (keys_left (import_config deployment root (some "alice") moved_sites new_products shop)
      ≡ "cpu" ∷ "ssd" ∷ [])
    × ((import_config deployment root (some "alice") moved_sites new_products shop).1
        ≡ raised (Exc.other "ConfigImportPartialError" "domain not in allowlist"))
unfolding import_config
partial_import = (refl, refl)
