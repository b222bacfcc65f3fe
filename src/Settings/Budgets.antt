-- ===== src/Settings/Budgets.antt =====
-- packages/kerdoos/src/kerdoos/config.py: the order of the deadlines. get_settings clamps the delay of
-- the sweep, and warns of what the checks of the tiers report. The settings of a deployment are
-- finite counts of milliseconds here; half a span is a count of halves of one.
pub mod Fits
pub mod Conditions
pub mod Once
use kerdoos.Prelude.{
  ℕ, ◌+◌, ◌*◌, ◌-◌, String, Bool, true, false, List, [], ◌∷◌, ltb, leb, some_in, ◌==◌,
  if◌then◌else◌,
}
use kerdoos.Fetching.Tiers.{
  BudgetWarning, navigation, gate, browser_check, uc_check, camoufox_check, uc,
}

-- `_safe_uc_orphan_sweep_delay`, in halves of a millisecond.
unfoldable pub safe_uc_orphan_sweep_delay : ℕ → ℕ → ℕ → ℕ
safe_uc_orphan_sweep_delay sweep_delay uc_launch_timeout acquire_timeout =
    if ltb (uc_launch_timeout + sweep_delay) acquire_timeout
    then 2 * sweep_delay
    else if ltb 200 (acquire_timeout - uc_launch_timeout)
    then acquire_timeout - uc_launch_timeout
    else 200

-- The latches that are set, and the latched warnings that were logged, the newest first.
pub record Warned : Type 0 where
  pub latches : List String
  pub logged : List String

unfoldable pub warn_once : String → Warned → Warned
unfolding some_in
warn_once latch w =
    if some_in (λ x. x == latch) w.latches
    then w
    else record { latches = latch ∷ w.latches; logged = latch ∷ w.logged }

-- The latches of a tier, one for each condition.
pub record Latches : Type 0 where
  pub on_navigation : String
  pub on_gate : String

abbrev pub latch_of : Latches → BudgetWarning → String
latch_of l (navigation w) = l.on_navigation
latch_of l (gate w) = l.on_gate

unfoldable pub warn_once_per_condition : List BudgetWarning → Latches → Warned → Warned
unfolding warn_once
warn_once_per_condition [] l w = w
warn_once_per_condition (b ∷ bs) l w = warn_once_per_condition bs l (warn_once (latch_of l b) w)

unfoldable pub warn_if_uc_launch_timeout_at_or_above_acquire_timeout : ℕ → ℕ → Warned → Warned
unfolding warn_once
warn_if_uc_launch_timeout_at_or_above_acquire_timeout launch acquire w =
    if leb acquire launch then warn_once "_uc_launch_timeout_at_or_above_acquire_warned" w else w

-- The spans that get_settings reads, in milliseconds.
pub record Spans : Type 0 where
  pub acquire : ℕ
  pub uc_launch : ℕ
  pub uc_sweep_delay : ℕ
  pub uc_fetch : ℕ
  pub browser_launch : ℕ
  pub browser_fetch : ℕ
  pub camoufox_launch : ℕ
  pub camoufox_nav : ℕ
  pub camoufox_fetch : ℕ

abbrev pub browser_latches : Latches
browser_latches = record {
  on_navigation = "_browser_fetch_timeout_below_launch_warned";
  on_gate = "_browser_fetch_timeout_above_acquire_warned";
}

abbrev pub uc_latches : Latches
uc_latches = record {
  on_navigation = "_uc_fetch_timeout_below_navigation_warned";
  on_gate = "_uc_fetch_timeout_above_acquire_warned";
}

abbrev pub camoufox_latches : Latches
camoufox_latches = record {
  on_navigation = "_camoufox_fetch_timeout_below_navigation_warned";
  on_gate = "_camoufox_fetch_timeout_above_acquire_warned";
}

abbrev pub browser_warnings : Spans → List BudgetWarning
browser_warnings s =
    browser_check 30000 (2 * s.browser_fetch) (2 * s.browser_launch) (2 * s.acquire)

-- The delay is the clamped one.
abbrev pub uc_warnings : Spans → List BudgetWarning
uc_warnings s =
    uc_check uc (2 * s.uc_fetch) (safe_uc_orphan_sweep_delay s.uc_sweep_delay s.uc_launch s.acquire)
      (2 * s.acquire)

abbrev pub camoufox_warnings : Spans → List BudgetWarning
camoufox_warnings s =
    camoufox_check 10000 10000 (2 * s.camoufox_fetch) (2 * s.camoufox_launch) (2 * s.camoufox_nav)
      (2 * s.acquire)

-- The latched warnings of one get_settings.
unfoldable pub budget_warnings : Spans → Warned → Warned
budget_warnings s w =
    let launched = warn_if_uc_launch_timeout_at_or_above_acquire_timeout s.uc_launch s.acquire w in
    let browser = warn_once_per_condition (browser_warnings s) browser_latches launched in
    let swept = warn_once_per_condition (uc_warnings s) uc_latches browser in
    warn_once_per_condition (camoufox_warnings s) camoufox_latches swept

abbrev pub new_process : Warned
new_process = record { latches = []; logged = [] }
