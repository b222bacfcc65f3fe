-- ===== src/Settings/Budgets/Once.antt =====
-- The latches of get_settings (packages/kerdoos/src/kerdoos/config.py).
use kerdoos.Prelude.{ℕ, ◌≡◌, ap, String, List, [], ◌∷◌, leb, some_in, split_if, arith, ◌==◌}
use kerdoos.Prelude.Rows.{Unique}
use kerdoos.Prelude.{◌+◌, ◌*◌}
use kerdoos.Fetching.Tiers.{BudgetWarning}
use kerdoos.Settings.Budgets.{
  safe_uc_orphan_sweep_delay, Warned, warn_once, Latches, latch_of, warn_once_per_condition,
  warn_if_uc_launch_timeout_at_or_above_acquire_timeout, Spans, budget_warnings, browser_warnings,
  uc_warnings, camoufox_warnings, browser_latches, uc_latches, camoufox_latches,
}
use kerdoos.Settings.Budgets.Conditions.{Gives, spelled_out}

-- What was logged is what is latched, and nothing was logged twice.
abbrev pub IsLatched : Warned → Type 0
IsLatched w = (w.logged ≡ w.latches) × Unique (λ x y. y == x) w.latches

warn_once-IsLatched : (latch : String) (w : Warned) → IsLatched w → IsLatched (warn_once latch w)
unfolding warn_once
warn_once-IsLatched latch w h =
    split_if IsLatched (some_in (λ x. x == latch) w.latches) _ _ (λ e. h)
      (λ e. (ap (λ l. latch ∷ l) h.0, (e, h.1)))

all_conditions-IsLatched :
    (bs : List BudgetWarning) (l : Latches) (w : Warned)
    → IsLatched w
    → IsLatched (warn_once_per_condition bs l w)
unfolding warn_once_per_condition
all_conditions-IsLatched [] l w h = h
all_conditions-IsLatched (b ∷ bs) l w h =
    all_conditions-IsLatched bs l (warn_once (latch_of l b) w)
      (warn_once-IsLatched (latch_of l b) w h)

launch-IsLatched :
    (launch acquire : ℕ) (w : Warned)
    → IsLatched w
    → IsLatched (warn_if_uc_launch_timeout_at_or_above_acquire_timeout launch acquire w)
unfolding warn_if_uc_launch_timeout_at_or_above_acquire_timeout
launch-IsLatched launch acquire w h =
    split_if IsLatched (leb acquire launch) _ _ (λ e. warn_once-IsLatched _ w h) (λ e. h)

-- A get_settings of a process that has logged exactly the warnings that it latched, each once, leaves
-- it so. After it, each of the seven warnings is latched exactly where it was before or its
-- condition holds, of milliseconds; the one on the sweep of the uc tier counts the clamped delay,
-- in halves of one.
pub budget_warnings-IsLatched :
    (s : Spans) (w : Warned)
    → IsLatched w
    → IsLatched (budget_warnings s w)
      × Gives "_uc_launch_timeout_at_or_above_acquire_warned"
          (leb s.acquire s.uc_launch)
          w
          (budget_warnings s w)
      × Gives "_browser_fetch_timeout_below_launch_warned"
          (leb s.browser_fetch (s.browser_launch + 30000))
          w
          (budget_warnings s w)
      × Gives "_browser_fetch_timeout_above_acquire_warned"
          (leb s.acquire s.browser_fetch)
          w
          (budget_warnings s w)
      × Gives "_uc_fetch_timeout_below_navigation_warned"
          (leb s.uc_fetch 54000)
          w
          (budget_warnings s w)
      × Gives "_uc_fetch_timeout_above_acquire_warned"
          (leb (2 * s.acquire) (
            2 * (s.uc_fetch + 15000)
            + safe_uc_orphan_sweep_delay s.uc_sweep_delay s.uc_launch s.acquire))
          w
          (budget_warnings s w)
      × Gives "_camoufox_fetch_timeout_below_navigation_warned"
          (leb s.camoufox_fetch (s.camoufox_launch + s.camoufox_nav))
          w
          (budget_warnings s w)
      × Gives "_camoufox_fetch_timeout_above_acquire_warned"
          (leb s.acquire (s.camoufox_fetch + 15000))
          w
          (budget_warnings s w)
budget_warnings-IsLatched s w h = (
  keeps,
  ground (arith, spelled_out s w "_uc_launch_timeout_at_or_above_acquire_warned"),
  ground (arith, spelled_out s w "_browser_fetch_timeout_below_launch_warned"),
  ground (arith, spelled_out s w "_browser_fetch_timeout_above_acquire_warned"),
  ground (arith, spelled_out s w "_uc_fetch_timeout_below_navigation_warned"),
  ground (arith, spelled_out s w "_uc_fetch_timeout_above_acquire_warned"),
  ground (arith, spelled_out s w "_camoufox_fetch_timeout_below_navigation_warned"),
  ground (arith, spelled_out s w "_camoufox_fetch_timeout_above_acquire_warned"),
)
  where
    keeps : IsLatched (budget_warnings s w)
    keeps =
        unfold budget_warnings in
        all_conditions-IsLatched (camoufox_warnings s) camoufox_latches _ (
          all_conditions-IsLatched (uc_warnings s) uc_latches _ (
            all_conditions-IsLatched (browser_warnings s) browser_latches _
              (launch-IsLatched s.uc_launch s.acquire w h)))
