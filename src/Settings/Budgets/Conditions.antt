-- ===== src/Settings/Budgets/Conditions.antt =====
-- Which warnings of get_settings (packages/kerdoos/src/kerdoos/config.py) are latched, and on what
-- conditions.
use kerdoos.Prelude.{ℕ, ◌≡◌, ap, String, List, [], ◌∷◌, leb, some_in, split_if, arith, ◌==◌}
use kerdoos.Prelude.{Bool, false, ◌&&◌, ◌||◌, ◌+◌, ◌*◌, eq_iff, refl, ◌∙◌}
use kerdoos.Fetching.Tiers.{
  BudgetWarning, BudgetTerm, check, total_seconds, browser_check, uc_check, camoufox_check, term,
  launch_timeout_seconds, nav_timeout_seconds, page_load_timeout_seconds, reconnect_time,
  render_wait, kill_wait_seconds, orphan_sweep_delay_seconds, late_sweep_seconds,
}
use kerdoos.Settings.Budgets.{
  safe_uc_orphan_sweep_delay, Warned, warn_once, Latches, latch_of, warn_once_per_condition,
  warn_if_uc_launch_timeout_at_or_above_acquire_timeout, Spans, budget_warnings, browser_warnings,
  uc_warnings, camoufox_warnings, browser_latches, uc_latches, camoufox_latches,
}

abbrev pub is_latched : String → Warned → Bool
is_latched k w = some_in (λ x. x == k) w.latches

is_latched-warn_once :
    (k latch : String) (w : Warned)
    → is_latched k (warn_once latch w) ≡ ((latch == k) || is_latched k w)
unfolding warn_once some_in
is_latched-warn_once k latch w =
    split_if (λ x. is_latched k x ≡ ((latch == k) || is_latched k w)) (is_latched latch w) _ _
      (λ e. ground (arith, e, eq_iff latch k, ap (λ z. is_latched z w) {x = latch} {y = k}))
      (λ e. refl)

any_condition : String → Latches → List BudgetWarning → Bool
any_condition k l [] = false
any_condition k l (b ∷ bs) = (latch_of l b == k) || any_condition k l bs

is_latched-all :
    (k : String) (bs : List BudgetWarning) (l : Latches) (w : Warned)
    → is_latched k (warn_once_per_condition bs l w) ≡ (any_condition k l bs || is_latched k w)
unfolding warn_once_per_condition any_condition
is_latched-all k [] l w = refl
is_latched-all k (b ∷ bs) l w = ground (
  arith,
  is_latched-all k bs l (warn_once (latch_of l b) w),
  is_latched-warn_once k (latch_of l b) w,
)

is_latched-launch :
    (k : String) (launch acquire : ℕ) (w : Warned)
    → is_latched k (warn_if_uc_launch_timeout_at_or_above_acquire_timeout launch acquire w) ≡ (
        (leb acquire launch && ("_uc_launch_timeout_at_or_above_acquire_warned" == k))
        || is_latched k w)
unfolding warn_if_uc_launch_timeout_at_or_above_acquire_timeout
is_latched-launch k launch acquire w =
    split_if
      (λ x. is_latched k x ≡ (
        (leb acquire launch && ("_uc_launch_timeout_at_or_above_acquire_warned" == k))
        || is_latched k w))
      (leb acquire launch) _ _
      (λ e.
        is_latched-warn_once k "_uc_launch_timeout_at_or_above_acquire_warned" w
        ∙ ground (arith, e))
      (λ e. ground (arith, e))

any_condition-check :
    (k : String) (l : Latches) (fetch acquire : ℕ) (floor cleanup : List BudgetTerm)
    → any_condition k l (check fetch acquire floor cleanup) ≡ (
        (leb fetch (total_seconds floor) && (l.on_navigation == k))
        || (leb acquire (fetch + total_seconds cleanup) && (l.on_gate == k)))
unfolding check any_condition
any_condition-check k l fetch acquire floor cleanup = ground arith

sums :
    (k : String) (l : Latches) (fetch acquire : ℕ) {a b c d : ℕ}
    → a ≡ b
    → c ≡ d
    → ((leb fetch a && (l.on_navigation == k)) || (leb acquire c && (l.on_gate == k)))
      ≡ ((leb fetch b && (l.on_navigation == k)) || (leb acquire d && (l.on_gate == k)))
sums k l fetch acquire {a} {b} {c} {d} p q =
    ap (λ n. (leb fetch n && (l.on_navigation == k)) || (leb acquire c && (l.on_gate == k))) p
    ∙ ap (λ n. (leb fetch b && (l.on_navigation == k)) || (leb acquire n && (l.on_gate == k))) q

-- A warning is latched after a call where its condition holds, or where it was before.
abbrev pub Gives : String → Bool → Warned → Warned → Type 0
Gives k condition before after = is_latched k after ≡ (condition || is_latched k before)

module _ (s : Spans) (w : Warned) where
  is_latched-budget_warnings :
      (k : String)
      → is_latched k (budget_warnings s w) ≡ (
          any_condition k camoufox_latches (camoufox_warnings s)
          || any_condition k uc_latches (uc_warnings s)
          || any_condition k browser_latches (browser_warnings s)
          || (leb s.acquire s.uc_launch && ("_uc_launch_timeout_at_or_above_acquire_warned" == k))
          || is_latched k w)
  unfolding budget_warnings
  is_latched-budget_warnings k =
      let launched =
        warn_if_uc_launch_timeout_at_or_above_acquire_timeout s.uc_launch s.acquire w in
      let browser = warn_once_per_condition (browser_warnings s) browser_latches launched in
      let swept = warn_once_per_condition (uc_warnings s) uc_latches browser in
      ground (
        arith,
        is_latched-all k (camoufox_warnings s) camoufox_latches swept,
        is_latched-all k (uc_warnings s) uc_latches browser,
        is_latched-all k (browser_warnings s) browser_latches launched,
        is_latched-launch k s.uc_launch s.acquire w,
      )

  -- The conditions of the three tiers, with their sums written out, in halves of a millisecond.
  any_browser :
      (k : String)
      → any_condition k browser_latches (browser_warnings s) ≡ (
          (leb (2 * s.browser_fetch) (2 * s.browser_launch + 60000)
            && (browser_latches.on_navigation == k))
          || (leb (2 * s.acquire) (2 * s.browser_fetch) && (browser_latches.on_gate == k)))
  unfolding browser_check total_seconds
  any_browser k =
      any_condition-check k browser_latches (2 * s.browser_fetch) (2 * s.acquire)
        (term launch_timeout_seconds (2 * s.browser_launch)
          ∷ term nav_timeout_seconds (2 * 30000)
          ∷ [])
        []
      ∙ sums k browser_latches (2 * s.browser_fetch) (2 * s.acquire) (omega arith) (omega arith)

  any_uc :
      (k : String)
      → any_condition k uc_latches (uc_warnings s) ≡ (
          (leb (2 * s.uc_fetch) 108000 && (uc_latches.on_navigation == k))
          || (leb (2 * s.acquire) (
                2 * s.uc_fetch
                + 30000
                + safe_uc_orphan_sweep_delay s.uc_sweep_delay s.uc_launch s.acquire)
              && (uc_latches.on_gate == k)))
  unfolding uc_check total_seconds
  any_uc k =
      any_condition-check k uc_latches (2 * s.uc_fetch) (2 * s.acquire)
        (term page_load_timeout_seconds 90000
          ∷ term reconnect_time 12000
          ∷ term render_wait 6000
          ∷ [])
        (record { name = kill_wait_seconds; seconds = 10000; count = 3 }
          ∷ term orphan_sweep_delay_seconds
              (safe_uc_orphan_sweep_delay s.uc_sweep_delay s.uc_launch s.acquire)
          ∷ [])
      ∙ sums k uc_latches (2 * s.uc_fetch) (2 * s.acquire) (omega arith) (omega arith)

  any_camoufox :
      (k : String)
      → any_condition k camoufox_latches (camoufox_warnings s) ≡ (
          (leb (2 * s.camoufox_fetch) (2 * s.camoufox_launch + 2 * s.camoufox_nav)
            && (camoufox_latches.on_navigation == k))
          || (leb (2 * s.acquire) (2 * s.camoufox_fetch + 30000)
              && (camoufox_latches.on_gate == k)))
  unfolding camoufox_check total_seconds
  any_camoufox k =
      any_condition-check k camoufox_latches (2 * s.camoufox_fetch) (2 * s.acquire)
        (term launch_timeout_seconds (2 * s.camoufox_launch)
          ∷ term nav_timeout_seconds (2 * s.camoufox_nav)
          ∷ [])
        (record { name = kill_wait_seconds; seconds = 10000; count = 2 }
          ∷ term late_sweep_seconds 10000
          ∷ [])
      ∙ sums k camoufox_latches (2 * s.camoufox_fetch) (2 * s.acquire) (omega arith) (omega arith)

  pub spelled_out :
      (k : String)
      → is_latched k (budget_warnings s w) ≡ (
          ((leb (2 * s.camoufox_fetch) (2 * s.camoufox_launch + 2 * s.camoufox_nav)
              && (camoufox_latches.on_navigation == k))
            || (leb (2 * s.acquire) (2 * s.camoufox_fetch + 30000)
                && (camoufox_latches.on_gate == k)))
          || ((leb (2 * s.uc_fetch) 108000 && (uc_latches.on_navigation == k))
              || (leb (2 * s.acquire) (
                    2 * s.uc_fetch
                    + 30000
                    + safe_uc_orphan_sweep_delay s.uc_sweep_delay s.uc_launch s.acquire)
                  && (uc_latches.on_gate == k)))
          || ((leb (2 * s.browser_fetch) (2 * s.browser_launch + 60000)
                && (browser_latches.on_navigation == k))
              || (leb (2 * s.acquire) (2 * s.browser_fetch) && (browser_latches.on_gate == k)))
          || (leb s.acquire s.uc_launch && ("_uc_launch_timeout_at_or_above_acquire_warned" == k))
          || is_latched k w)
  spelled_out k = is_latched-budget_warnings k ∙ rw (any_camoufox k, any_uc k, any_browser k)
