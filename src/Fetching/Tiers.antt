-- ===== src/Fetching/Tiers.antt =====
-- packages/autolycos/src/autolycos/tiers.py: the budgets of the tiers that run a browser, and the
-- checks of a deployment's own settings. A span of time is a count of halves of a millisecond.
pub mod Silent
use kerdoos.Prelude.{ℕ, ◌+◌, ◌*◌, Bool, true, false, List, [], ◌∷◌, ◌++◌, leb, if◌then◌else◌}

pub data TermName : Type 0 where
  launch_timeout_seconds nav_timeout_seconds page_load_timeout_seconds : TermName
  reconnect_time render_wait kill_wait_seconds orphan_sweep_delay_seconds late_sweep_seconds :
      TermName

-- One summand of a budget.
pub record BudgetTerm : Type 0 where
  pub name : TermName
  pub seconds : ℕ
  pub count : ℕ

pub record NavigationWarning : Type 0 where
  pub fetch_timeout_seconds : ℕ
  pub floor_seconds : ℕ
  pub terms : List BudgetTerm

pub record GateWarning : Type 0 where
  pub fetch_timeout_seconds : ℕ
  pub acquire_timeout_seconds : ℕ
  pub cleanup_seconds : ℕ
  pub held_seconds : ℕ
  pub cleanup_terms : List BudgetTerm

pub data BudgetWarning : Type 0 where
  navigation : NavigationWarning → BudgetWarning
  gate : GateWarning → BudgetWarning

abbrev pub term : TermName → ℕ → BudgetTerm
term name seconds = record { name = name; seconds = seconds; count = 1 }

-- `sum(term.count * term.seconds for term in terms)`
unfoldable pub total_seconds : List BudgetTerm → ℕ
total_seconds [] = 0
total_seconds (t ∷ ts) = t.count * t.seconds + total_seconds ts

-- `_check`
unfoldable pub check : ℕ → ℕ → List BudgetTerm → List BudgetTerm → List BudgetWarning
unfolding total_seconds
check fetch acquire floor_terms cleanup_terms =
    (if leb fetch (total_seconds floor_terms)
      then navigation (record {
        fetch_timeout_seconds = fetch;
        floor_seconds = total_seconds floor_terms;
        terms = floor_terms;
      })
        ∷ []
      else [])
    ++ (if leb acquire (fetch + total_seconds cleanup_terms)
        then gate (record {
          fetch_timeout_seconds = fetch;
          acquire_timeout_seconds = acquire;
          cleanup_seconds = total_seconds cleanup_terms;
          held_seconds = fetch + total_seconds cleanup_terms;
          cleanup_terms = cleanup_terms;
        })
          ∷ []
        else [])

-- `BrowserBudget.check`, of `nav_timeout_ms` and the arguments: the fetch, launch and acquire timeouts.
unfoldable pub browser_check : ℕ → ℕ → ℕ → ℕ → List BudgetWarning
unfolding check
browser_check nav_timeout_ms fetch launch acquire =
    check fetch acquire
      (term launch_timeout_seconds launch ∷ term nav_timeout_seconds (2 * nav_timeout_ms) ∷ []) []

-- What `UcBudget.check` reads of its budget.
pub record UcBudget : Type 0 where
  pub page_load_timeout_seconds : ℕ
  pub reconnect_time : ℕ
  pub render_wait : ℕ
  pub post_nav_kill_passes : ℕ
  pub kill_wait_seconds : ℕ

-- `UC`
abbrev pub uc : UcBudget
uc = record {
  page_load_timeout_seconds = 90000;
  reconnect_time = 12000;
  render_wait = 6000;
  post_nav_kill_passes = 3;
  kill_wait_seconds = 10000;
}

-- `UcBudget.check`, of the fetch timeout, the delay of the sweep and the acquire timeout.
unfoldable pub uc_check : UcBudget → ℕ → ℕ → ℕ → List BudgetWarning
unfolding check
uc_check b fetch sweep_delay acquire =
    check fetch acquire
      (term page_load_timeout_seconds b.page_load_timeout_seconds
        ∷ term reconnect_time b.reconnect_time
        ∷ term render_wait b.render_wait
        ∷ [])
      (record {
        name = kill_wait_seconds;
        seconds = b.kill_wait_seconds;
        count = b.post_nav_kill_passes;
      }
        ∷ term orphan_sweep_delay_seconds sweep_delay
        ∷ [])

-- `CamoufoxBudget.check`, of `kill_wait_seconds`, `late_sweep_seconds`, and the fetch, launch,
-- navigation and acquire timeouts.
unfoldable pub camoufox_check : ℕ → ℕ → ℕ → ℕ → ℕ → ℕ → List BudgetWarning
unfolding check
camoufox_check kill_wait late_sweep fetch launch nav acquire =
    check fetch acquire (term launch_timeout_seconds launch ∷ term nav_timeout_seconds nav ∷ []) (
      record { name = kill_wait_seconds; seconds = kill_wait; count = 2 }
      ∷ term late_sweep_seconds late_sweep
      ∷ [])
