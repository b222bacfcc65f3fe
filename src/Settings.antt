-- ===== src/Settings.antt =====
-- packages/kerdoos/src/kerdoos/config.py: the numbers that get_settings reads from the environment.
-- `int` and `float` of a text are parameters; the defaults of the tiers are those of
-- packages/autolycos/src/autolycos/adapters.
pub mod Valid
pub mod Budgets
use kerdoos.Prelude.{
  ℕ, suc, ◌*◌, String, Bool, true, false, not, ◌&&◌, ◌||◌, Option, none, some, List, [], ◌∷◌, ◌++◌,
  ltb, leb, nat_eq, if◌then◌else◌, ◌==◌,
}
use kerdoos.Prelude.Int.{ℤ, pos, negsuc}
use kerdoos.Prelude.Dict.{get}
use kerdoos.Scrape.Domain.{other, Outcome, returned, raised}
use kerdoos.Egress.Texts.{size, all_chars, is_ascii_digit, value_from}

-- An int or a float, without loss: `ratio z d` is z / (d + 1).
pub data Num : Type 0 where
  ratio : ℤ → ℕ → Num
  nan infinity minus_infinity : Num

abbrev pub whole : ℕ → Num
whole n = ratio (pos n) 0

-- `v > 0`
abbrev pub is_above_zero : Num → Bool
is_above_zero (ratio (pos i) d) = ltb 0 i
is_above_zero (ratio (negsuc i) d) = false
is_above_zero infinity = true
is_above_zero nan = false
is_above_zero minus_infinity = false

-- `v >= k`
abbrev pub is_at_least : ℕ → Num → Bool
is_at_least k (ratio (pos i) d) = leb (k * suc d) i
is_at_least k (ratio (negsuc i) d) = false
is_at_least k infinity = true
is_at_least k nan = false
is_at_least k minus_infinity = false

-- `v <= k`
abbrev pub is_at_most : ℕ → Num → Bool
is_at_most k (ratio (pos i) d) = leb i (k * suc d)
is_at_most k (ratio (negsuc i) d) = true
is_at_most k infinity = false
is_at_most k nan = false
is_at_most k minus_infinity = true

-- `v < float("inf")`
abbrev pub is_below_infinity : Num → Bool
is_below_infinity (ratio z d) = true
is_below_infinity infinity = false
is_below_infinity nan = false
is_below_infinity minus_infinity = true

-- The `is_valid` of a variable.
pub data Check : Type 0 where
  anything positive positive_finite : Check
  at_least port_up_to natural_up_to : ℕ → Check

abbrev pub passes : Check → Num → Bool
passes anything v = true
passes positive v = is_above_zero v
passes positive_finite v = is_above_zero v && is_below_infinity v
passes (at_least k) v = is_at_least k v
passes (port_up_to k) v = is_above_zero v && is_at_most k v
passes (natural_up_to k) v = is_at_least 0 v && is_at_most k v

pub data Cast : Type 0 where
  as_int as_float : Cast

-- One call of `_env_number`.
pub record Variable : Type 0 where
  pub name : String
  pub default : Num
  pub cast : Cast
  pub is_valid : Check

-- `cast` answers `none` for a ValueError.
module _ (cast : Cast → String → Option Num) where
  abbrev pub or_default : Num → Check → Option Num → Num
  or_default default check none = default
  or_default default check (some v) = if not (passes check v) then default else v

  abbrev pub from_raw : Variable → Option String → Num
  from_raw x none = x.default
  from_raw x (some raw) = or_default x.default x.is_valid (cast x.cast raw)

  unfoldable pub env_number : List (String × String) → Variable → Num
  unfolding get
  env_number environ x = from_raw x (get x.name environ)

abbrev float_var : String → ℕ → Check → Variable
float_var name default check = record {
  name = name;
  default = whole default;
  cast = as_float;
  is_valid = check;
}

abbrev int_var : String → ℕ → Check → Variable
int_var name default check = record {
  name = name;
  default = whole default;
  cast = as_int;
  is_valid = check;
}

-- The variables of get_settings, in its order.
abbrev launch_variables : List Variable
launch_variables =
    float_var "KERDOOS_UC_LAUNCH_TIMEOUT_SECONDS" 30 positive
    ∷ float_var "KERDOOS_BROWSER_LAUNCH_TIMEOUT_SECONDS" 20 positive
    ∷ float_var "KERDOOS_BROWSER_ACQUIRE_TIMEOUT_SECONDS" 120 positive
    ∷ float_var "KERDOOS_BROWSER_FETCH_TIMEOUT_SECONDS" 90 positive
    ∷ int_var "KERDOOS_BROWSER_MAX_ABANDONED_FETCHES" 5 positive
    ∷ []

abbrev uc_variables : List Variable
uc_variables =
    float_var "KERDOOS_UC_ORPHAN_SWEEP_DELAY_SECONDS" 5 positive
    ∷ float_var "KERDOOS_UC_FETCH_TIMEOUT_SECONDS" 90 positive
    ∷ []

abbrev camoufox_variables : List Variable
camoufox_variables =
    float_var "KERDOOS_CAMOUFOX_LAUNCH_TIMEOUT_SECONDS" 20 positive
    ∷ float_var "KERDOOS_CAMOUFOX_NAV_TIMEOUT_SECONDS" 45 positive
    ∷ float_var "KERDOOS_CAMOUFOX_FETCH_TIMEOUT_SECONDS" 90 positive
    ∷ []

abbrev smtp_variables : List Variable
smtp_variables =
    int_var "KERDOOS_SMTP_PORT" 587 (port_up_to 65535)
    ∷ float_var "KERDOOS_SMTP_TIMEOUT_SECONDS" 30 anything
    ∷ int_var "KERDOOS_SMTP_RETRY_ATTEMPTS" 2 (natural_up_to 5)
    ∷ float_var "KERDOOS_SMTP_RETRY_BACKOFF_SECONDS" 2 (at_least 1)
    ∷ []

abbrev run_variables : List Variable
run_variables =
    int_var "KERDOOS_DIGEST_REAPER_TIMEOUT_SECONDS" 300 positive
    ∷ int_var "KERDOOS_BROWSER_MAX_CONCURRENT" 1 positive
    ∷ int_var "KERDOOS_RUN_QUEUE_MAX_RESTARTS" 5 (at_least 0)
    ∷ int_var "KERDOOS_RUN_QUEUE_BACKLOG_WARN_THRESHOLD" 5 (at_least 0)
    ∷ float_var "KERDOOS_RUN_NOW_COOLDOWN_SECONDS" 300 (at_least 0)
    ∷ []

abbrev login_variables : List Variable
login_variables =
    float_var "KERDOOS_LOGIN_RATE_LIMIT_WINDOW_SECONDS" 900 positive
    ∷ int_var "KERDOOS_LOGIN_RATE_LIMIT_MAX_ATTEMPTS" 5 (at_least 0)
    ∷ int_var "KERDOOS_LOGIN_RATE_LIMIT_ROW_CAP" 100000 positive
    ∷ []

abbrev session_variables : List Variable
session_variables =
    int_var "KERDOOS_CAMOUFOX_MAX_ABANDONED_FETCHES" 5 positive
    ∷ int_var "KERDOOS_MCP_MAX_SESSIONS" 32 positive
    ∷ float_var "KERDOOS_MCP_SESSION_IDLE_TIMEOUT_SECONDS" 300 positive_finite
    ∷ []

abbrev pub variables : List Variable
variables =
    launch_variables ++ uc_variables ++ camoufox_variables ++ smtp_variables ++ run_variables
    ++ login_variables ++ session_variables

-- `_safe_workers`; `int` refuses more than 4300 digits.
unfoldable pub safe_workers : String → Outcome ℕ
unfolding all_chars size value_from
safe_workers raw =
    if (raw == "") || not (all_chars is_ascii_digit raw)
    then returned 1
    else if ltb 4300 (size raw)
    then raised (other "ValueError" raw)
    else let n = value_from 0 raw in if nat_eq n 0 then returned 1 else returned n
