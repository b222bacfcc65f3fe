-- ===== src/Evaluator/Warnings.antt =====
-- `_EmptyDigestWarningTracker`: the dict (job_id, window_start) ↦ seen, as an association list.
use kerdoos.Prelude.{
  ℕ, ◌+◌, ◌≤◌, String, ◌≡◌, Bool, true, false, ◌&&◌, List, ◌∷◌, ◌==◌, eq_refl, nat_eq, leb, arith,
  keep, some_in, if◌then◌else◌,
}

pub record Warned : Type 0 where
  pub job_id : String
  pub window_start : ℕ
  pub seen : ℕ

-- `seen >= tick_now - ttl`, written without a negative instant
abbrev is_recent : ℕ → ℕ → Warned → Bool
is_recent ttl tick_now w = leb tick_now (w.seen + ttl)

abbrev is_for : String → ℕ → Warned → Bool
is_for job window w = (w.job_id == job) && nat_eq w.window_start window

unfoldable pub should_warn : ℕ → String → ℕ → ℕ → List Warned → List Warned × Bool
unfolding keep some_in
should_warn ttl job window tick_now warned =
    let recent = keep (is_recent ttl tick_now) warned in
    if some_in (is_for job window) recent
    then (recent, false)
    else (record { job_id = job; window_start = window; seen = tick_now } ∷ recent, true)

-- A warning that was given is not given again until more than the time to live has passed.
pub should_warn_once :
    (ttl : ℕ) (job : String) (window now later : ℕ) (warned : List Warned)
    → (should_warn ttl job window now warned).1 ≡ true
    → later ≤ now + ttl
    → (should_warn ttl job window later (should_warn ttl job window now warned).0).1 ≡ false
unfolding should_warn keep some_in
should_warn_once ttl job window now later warned h l = ground (arith, eq_refl job)
