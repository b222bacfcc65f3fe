-- ===== src/Registry/Jobs/Options.antt =====
-- The options of a digest job through `parse_job_options` and `dump_job_options`.
use Prim.{tt, absurd}
use kerdoos.Prelude.{
  ℕ, ◌≡◌, ◌≢◌, ◌≤◌, ap, refl, String, Bool, true, false, Option, none, some, List, if◌then◌else◌,
  arith, some_in,
}
use kerdoos.Prelude.Int.{pos, negsuc}
use kerdoos.Prelude.Dict.{get, member}
use kerdoos.Scrape.Domain.{Outcome, returned, raised}
use kerdoos.Registry.Jobs.{
  Value, JobOptions, parse_job_options, dump_job_options, dump_threshold, threshold_option,
  bool_option, options_of, has_unknown, value_error,
}

-- A threshold, if there is one, is at most a hundred percent.
abbrev pub IsPercentage : Option ℕ → Type 0
IsPercentage none = Unit
IsPercentage (some t) = t ≤ 100000

dumped : (t : Option ℕ) → IsPercentage t → threshold_option (some (dump_threshold t)) ≡ returned t
dumped none h = refl
dumped (some t) h = ground (arith, h)

parse-dump_job_options :
    (o : JobOptions)
    → IsPercentage o.variation_threshold_pct
    → parse_job_options (dump_job_options o) ≡ returned o
unfolding parse_job_options dump_job_options has_unknown get member some_in
parse-dump_job_options o h = rw (dumped o.variation_threshold_pct h) refl

threshold-IsPercentage :
    (v : Option Value) (t : Option ℕ) → threshold_option v ≡ returned t → IsPercentage t
threshold-IsPercentage v none h = tt
threshold-IsPercentage none (some t) h = absurd (ground (arith, h))
threshold-IsPercentage (some (Value.flag b)) (some t) h = absurd (ground (arith, h))
threshold-IsPercentage (some (Value.int (pos i))) (some t) h = ground (arith, h)
threshold-IsPercentage (some (Value.int (negsuc i))) (some t) h = absurd (ground (arith, h))
threshold-IsPercentage (some (Value.float (pos i))) (some t) h = ground (arith, h)
threshold-IsPercentage (some (Value.float (negsuc i))) (some t) h = absurd (ground (arith, h))
threshold-IsPercentage (some (Value.text s)) (some t) h = absurd (ground (arith, h))
threshold-IsPercentage (some Value.nan) (some t) h = absurd (ground (arith, h))
threshold-IsPercentage (some Value.null) (some t) h = absurd (ground (arith, h))
threshold-IsPercentage (some Value.compound) (some t) h = absurd (ground (arith, h))

options_of-threshold :
    (p c : Outcome Bool) (t : Outcome (Option ℕ)) (o : JobOptions)
    → options_of p c t ≡ returned o
    → t ≡ returned o.variation_threshold_pct
options_of-threshold (raised e) c t o h = absurd (ground (arith, h))
options_of-threshold (returned p) (raised e) t o h = absurd (ground (arith, h))
options_of-threshold (returned p) (returned c) (raised e) o h = absurd (ground (arith, h))
options_of-threshold (returned p) (returned c) (returned t) o h =
    ap (λ x. elim x [ returned y ↦ returned y.variation_threshold_pct | raised e ↦ raised e ]) h

parsed_by :
    (b : Bool) (p c : Outcome Bool) (v : Option Value) (o : JobOptions) (e : Outcome JobOptions)
    → ((x : JobOptions) → e ≢ returned x)
    → (if b then e else options_of p c (threshold_option v)) ≡ returned o
    → IsPercentage o.variation_threshold_pct
parsed_by true p c v o e refused h = absurd (refused o h)
parsed_by false p c v o e refused h =
    threshold-IsPercentage v o.variation_threshold_pct
      (options_of-threshold p c (threshold_option v) o h)

-- Options that are accepted are read back as they were from what is written to the database.
pub parse_job_options-stable :
    (raw : List (String × Value)) (o : JobOptions)
    → parse_job_options raw ≡ returned o
    → parse_job_options (dump_job_options o) ≡ returned o
unfolding parse_job_options
parse_job_options-stable raw o h = parse-dump_job_options o (
    parsed_by (has_unknown raw) (bool_option "show_pix" (get "show_pix" raw))
      (bool_option "show_card" (get "show_card" raw)) (get "variation_threshold_pct" raw) o
      (raised (value_error "unknown job option keys")) (λ x p. absurd (ground (arith, p))) h)
