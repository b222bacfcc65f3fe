-- ===== src/Evaluator/World.antt =====
-- The state of an evaluation, its effects as a state-and-exception monad, and what the evaluator is
-- given from outside: croniter, the state store's failures, the router, the sender.
pub mod Keeps
use kerdoos.Prelude.{
  ℕ, suc, ◌+◌, String, Bool, true, false, Option, none, some, List, [], ◌∷◌, if◌then◌else◌,
}
use kerdoos.Scrape.Domain.{Exc, Outcome, returned, raised, ScrapeRecord, Fetcher, Parser}
use kerdoos.Registry.{SiteConfig}
use kerdoos.State.JobRuns.{JobRun}
use kerdoos.State.Scrapes.{ScrapeRow}
use kerdoos.Evaluator.Executor.{SendExecutor}
use kerdoos.Evaluator.Warnings.{Warned}

-- `DigestJob`, the fields that the evaluator reads.
pub record Job : Type 0 where
  pub id : String
  pub owner_id : String
  pub schedule_cron : String
  pub timezone : String
  pub source_ids : List String

-- What became of a submitted send: it answered, it (or the submission) raised, or the deadline
-- passed; a timeout carries what `cf_future.cancel()` says.
pub data Reply : Type 0 where
  answered : Bool → Reply
  failed : Exc → Reply
  timed_out : Bool → Reply

-- One call of `sender.send`, with the window of the job run that it belongs to.
pub record Sent : Type 0 where
  pub job_id : String
  pub window_start : ℕ
  pub records : List ScrapeRecord
  pub tier2_labels : List (String × String)

-- `EvaluationSummary`
pub record Summary : Type 0 where
  pub scraped_sources : ℕ
  pub notified_jobs : ℕ
  pub skipped_jobs : ℕ
  pub errors : ℕ

abbrev pub no_summary : Summary
no_summary = record { scraped_sources = 0; notified_jobs = 0; skipped_jobs = 0; errors = 0 }

-- The environment. `fault n` is what the n-th call of the state store raises, if it does; such a
-- call is rolled back. `reply n` belongs to the n-th send. `is_done n f` is asked at the n-th
-- look at the executor. `fetcher n` is the fetcher that `router.select` gives for the n-th scrape.
pub record Env : Type 0 where
  pub window : String → String → ℕ → Outcome ℕ
  pub period : String → ℕ → Outcome ℕ
  pub fault : ℕ → Option Exc
  pub reply : ℕ → Reply
  pub is_done : ℕ → ℕ → Bool
  pub tier_available : String → Outcome Bool
  pub select : ℕ → SiteConfig → Outcome Fetcher
  pub parser_factory : String → Outcome Parser
  pub warning_ttl : ℕ

-- `sends` are the calls of the sender, the last one first; the counters index the environment.
pub record World : Type 0 where
  pub job_runs : List JobRun
  pub scrapes : List ScrapeRow
  pub summary : Summary
  pub executor : SendExecutor
  pub warned : List Warned
  pub sends : List Sent
  pub calls : ℕ
  pub submitted : ℕ
  pub looks : ℕ
  pub selected : ℕ

abbrev pub Exec : Type 0 → Type 0
Exec A = World → Outcome A × World

unfoldable pub pure : {A : Type 0} → A → Exec A
pure a w = (returned a, w)

unfoldable pub lift : {A : Type 0} → Outcome A → Exec A
lift o w = (o, w)

abbrev pub continue : {A B : Type 0} → Outcome A → (A → Exec B) → Exec B
continue (returned a) f w = f a w
continue (raised e) f w = (raised e, w)

infixl 5 ◌>>=◌ ◌>>◌
unfoldable pub ◌>>=◌ : {A B : Type 0} → Exec A → (A → Exec B) → Exec B
◌>>=◌ m f w = let (o, w') = m w in continue o f w'

abbrev pub ◌>>◌ : {A B : Type 0} → Exec A → Exec B → Exec B
m >> k = m >>= λ _. k

abbrev handled : {A : Type 0} → Outcome A → (Exc → Exec A) → Exec A
handled (returned a) h w = (returned a, w)
handled (raised e) h w = h e w

-- try: m, except Exception as exc: h exc
unfoldable pub catch : {A : Type 0} → Exec A → (Exc → Exec A) → Exec A
catch m h w = let (o, w') = m w in handled o h w'

abbrev pub Done : Type 0
Done = Unit {0}

-- A change of the state that cannot fail.
unfoldable pub modify : (World → World) → Exec Done
modify f w = (returned tt, f w)

unfoldable pub gets : {A : Type 0} → (World → A) → Exec A
gets f w = (returned (f w), w)

abbrev pub counted : World → World
counted w = record w { calls = suc w.calls }

-- One call of the state store: it raises and changes nothing, or runs its transaction.
abbrev run_call : {A : Type 0} → Option Exc → (World → A × World) → Exec A
run_call (some e) f w = (raised e, counted w)
run_call none f w = let (a, w') = f (counted w) in (returned a, w')

unfoldable pub store_call : {A : Type 0} → Env → (World → A × World) → Exec A
store_call env f w = run_call (env.fault w.calls) f w

abbrev pub add_scraped : World → World
add_scraped w = record w {
  summary = record w.summary { scraped_sources = w.summary.scraped_sources + 1 };
}

abbrev pub add_notified : World → World
add_notified w = record w {
  summary = record w.summary { notified_jobs = w.summary.notified_jobs + 1 };
}

abbrev pub add_skipped : World → World
add_skipped w = record w {
  summary = record w.summary { skipped_jobs = w.summary.skipped_jobs + 1 };
}

abbrev pub add_error : World → World
add_error w = record w { summary = record w.summary { errors = w.summary.errors + 1 } }

-- `for x in xs: body(x)`: an exception leaves the loop.
unfoldable pub for_each : {A : Type 0} → (A → Exec Done) → List A → Exec Done
for_each body [] = pure tt
for_each body (x ∷ xs) = body x >> for_each body xs
