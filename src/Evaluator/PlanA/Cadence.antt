-- ===== src/Evaluator/PlanA/Cadence.antt =====
-- The required periods of `_run_plan_a` in core/evaluator.py.
use kerdoos.Prelude.{
  ℕ, ◌≤◌, String, ◌≡◌, refl, ap, ◌∙◌, inl, inr, Bool, true, false, ◌&&◌, Option, none, some, List,
  [], ◌∷◌, ◌++◌, ◌==◌, eq_iff, nat_eq, ltb, arith, if◌then◌else◌, some_in, All, Bool-cases,
}
use kerdoos.Scrape.Domain.{Exc, Outcome, returned, raised}
use kerdoos.Evaluator.World.{Job, Env}
use kerdoos.Evaluator.PlanA.{
  Need, is_need, need, need_sources, add_job, then_jobs, required_periods,
}

-- `required_period.get((owner, source))`
pub needed : String → String → List Need → Option ℕ
needed owner s [] = none
needed owner s (n ∷ ns) = if is_need owner s n then some n.period else needed owner s ns

abbrev lower : Option ℕ → ℕ → Option ℕ
lower none p = some p
lower (some q) p = some (if ltb p q then p else q)

abbrev references : String → String → Job → Bool
references owner s job = (job.owner_id == owner) && some_in (λ t. t == s) job.source_ids

needed-need :
    (owner s o t : String) (p : ℕ) (ns : List Need)
    → needed owner s (need o t p ns)
      ≡ (if (o == owner) && (t == s) then lower (needed owner s ns) p else needed owner s ns)
unfolding needed need
needed-need owner s o t p [] = ground arith
needed-need owner s o t p (n ∷ ns) = ground (
  arith,
  eq_iff n.owner_id o,
  eq_iff n.source_id t,
  eq_iff n.owner_id owner,
  eq_iff n.source_id s,
  eq_iff o owner,
  eq_iff t s,
  needed-need owner s o t p ns,
)

needed-need_sources :
    (owner s o : String) (p : ℕ) (ss : List String) (ns : List Need)
    → needed owner s (need_sources o p ss ns) ≡ (
        if (o == owner) && some_in (λ t. t == s) ss
        then lower (needed owner s ns) p
        else needed owner s ns)
unfolding need_sources some_in
needed-need_sources owner s o p [] ns = ground arith
needed-need_sources owner s o p (t ∷ ss) ns =
    ground (arith, needed-need_sources owner s o p ss (need o t p ns), needed-need owner s o t p ns)

lower_all : Option ℕ → List ℕ → Option ℕ
lower_all x [] = x
lower_all x (p ∷ ps) = lower_all (lower x p) ps

lower_all-lower :
    (x : Option ℕ) (p : ℕ) (ps : List ℕ) → lower_all (lower x p) ps ≡ lower (lower_all x ps) p
unfolding lower_all
lower_all-lower x p [] = refl
lower_all-lower x p (q ∷ ps) =
    let comm : lower (lower x p) q ≡ lower (lower x q) p = ground arith in
    ap (λ z. lower_all z ps) comm ∙ lower_all-lower (lower x q) p ps

-- What it is to be the least of a list; the empty list has none.
abbrev pub IsLeast : Option ℕ → List ℕ → Type 0
IsLeast none ps = ps ≡ []
IsLeast (some q) ps = All (λ p. q ≤ p) ps × (some_in (nat_eq q) ps ≡ true)

All-le-lower : (q r : ℕ) (ps : List ℕ) → r ≤ q → All (λ p. q ≤ p) ps → All (λ p. r ≤ p) ps
All-le-lower q r [] h l = tt
All-le-lower q r (p ∷ ps) h l = (omega arith, All-le-lower q r ps h l.1)

IsLeast-pick :
    (b : Bool) (p q : ℕ) (ps : List ℕ)
    → ltb p q ≡ b
    → IsLeast (some q) ps
    → IsLeast (some (if b then p else q)) (p ∷ ps)
unfolding some_in
IsLeast-pick true p q ps e h = ((omega arith, All-le-lower q p ps (ground arith) h.0), ground arith)
IsLeast-pick false p q ps e h = ((ground arith, h.0), ground arith)

IsLeast-lower : (x : Option ℕ) (p : ℕ) (ps : List ℕ) → IsLeast x ps → IsLeast (lower x p) (p ∷ ps)
unfolding some_in
IsLeast-lower none p ps h = rw h ((omega arith, tt), ground arith)
IsLeast-lower (some q) p ps h = IsLeast-pick (ltb p q) p q ps refl h

lower_all-IsLeast : (ps : List ℕ) → IsLeast (lower_all none ps) ps
unfolding lower_all
lower_all-IsLeast [] = refl
lower_all-IsLeast (p ∷ ps) =
    rw (lower_all-lower none p ps) (IsLeast-lower (lower_all none ps) p ps (lower_all-IsLeast ps))

module _ (env : Env) (now : ℕ) where
  abbrev with_period : Bool → Outcome ℕ → List ℕ → List ℕ
  with_period true (returned p) ps = p ∷ ps
  with_period _ _ ps = ps

  -- The periods of the jobs of an owner that reference a source.
  pub periods_of : String → String → List Job → List ℕ
  periods_of owner s [] = []
  periods_of owner s (job ∷ jobs) =
      with_period (references owner s job) (env.period job.schedule_cron now)
        (periods_of owner s jobs)

  -- One job of the first loop.
  needed-add_job :
      (owner s : String) (job : Job) (o : Outcome ℕ) (needs more : List Need)
      → add_job job o needs ≡ returned more
      → (ps : List ℕ)
      → lower_all (needed owner s more) ps
        ≡ lower_all (needed owner s needs) (with_period (references owner s job) o ps)
  unfolding lower_all
  needed-add_job owner s job (raised e) needs more h ps = cc
  needed-add_job owner s job (returned p) needs more h ps =
      let same : need_sources job.owner_id p job.source_ids needs ≡ more = ground arith in
      rw (← same, needed-need_sources)
        (elim (Bool-cases (references owner s job)) [ inl e ↦ rw e | inr e ↦ rw e ])

  then_jobs-returned :
      (o : Outcome (List Need)) (k : List Need → Outcome (List Need)) (result : List Need)
      → then_jobs o k ≡ returned result
      → (more : List Need) × (o ≡ returned more) × (k more ≡ returned result)
  then_jobs-returned (returned more) k result h = (more, refl, h)
  then_jobs-returned (raised e) k result h = cc

  needed-required_periods :
      (owner s : String) (jobs : List Job) (needs result : List Need)
      → required_periods env now jobs needs ≡ returned result
      → needed owner s result ≡ lower_all (needed owner s needs) (periods_of owner s jobs)
  unfolding required_periods periods_of lower_all
  needed-required_periods owner s [] needs result h = ap (needed owner s) (ground arith)
  needed-required_periods owner s (job ∷ jobs) needs result h =
      let o : Outcome ℕ = env.period job.schedule_cron now in
      let (more, e, f) =
        then_jobs-returned (add_job job o needs) (λ m. required_periods env now jobs m) result h in
      needed-required_periods owner s jobs more result f
      ∙ needed-add_job owner s job o needs more e (periods_of owner s jobs)

  -- Where the computation does not raise: for every owner and source, the period that the tick
  -- requires is the least period of the owner's jobs that reference the source, and no period is
  -- required of a source that none references.
  pub required_periods-IsLeast :
      (owner s : String) (jobs : List Job) (result : List Need)
      → required_periods env now jobs [] ≡ returned result
      → IsLeast (needed owner s result) (periods_of owner s jobs)
  required_periods-IsLeast owner s jobs result h =
      rw (needed-required_periods owner s jobs [] result h)
        (unfold needed in lower_all-IsLeast (periods_of owner s jobs))

  then_jobs_raises :
      (o : Outcome (List Need)) (k : List Need → Outcome (List Need))
      → ((more : List Need) → (x : Exc) × (k more ≡ raised x))
      → (x : Exc) × (then_jobs o k ≡ raised x)
  then_jobs_raises (returned more) k h = h more
  then_jobs_raises (raised e) k h = (e, refl)

  -- One job whose schedule croniter refuses makes the whole computation raise.
  pub required_periods_raises :
      (before after : List Job) (bad : Job) (e : Exc) (needs : List Need)
      → env.period bad.schedule_cron now ≡ raised e
      → (x : Exc) × (required_periods env now (before ++ bad ∷ after) needs ≡ raised x)
  unfolding required_periods
  required_periods_raises [] after bad e needs h = (e, rw h)
  required_periods_raises (job ∷ before) after bad e needs h =
      then_jobs_raises (add_job job (env.period job.schedule_cron now) needs) _
        (λ more. required_periods_raises before after bad e more h)
