-- ===== src/Fetching/Browser/Ceiling.antt =====
-- The count of abandoned fetches (packages/autolycos/src/autolycos/adapters/browser.py).
use Prim.{tt, absurd}
use kerdoos.Prelude.{
  ℕ, ◌+◌, ◌≡◌, refl, ap, ◌∙◌, String, Bool, true, false, not, ◌&&◌, Option, none, some, List, [],
  ◌∷◌, leb, if◌then◌else◌, ◌==◌, arith, All, count_in, split_if, is_some,
}
use kerdoos.Fetching.Browser.{
  Claimant, runner, caller, Fetch, Tier, is_caller, Event, starts, caller_claims, thread_claims,
  counts, finishes, Change, stays, down, applied, claim, count_abandoned, finish, on_fetch, changed,
  step, steps, new_tier,
}

-- A thread that was counted as abandoned and has not ended.
abbrev pub is_left : Fetch → Bool
is_left f = f.counted && not f.finished

-- A fetch that has an outcome was claimed by its thread, and one that was counted by its caller, who
-- then is done with counting.
abbrev pub IsFair : Fetch → Type 0
IsFair f =
    (f.has_outcome ≡ true → f.claimed ≡ some runner)
    × (f.counted ≡ true → f.claimed ≡ some caller)
    × (f.counted ≡ true → f.released ≡ true)

-- The count is the number of the threads that are left.
abbrev pub IsCounted : Tier → Type 0
IsCounted t = (t.abandoned ≡ count_in is_left t.fetches) × All IsFair t.fetches

-- What a change of one fetch does to the number of threads that are left.
abbrev Fits : Fetch → Fetch × Change → Type 0
Fits f (g, c) =
    IsFair g
    × ((n : ℕ) → applied c ((if is_left f then 1 else 0) + n) ≡ (if is_left g then 1 else 0) + n)

unchanged : (f : Fetch) → IsFair f → Fits f (f, stays)
unchanged f h = (h, λ n. refl)

claim-Fits :
    (who : Claimant) (o : Bool) (f : Fetch)
    → (o ≡ true → who ≡ runner)
    → IsFair f
    → Fits f (claim who o f)
claim-Fits who o f w h =
    split_if (Fits f) (is_some f.claimed) _ _ (λ e. unchanged f h)
      (λ e. (((λ k. ap some (w k)), (λ k. absurd (unclaimed f.claimed e (h.1 k))), h.2), λ n. refl))
  where
    unclaimed : (o : Option Claimant) → is_some o ≡ false → o ≡ some caller → ⊥
    unclaimed none p q = cc
    unclaimed (some c) p q = cc

count-Fits : (f : Fetch) → IsFair f → Fits f (count_abandoned f)
count-Fits f h =
    split_if (Fits f) (is_caller f.claimed && not f.released) _ _
      (λ e.
        split_if (Fits f) f.finished _ _ (λ k. ((h.0, h.1, λ _. refl), λ n. refl))
          (λ k. (
            ((λ o. h.0 o), (λ _. by_caller f.claimed (ground (arith, e))), λ _. refl),
            λ n. ground (arith, k, e, uncounted f.counted f.released h.2 (ground (arith, e))),
          )))
      (λ e. unchanged f h)
  where
    by_caller : (o : Option Claimant) → is_caller o ≡ true → o ≡ some caller
    by_caller none p = absurd cc
    by_caller (some runner) p = absurd cc
    by_caller (some caller) p = refl

    uncounted : (c r : Bool) → (c ≡ true → r ≡ true) → r ≡ false → c ≡ false
    uncounted true r p q = absurd (cc (p refl))
    uncounted false r p q = refl

finish-Fits : (f : Fetch) → IsFair f → Fits f (finish f)
finish-Fits f h =
    split_if (Fits f) (is_some f.claimed && not f.finished) _ _
      (λ e. (h, λ n. by_count f.counted f.finished n (ground (arith, e)))) (λ e. unchanged f h)
  where
    by_count :
        (c f : Bool) (n : ℕ)
        → f ≡ false
        → applied (if c then down else stays) ((if c && not f then 1 else 0) + n)
          ≡ (if c && not true then 1 else 0) + n
    by_count true true n e = absurd cc
    by_count true false n e = omega arith
    by_count false f n e = refl

module _ (g : Fetch → Fetch × Change) (fits : (f : Fetch) → IsFair f → Fits f (g f)) where
  on_fetch-IsCounted :
      (marker : String) (fs : List Fetch)
      → All IsFair fs
      → All IsFair (on_fetch g marker fs).0
        × ((n : ℕ)
            → applied (on_fetch g marker fs).1 (count_in is_left fs + n)
              ≡ count_in is_left (on_fetch g marker fs).0 + n)
  unfolding on_fetch count_in
  on_fetch-IsCounted marker [] h = (tt, λ n. refl)
  on_fetch-IsCounted marker (f ∷ fs) h =
      let ih = on_fetch-IsCounted marker fs h.1 in
      let here = fits f h.0 in
      split_if
        (λ (r : List Fetch × Change).
          All IsFair r.0
          × ((n : ℕ) → applied r.1 (count_in is_left (f ∷ fs) + n) ≡ count_in is_left r.0 + n))
        (f.marker == marker) _ _
        (λ e. (
          (here.0, h.1),
          λ n. ap (applied (g f).1) (omega arith) ∙ here.1 (count_in is_left fs + n) ∙ omega arith,
        ))
        (λ e. (
          (h.0, ih.0),
          λ n.
              ap (applied (on_fetch g marker fs).1) (omega arith)
              ∙ ih.1 ((if is_left f then 1 else 0) + n)
              ∙ omega arith,
        ))

  changed-IsCounted :
      (marker : String) (t : Tier)
      → IsCounted t
      → IsCounted (changed t.abandoned (on_fetch g marker t.fetches))
  changed-IsCounted marker t h =
      let k = on_fetch-IsCounted marker t.fetches h.1 in
      (
        ap (applied (on_fetch g marker t.fetches).1) {x = t.abandoned}
              {y = count_in is_left t.fetches + 0} (omega (arith, h.0))
            ∙ k.1 0
            ∙ omega arith,
        k.0,
      )

step-IsCounted : (m : ℕ) (e : Event) (t : Tier) → IsCounted t → IsCounted (step m e t)
unfolding step count_in
step-IsCounted m (starts marker) t h =
    split_if IsCounted (leb m t.abandoned) _ _ (λ _. h)
      (λ _. (h.0 ∙ omega arith, (((λ k. absurd cc), (λ k. absurd cc), λ k. absurd cc), h.1)))
step-IsCounted m (caller_claims marker) t h =
    changed-IsCounted (claim caller false) (λ f. claim-Fits caller false f (λ k. absurd cc)) marker
      t h
step-IsCounted m (thread_claims marker) t h =
    changed-IsCounted (claim runner true) (λ f. claim-Fits runner true f (λ k. refl)) marker t h
step-IsCounted m (counts marker) t h = changed-IsCounted count_abandoned count-Fits marker t h
step-IsCounted m (finishes marker) t h = changed-IsCounted finish finish-Fits marker t h

-- Whatever happens to the fetches of a tier, in any order: the count that the ceiling is compared
-- with is the number of threads that were abandoned and still run. A fetch has an outcome only where
-- its thread claimed it, and was counted only where its caller did.
pub steps-IsCounted : (m : ℕ) (es : List Event) → IsCounted (steps m es new_tier)
unfolding count_in
steps-IsCounted m es = keeps es new_tier (refl, tt)
  where
    keeps : (ds : List Event) (t : Tier) → IsCounted t → IsCounted (steps m ds t)
    keeps [] t h = h
    keeps (d ∷ ds) t h = keeps ds (step m d t) (step-IsCounted m d t h)
