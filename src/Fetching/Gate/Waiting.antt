-- ===== src/Fetching/Gate/Waiting.antt =====
-- `_acquire_slot` of packages/autolycos/src/autolycos/browser_gate.py: its end, and what it holds then.
use Prim.{absurd}
use mathlib.Core.Path.{subst}
use kerdoos.Prelude.{
  ℕ, zero, suc, ◌+◌, ◌≤◌, ◌<◌, ◌≡◌, refl, ap, ◌∙◌, Bool, true, false, Option, none, some,
  if◌then◌else◌, arith,
}
use kerdoos.Fetching.Gate.{
  Attempt, locks, busy, open_fails, flock_fails, Scan, holds, all_busy, fails, Opened,
  timeout_error, scan, is_late, after_scan, acquire_slot, looked_at,
}

-- A hold keeps one descriptor open, and anything else none.
abbrev pub IsTidy : ℕ → Opened Scan → Type 0
IsTidy fds (n, holds i) = n ≡ suc fds
IsTidy fds (n, all_busy) = n ≡ fds
IsTidy fds (n, fails e) = n ≡ fds

-- The wait is over: a hold keeps one descriptor open, and an exception none.
abbrev pub IsSettled : ℕ → Opened Scan → Type 0
IsSettled fds (n, holds i) = n ≡ suc fds
IsSettled fds (n, all_busy) = ⊥
IsSettled fds (n, fails e) = n ≡ fds

scan-IsTidy : (attempt : ℕ → Attempt) (n i fds : ℕ) → IsTidy fds (scan attempt n i fds)
unfolding scan
scan-IsTidy attempt zero i fds = refl
scan-IsTidy attempt (suc n) i fds = look_by (attempt i) (scan-IsTidy attempt n (suc i) fds)
  where
    look_by :
        (a : Attempt)
        → IsTidy fds (scan attempt n (suc i) fds)
        → IsTidy fds (looked_at a i fds (scan attempt n (suc i) fds))
    look_by locks t = refl
    look_by busy t = t
    look_by (open_fails e) t = refl
    look_by (flock_fails e) t = refl

module _ (slots : ℕ) (attempt : ℕ → ℕ → Attempt) (clock : ℕ → ℕ) (deadline : ℕ) where
  abbrev pub Ends : ℕ → Option (Opened Scan) → Type 0
  Ends fds o = (s : Opened Scan) × (o ≡ some s) × IsSettled fds s

  scanned_by :
      (r fds : ℕ) (s : Opened Scan) (next : Option (Opened Scan))
      → IsTidy fds s
      → (is_late (some deadline) (clock r) ≡ false → Ends fds next)
      → Ends fds (after_scan slots attempt clock (some deadline) r s next)
  scanned_by r fds (n, holds i) next t f = ((n, holds i), refl, t)
  scanned_by r fds (n, fails e) next t f = ((n, fails e), refl, t)
  scanned_by r fds (n, all_busy) next t f = late_by n t (is_late (some deadline) (clock r)) f
    where
      late_by :
          (m : ℕ)
          → m ≡ fds
          → (b : Bool) → (b ≡ false → Ends fds next)
          → Ends fds (if b then some (m, fails timeout_error) else next)
      late_by m e true g = ((m, fails timeout_error), refl, e)
      late_by m e false g = g refl

  rounds :
      (k r fds : ℕ)
      → deadline ≤ clock (r + k)
      → Ends fds (acquire_slot slots attempt clock (some deadline) (suc k) r fds)
  unfolding acquire_slot
  rounds zero r fds h =
      scanned_by r fds (scan (attempt r) slots 0 fds) none (scan-IsTidy (attempt r) slots 0 fds)
        (λ e. absurd (ground (arith, e, h, ap clock {x = r + 0} {y = r})))
  rounds (suc k) r fds h =
      scanned_by r fds (scan (attempt r) slots 0 fds) _ (scan-IsTidy (attempt r) slots 0 fds)
        (λ e. rounds k (suc r) fds (ground (arith, h, ap clock {x = r + suc k} {y = suc r + k})))

-- A walk with a deadline ends: when the clock has reached the deadline after the k-th round, at most
-- k further rounds are made. It ends with a slot that is held, through one open descriptor, or with
-- an exception and no descriptor left open.
pub acquire_slot-ends :
    (slots : ℕ) (attempt : ℕ → ℕ → Attempt) (clock : ℕ → ℕ) (deadline k fds : ℕ)
    → deadline ≤ clock k
    → (s : Opened Scan) × (acquire_slot slots attempt clock (some deadline) (suc k) 0 fds ≡ some s)
      × IsSettled fds s
acquire_slot-ends slots attempt clock deadline k fds h =
    rounds slots attempt clock deadline k 0 fds (ground (arith, h, ap clock {x = 0 + k} {y = k}))

module _ (slots : ℕ) (attempt : ℕ → ℕ → Attempt) (clock : ℕ → ℕ) (deadline : Option ℕ) where
  -- A round that finds every slot busy, before the deadline.
  abbrev pub IsVain : ℕ → ℕ → Type 0
  IsVain fds r =
      ((scan (attempt r) slots 0 fds).1 ≡ all_busy) × (is_late deadline (clock r) ≡ false)

  next_round :
      (r fds : ℕ) (s : Opened Scan) (next : Option (Opened Scan))
      → s.1 ≡ all_busy
      → is_late deadline (clock r) ≡ false
      → after_scan slots attempt clock deadline r s next ≡ next
  next_round r fds (n, holds i) next h e = absurd cc
  next_round r fds (n, fails x) next h e = absurd cc
  next_round r fds (n, all_busy) next h e =
      ap (λ b. if b then some (n, fails timeout_error) else next) e

  held :
      (r fds i : ℕ) (s : Opened Scan) (next : Option (Opened Scan))
      → IsTidy fds s
      → s.1 ≡ holds i
      → after_scan slots attempt clock deadline r s next ≡ some (suc fds, holds i)
  held r fds i (n, holds j) next t h = cc
  held r fds i (n, fails x) next t h = absurd cc
  held r fds i (n, all_busy) next t h = absurd cc

  free_from :
      (k r fds i : ℕ)
      → ((j : ℕ) → j < k → IsVain fds (r + j))
      → (scan (attempt (r + k)) slots 0 fds).1 ≡ holds i
      → acquire_slot slots attempt clock deadline (suc k) r fds ≡ some (suc fds, holds i)
  unfolding acquire_slot
  free_from zero r fds i vain h =
      held r fds i (scan (attempt r) slots 0 fds) _ (scan-IsTidy (attempt r) slots 0 fds)
        (subst (λ m. (scan (attempt m) slots 0 fds).1 ≡ holds i) (omega arith) h)
  free_from (suc k) r fds i vain h =
      let first : IsVain fds r = subst (IsVain fds) (omega arith) (vain 0 (omega arith)) in
      next_round r fds (scan (attempt r) slots 0 fds) _ first.0 first.1
      ∙ free_from k (suc r) fds i
          (λ j l. subst (IsVain fds) (omega arith) (vain (suc j) (omega (arith, l))))
          (subst (λ m. (scan (attempt m) slots 0 fds).1 ≡ holds i) (omega arith) h)

-- Every one of the slots from the i-th on is busy.
abbrev pub AllBusy : (ℕ → Attempt) → ℕ → ℕ → Type 0
AllBusy attempt n i = (j : ℕ) → i ≤ j → j < i + n → attempt j ≡ busy

scan-all_busy :
    (attempt : ℕ → Attempt) (n i fds : ℕ)
    → AllBusy attempt n i
    → scan attempt n i fds ≡ (fds, all_busy)
unfolding scan
scan-all_busy attempt zero i fds h = refl
scan-all_busy attempt (suc n) i fds h =
    ap (λ a. looked_at a i fds (scan attempt n (suc i) fds)) (h i (omega arith) (omega arith))
    ∙ scan-all_busy attempt n (suc i) fds (λ j l m. h j (omega (arith, l)) (omega (arith, m)))

-- The first slot that is not busy is the one that is locked.
scan-locks :
    (attempt : ℕ → Attempt) (k n i fds : ℕ)
    → k < n
    → AllBusy attempt k i
    → attempt (i + k) ≡ locks
    → scan attempt n i fds ≡ (suc fds, holds (i + k))
unfolding scan
scan-locks attempt k zero i fds m h l = absurd (omega (arith, m))
scan-locks attempt zero (suc n) i fds m h l =
    ap (λ a. looked_at a i fds (scan attempt n (suc i) fds))
      (ap attempt {x = i} {y = i + 0} (omega arith) ∙ l)
    ∙ ap (λ q. (suc fds, holds q)) {x = i} {y = i + 0} (omega arith)
scan-locks attempt (suc k) (suc n) i fds m h l =
    ap (λ a. looked_at a i fds (scan attempt n (suc i) fds)) (h i (omega arith) (omega arith))
    ∙ scan-locks attempt k n (suc i) fds (omega (arith, m))
        (λ j a b. h j (omega (arith, a)) (omega (arith, b)))
        (ap attempt {x = suc i + k} {y = i + suc k} (omega arith) ∙ l)
    ∙ ap (λ q. (suc fds, holds q)) {x = suc i + k} {y = i + suc k} (omega arith)

-- A slot that is freed is taken: after k rounds, before the deadline, in which all slots are busy, a
-- round in which the i-th slot is free and those in front of it are busy ends the wait with that
-- slot and one open descriptor.
pub acquire_slot-takes :
    (slots : ℕ) (attempt : ℕ → ℕ → Attempt) (clock : ℕ → ℕ) (deadline : Option ℕ) (k fds i : ℕ)
    → ((r : ℕ) → r < k → AllBusy (attempt r) slots 0)
    → ((r : ℕ) → r < k → is_late deadline (clock r) ≡ false)
    → i < slots
    → AllBusy (attempt k) i 0
    → attempt k i ≡ locks
    → acquire_slot slots attempt clock deadline (suc k) 0 fds ≡ some (suc fds, holds i)
acquire_slot-takes slots attempt clock deadline k fds i vain early l before free =
    free_from slots attempt clock deadline k 0 fds i
      (λ j m.
        subst (IsVain slots attempt clock deadline fds) {x = j} {y = 0 + j} (omega arith)
          (ap (λ s. s.1) (scan-all_busy (attempt j) slots 0 fds (vain j m)), early j m))
      (subst (λ m. (scan (attempt m) slots 0 fds).1 ≡ holds i) {x = k} {y = 0 + k} (omega arith)
        (ap (λ s. s.1)
            (scan-locks (attempt k) i slots 0 fds l before
              (ap (attempt k) {x = 0 + i} {y = i} (omega arith) ∙ free))
          ∙ ap holds {x = 0 + i} {y = i} (omega arith)))
