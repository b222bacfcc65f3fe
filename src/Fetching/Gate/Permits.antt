-- ===== src/Fetching/Gate/Permits.antt =====
-- The permits of BrowserGate (packages/autolycos/src/autolycos/browser_gate.py) under its threads.
use kerdoos.Prelude.{ℕ, suc, ◌+◌, ◌≤◌, ◌≡◌, List, [], ◌∷◌, arith}
use kerdoos.Fetching.Gate.{
  Gate, new_gate, Act, takes_permit, gets_slot, loses_slot, releases, fails_release, act, acts,
}

abbrev pub total : Gate → ℕ
total g = g.permits + g.waiting + g.holding

-- How many releases fail.
unfoldable pub failures : List Act → ℕ
failures [] = 0
failures (takes_permit ∷ more) = failures more
failures (gets_slot ∷ more) = failures more
failures (loses_slot ∷ more) = failures more
failures (releases ∷ more) = failures more
failures (fails_release ∷ more) = suc (failures more)

-- The total never grows, and falls by one at most, when a release fails.
abbrev Keeps : List Act → ℕ → ℕ → Type 0
Keeps more before after = (after ≤ before) × (before ≤ after + failures more)

total-act : (a : Act) (g : Gate) → Keeps (a ∷ []) (total g) (total (act a g))
unfolding act failures
total-act takes_permit g = ground arith
total-act gets_slot g = ground arith
total-act loses_slot g = ground arith
total-act releases g = ground arith
total-act fails_release g = ground arith

failures-cons :
    (a : Act) (more : List Act) → failures (a ∷ more) ≡ failures (a ∷ []) + failures more
unfolding failures
failures-cons takes_permit more = omega arith
failures-cons gets_slot more = omega arith
failures-cons loses_slot more = omega arith
failures-cons releases more = omega arith
failures-cons fails_release more = omega arith

total-acts : (more : List Act) (g : Gate) → Keeps more (total g) (total (acts more g))
total-acts [] g = (omega arith, omega arith)
total-acts (a ∷ rest) g =
    let h = total-act a g in
    let k = total-acts rest (act a g) in
    (omega (arith, h, k), omega (arith, h, k, failures-cons a rest))

-- Whatever the threads do and in whatever order: no more than `max_concurrent` hold at once, a permit
-- that is free, with a thread that waits or with one that holds is never made up, and each that is
-- missing is due to a release that failed. So while no release fails, also when slots raise, none
-- is lost.
pub acts-bounded :
    (max_concurrent : ℕ) (more : List Act)
    → ((acts more (new_gate max_concurrent)).holding ≤ max_concurrent)
      × (total (acts more (new_gate max_concurrent)) ≤ max_concurrent)
      × (max_concurrent ≤ total (acts more (new_gate max_concurrent)) + failures more)
unfolding new_gate
acts-bounded max_concurrent more =
    let t = total-acts more (new_gate max_concurrent) in
    (ground (arith, t), ground (arith, t), ground (arith, t))
