-- ===== src/Fetching/Gate.antt =====
-- packages/autolycos/src/autolycos/browser_gate.py: BrowserGate, for the threads of one process and
-- the lock files that processes share. The lock attempts and the clock are given.
pub mod Waiting
pub mod Permits
use kerdoos.Prelude.{
  ℕ, zero, suc, ◌+◌, ◌-◌, ◌<◌, String, Bool, true, false, Option, none, some, List, [], ◌∷◌, ltb,
  leb, if◌then◌else◌,
}
use kerdoos.Scrape.Domain.{Exc, fetch_error}

-- What one look at a lock file does: the lock is taken, or held by someone else (EAGAIN); or
-- `os.open` or `flock` raises.
pub data Attempt : Type 0 where
  locks busy : Attempt
  open_fails flock_fails : Exc → Attempt

-- What a walk over the slots ends with: the slot that is held, no slot, or an exception.
pub data Scan : Type 0 where
  holds : ℕ → Scan
  all_busy : Scan
  fails : Exc → Scan

-- The descriptors that are open, next to a result.
abbrev pub Opened : Type 0 → Type 0
Opened A = ℕ × A

abbrev pub timeout_error : Exc
timeout_error = fetch_error "browser gate: no lock slot freed"

abbrev pub looked_at : Attempt → ℕ → ℕ → Opened Scan → Opened Scan
looked_at locks i fds rest = (suc fds, holds i)
looked_at busy i fds rest = rest
looked_at (open_fails e) i fds rest = (fds, fails e)
looked_at (flock_fails e) i fds rest = (fds, fails e)

-- `for path in self._slot_paths`, for the `n` slots from the i-th on; a slot that is busy is opened
-- and closed again.
unfoldable pub scan : (ℕ → Attempt) → ℕ → ℕ → ℕ → Opened Scan
scan attempt zero i fds = (fds, all_busy)
scan attempt (suc n) i fds = looked_at (attempt i) i fds (scan attempt n (suc i) fds)

-- `deadline is not None and time.monotonic() >= deadline`
abbrev pub is_late : Option ℕ → ℕ → Bool
is_late none now = false
is_late (some deadline) now = leb deadline now

-- `attempt r i` belongs to the r-th round and the i-th slot; `clock r` is read after the r-th round.
module _ (slots : ℕ) (attempt : ℕ → ℕ → Attempt) (clock : ℕ → ℕ) (deadline : Option ℕ) where
  abbrev pub after_scan : ℕ → Opened Scan → Option (Opened Scan) → Option (Opened Scan)
  after_scan r (fds, holds i) next = some (fds, holds i)
  after_scan r (fds, fails e) next = some (fds, fails e)
  after_scan r (fds, all_busy) next =
      if is_late deadline (clock r) then some (fds, fails timeout_error) else next

  -- `_acquire_slot`, from the r-th round on; `none` when the fuel runs out.
  unfoldable pub acquire_slot : ℕ → ℕ → ℕ → Option (Opened Scan)
  unfolding scan
  acquire_slot zero r fds = none
  acquire_slot (suc fuel) r fds =
      after_scan r (scan (attempt r) slots 0 fds) (acquire_slot fuel (suc r) fds)

-- The semaphore of a process, the threads that wait for a slot with a permit, and those that hold.
pub record Gate : Type 0 where
  pub permits : ℕ
  pub waiting : ℕ
  pub holding : ℕ

unfoldable pub new_gate : ℕ → Gate
new_gate max_concurrent = record { permits = max_concurrent; waiting = 0; holding = 0 }

-- What the threads do, in any order: `acquire` takes a permit, and then its slot or, when that
-- raises, gives the permit back; `_release` ends a hold, and gives the permit back unless `flock` or
-- `os.close` raises.
pub data Act : Type 0 where
  takes_permit gets_slot loses_slot releases fails_release : Act

-- An act that is not possible changes nothing: a thread without a permit waits, or gives up.
unfoldable pub act : Act → Gate → Gate
act takes_permit g =
    if ltb 0 g.permits then record g { permits = g.permits - 1; waiting = suc g.waiting } else g
act gets_slot g =
    if ltb 0 g.waiting then record g { waiting = g.waiting - 1; holding = suc g.holding } else g
act loses_slot g =
    if ltb 0 g.waiting then record g { waiting = g.waiting - 1; permits = suc g.permits } else g
act releases g =
    if ltb 0 g.holding then record g { holding = g.holding - 1; permits = suc g.permits } else g
act fails_release g = if ltb 0 g.holding then record g { holding = g.holding - 1 } else g

abbrev pub acts : List Act → Gate → Gate
acts [] g = g
acts (a ∷ rest) g = acts rest (act a g)
