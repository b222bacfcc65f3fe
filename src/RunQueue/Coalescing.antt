-- ===== src/RunQueue/Coalescing.antt =====
-- Per-owner coalescing in core/run_queue.py.
use kerdoos.Prelude.{
  ℕ, suc, ◌+◌, ◌<◌, ◌≡◌, ◌⊎◌, inl, inr, refl, sym, ap, ◌∙◌, String, Bool, true, false, not, ◌&&◌,
  ◌||◌, Option, none, some, List, [], ◌∷◌, ◌++◌, ltb, leb, length, is_some, if◌then◌else◌, arith,
  eq_iff, ◌==◌, All, count_in, eq_refl,
}
use kerdoos.Prelude.Dict.{
  map_values, member, add, discard, occurrences, All-put, member-add, member-discard,
}
pub mod Steps
use Prim.{tt, absurd}
use mathlib.Core.Path.{subst}
use kerdoos.RunQueue.{
  RunState, RunStatus, RunFailure, Consumer, RunQueue, new_queue, check_backlog_warning,
  cooldown_remaining_seconds, enqueue, of_state, of_failure, take_from, release, is_lost, lose,
  discard_lost, supervise, Event, on_consumer, step, run,
}

abbrev pub is_running : RunState → Bool
is_running RunState.running = true
is_running _ = false

-- How many copies of the owner the consumer holds.
abbrev pub held : String → Consumer → ℕ
held o (Consumer.taken p) = if p == o then 1 else 0
held o (Consumer.busy p) = if p == o then 1 else 0
held o _ = 0

abbrev pub is_live : Consumer → Bool
is_live Consumer.ended = false
is_live _ = true

abbrev pub bit : Bool → ℕ
bit true = 1
bit false = 0

-- A RUNNING status is that of the owner whose run is under way.
abbrev pub IsHeld : Consumer → String × RunStatus → Type 0
IsHeld c e = is_running e.1.state ≡ true → c ≡ Consumer.busy e.0

-- Each owner that is queued or running is in the queue or with the consumer, once; no other is.
unfoldable pub IsCoalesced : RunQueue → Type 0
IsCoalesced q =
    (is_live q.consumer ≡ true
      → (o : String)
      → occurrences o q.queue + held o q.consumer ≡ bit (member o q.queued_or_running))
    × All (IsHeld q.consumer) q.status

flag_by :
    (q : RunQueue) (x y z : Bool)
    → (b : Bool) × ((if x
          then q
          else if y
          then record q { backlog_warned = true }
          else if z
          then record q { backlog_warned = false }
          else q)
        ≡ record q { backlog_warned = b })
flag_by q true y z = (q.backlog_warned, refl)
flag_by q false true z = (true, refl)
flag_by q false false true = (false, refl)
flag_by q false false false = (q.backlog_warned, refl)

-- The backlog flag is all that a check of the backlog changes.
pub check_backlog_warning-flag :
    (q : RunQueue) → (b : Bool) × (check_backlog_warning q ≡ record q { backlog_warned = b })
unfolding check_backlog_warning
check_backlog_warning-flag q =
    flag_by q (leb q.backlog_warn_threshold 0)
      (leb q.backlog_warn_threshold (length q.queued_or_running) && not q.backlog_warned)
      (ltb (length q.queued_or_running) q.backlog_warn_threshold && q.backlog_warned)

-- What holds whatever the flag is holds after a check of the backlog.
pub by_flag {ℓ} :
    (P : RunQueue → Type ℓ) (q : RunQueue)
    → ((b : Bool) → P (record q { backlog_warned = b }))
    → P (check_backlog_warning q)
by_flag P q h = let found = check_backlog_warning-flag q in subst P (sym found.1) (h found.0)

pub occurrences-append :
    (o k : String) (xs : List String)
    → occurrences o (xs ++ k ∷ []) ≡ occurrences o xs + bit (k == o)
unfolding count_in
occurrences-append o k [] = ground arith
occurrences-append o k (x ∷ xs) = ground (arith, occurrences-append o k xs)

pub All-mono {ℓ κ} :
    {A : Type ℓ} (P Q : A → Type κ) → ((a : A) → P a → Q a) → (xs : List A) → All P xs → All Q xs
All-mono P Q f [] h = h
All-mono P Q f (x ∷ xs) h = (f x h.0, All-mono P Q f xs h.1)

lose-state :
    (dying : Bool) (t : RunState) (f : Option ℕ) (g : Option RunFailure)
    → is_running (lose dying (record { state = t; finished_at = f; failure = g })).state ≡ false
lose-state dying RunState.running f g = refl
lose-state true RunState.queued f g = refl
lose-state false RunState.queued f g = refl
lose-state dying RunState.done f g = refl
lose-state dying RunState.error f g = refl

-- After the sweep no status is RUNNING.
swept-All :
    (c : Consumer) (dying : Bool) (d : List (String × RunStatus))
    → All (IsHeld c) (map_values (lose dying) d)
unfolding map_values
swept-All c dying [] = tt
swept-All c dying ((o, s) ∷ d) = (
  (λ h.
      let quiet : is_running (lose dying s).state ≡ false =
        lose-state dying s.state s.finished_at s.failure in
      absurd (ground (arith, quiet, h))),
  swept-All c dying d,
)

member-lost :
    (p : String → Bool) (o : String) (t : RunState) (active : List String)
    → ((k : String) → member k active ≡ p k)
    → (is_running t ≡ true → p o ≡ false)
    → (k : String) → member k (if is_lost false t then discard o active else active) ≡ p k
member-lost p o RunState.running active h out k =
    ground (arith, member-discard k o active, eq_iff o k, h k, out refl, ap p {x = o} {y = k})
member-lost p o RunState.queued active h out k = h k
member-lost p o RunState.done active h out k = h k
member-lost p o RunState.error active h out k = h k

-- A RUNNING owner that is no member any more is all that a sweep before a restart can drop.
member-discard_lost :
    (p : String → Bool) (d : List (String × RunStatus)) (active : List String)
    → ((k : String) → member k active ≡ p k)
    → All (λ e. is_running e.1.state ≡ true → p e.0 ≡ false) d
    → (k : String) → member k (discard_lost false d active) ≡ p k
unfolding discard_lost
member-discard_lost p [] active h out k = h k
member-discard_lost p ((o, s) ∷ d) active h out k =
    member-discard_lost p d (if is_lost false s.state then discard o active else active)
      (member-lost p o s.state active h out.0) out.1 k

-- The crash, on whatever is left once the run it ended, if any, has been released.
swept : Bool → RunQueue → RunQueue
swept dying q = check_backlog_warning (record q {
  restarts = suc q.restarts;
  status = map_values (lose dying) q.status;
  queued_or_running = discard_lost dying q.status q.queued_or_running;
})

module _ (q : RunQueue)
    (once : (o : String) → occurrences o q.queue + 0 ≡ bit (member o q.queued_or_running))
    (out : All
      (λ e. is_running e.1.state ≡ true → member e.0 q.queued_or_running ≡ false)
      q.status) where
  ended-IsCoalesced :
      (dying dead : Bool) (reason : Option RunFailure)
      → IsCoalesced
          (record (swept dying q) { dead = dead; dead_reason = reason; consumer = Consumer.ended })
  unfolding IsCoalesced swept
  ended-IsCoalesced dying dead reason =
      by_flag
        (λ a.
          IsCoalesced (record a { dead = dead; dead_reason = reason; consumer = Consumer.ended }))
        (record q {
          restarts = suc q.restarts;
          status = map_values (lose dying) q.status;
          queued_or_running = discard_lost dying q.status q.queued_or_running;
        })
        (λ b.
          ((λ live. λ o. absurd (ground (arith, live))), swept-All Consumer.ended dying q.status))

  down-IsCoalesced : IsCoalesced (record (swept false q) { consumer = Consumer.down })
  unfolding IsCoalesced swept
  down-IsCoalesced =
      by_flag (λ a. IsCoalesced (record a { consumer = Consumer.down }))
        (record q {
          restarts = suc q.restarts;
          status = map_values (lose false) q.status;
          queued_or_running = discard_lost false q.status q.queued_or_running;
        })
        (λ b. (
          (λ live. λ o.
              once o
              ∙ sym (
                  ap bit (
                    member-discard_lost (λ k. member k q.queued_or_running) q.status
                      q.queued_or_running (λ k. refl) out o))),
          swept-All Consumer.down false q.status,
        ))

  crash_by :
      (dying : Bool)
      → IsCoalesced (
          if dying
          then record (swept dying q) {
            dead = true;
            dead_reason = some (RunFailure.budget_exceeded (suc q.restarts));
            consumer = Consumer.ended;
          }
          else record (swept dying q) { consumer = Consumer.down })
  crash_by true = ended-IsCoalesced true true (some (RunFailure.budget_exceeded (suc q.restarts)))
  crash_by false = down-IsCoalesced

  stopped-IsCoalesced :
      (dying : Bool) → IsCoalesced (record (swept dying q) { consumer = Consumer.ended })
  unfolding IsCoalesced swept
  stopped-IsCoalesced dying =
      by_flag (λ a. IsCoalesced (record a { consumer = Consumer.ended }))
        (record q {
          restarts = suc q.restarts;
          status = map_values (lose dying) q.status;
          queued_or_running = discard_lost dying q.status q.queued_or_running;
        })
        (λ b.
          ((λ live. λ o. absurd (ground (arith, live))), swept-All Consumer.ended dying q.status))

  pub supervise-IsCoalesced : (stopped : Bool) → IsCoalesced (supervise stopped q)
  unfolding supervise swept
  supervise-IsCoalesced true = stopped-IsCoalesced (ltb q.max_consumer_restarts (suc q.restarts))
  supervise-IsCoalesced false = crash_by (ltb q.max_consumer_restarts (suc q.restarts))
