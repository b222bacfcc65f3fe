-- ===== src/RunQueue/Coalescing/Steps.antt =====
-- Per-owner coalescing in core/run_queue.py, event by event.
use Prim.{tt, absurd}
use mathlib.Core.Path.{subst}
use kerdoos.Prelude.{
  ℕ, ◌+◌, ◌≡◌, ◌≢◌, refl, ap, ◌∙◌, String, Bool, true, false, none, some, List, [], ◌∷◌, ◌++◌,
  is_some, if◌then◌else◌, arith, eq_iff, ◌==◌, All, some_in, count_in,
}
use kerdoos.Prelude.Dict.{
  put, member, add, discard, occurrences, All-put, member-add, member-discard,
}
use kerdoos.RunQueue.{
  RunState, RunStatus, RunFailure, Consumer, RunQueue, new_queue, check_backlog_warning,
  cooldown_remaining_seconds, enqueue, of_state, of_failure, take_from, release, supervise, Event,
  on_consumer, step, run,
}
use kerdoos.RunQueue.Coalescing.{
  IsCoalesced, IsHeld, is_running, is_live, held, bit, by_flag, occurrences-append, All-mono,
  supervise-IsCoalesced,
}

-- A status that is not RUNNING is that of anyone.
put-quiet :
    (c : Consumer) (o : String) (s : RunStatus) (d : List (String × RunStatus))
    → is_running s.state ≡ false
    → All (IsHeld c) d
    → All (IsHeld c) (put o s d)
put-quiet c o s d quiet h =
    All-put (IsHeld c) (IsHeld c) o s (λ r. absurd (ground (arith, quiet, r))) (λ j w e p. p) d h

-- No status is RUNNING but at the consumer's own place.
moved :
    (c e : Consumer)
    → ((o : String) → c ≡ Consumer.busy o → e ≡ Consumer.busy o)
    → (d : List (String × RunStatus)) → All (IsHeld c) d
    → All (IsHeld e) d
moved c e f d h = All-mono (IsHeld c) (IsHeld e) (λ a p r. f a.0 (p r)) d h

admitted-IsCoalesced :
    (q : RunQueue) (k : String)
    → member k q.queued_or_running ≡ false
    → IsCoalesced q
    → (b : Bool)
    → IsCoalesced (record q {
      queued_or_running = add k q.queued_or_running;
      status = put k (of_state RunState.queued) q.status;
      queue = q.queue ++ k ∷ [];
      backlog_warned = b;
    })
unfolding IsCoalesced
admitted-IsCoalesced q k new h b = (
  (λ live. λ o. ground (
    arith,
    eq_iff k o,
    occurrences-append o k q.queue,
    member-add o k q.queued_or_running,
    h.0 live o,
    new,
    ap (λ i. member i q.queued_or_running) {x = k} {y = o},
  )),
  put-quiet q.consumer k (of_state RunState.queued) q.status refl h.1,
)

enqueue_by :
    (k : String) (q : RunQueue) (dead held_back present : Bool)
    → member k q.queued_or_running ≡ present
    → IsCoalesced q
    → (let result : RunQueue × Bool =
          if dead
          then (record q { status = put k (of_failure q.dead_reason) q.status }, false)
          else if held_back
          then (q, false)
          else if present
          then (q, false)
          else let admitted : RunQueue = check_backlog_warning (record q {
            queued_or_running = add k q.queued_or_running;
            status = put k (of_state RunState.queued) q.status;
          }) in
            (record admitted { queue = admitted.queue ++ k ∷ [] }, true) in
        IsCoalesced result.0)
unfolding IsCoalesced
enqueue_by k q true x y e h =
    (h.0, put-quiet q.consumer k (of_failure q.dead_reason) q.status refl h.1)
enqueue_by k q false true y e h = h
enqueue_by k q false false true e h = h
enqueue_by k q false false false e h =
    by_flag (λ a. IsCoalesced (record a { queue = a.queue ++ k ∷ [] }))
      (record q {
        queued_or_running = add k q.queued_or_running;
        status = put k (of_state RunState.queued) q.status;
      })
      (λ b. admitted-IsCoalesced q k e h b)

pub enqueue-IsCoalesced :
    (now : ℕ) (k : String) (q : RunQueue) → IsCoalesced q → IsCoalesced (enqueue now k q).0
unfolding enqueue
enqueue-IsCoalesced now k q h =
    enqueue_by k q q.dead (is_some (cooldown_remaining_seconds now k q))
      (member k q.queued_or_running) refl h

IsHeld-at : (q : RunQueue) (c : Consumer) → q.consumer ≡ c → IsCoalesced q → All (IsHeld c) q.status
unfolding IsCoalesced
IsHeld-at q c e h = subst (λ d. All (IsHeld d) q.status) e h.1

once_there :
    (q : RunQueue) (c : Consumer)
    → q.consumer ≡ c
    → IsCoalesced q
    → is_live c ≡ true
    → (o : String) → occurrences o q.queue + held o c ≡ bit (member o q.queued_or_running)
unfolding IsCoalesced
once_there q c e h live o =
    subst
      (λ d.
        is_live d ≡ true → occurrences o q.queue + held o d ≡ bit (member o q.queued_or_running))
      e (λ l. h.0 l o) live

-- When a run is over, its owner is neither queued nor with the consumer.
over :
    (q : RunQueue) (o : String)
    → q.consumer ≡ Consumer.busy o
    → IsCoalesced q
    → (k : String) → occurrences k q.queue + 0 ≡ bit (member k (discard o q.queued_or_running))
over q o e h k = ground (
  arith,
  eq_iff o k,
  member-discard k o q.queued_or_running,
  once_there q (Consumer.busy o) e h refl k,
)

-- The end of a run, whatever its status.
release-IsCoalesced :
    (o : String) (s : RunStatus) (q : RunQueue) (marks : List (String × ℕ)) (count : ℕ)
    → is_running s.state ≡ false
    → q.consumer ≡ Consumer.busy o
    → IsCoalesced q
    → IsCoalesced (
        release o
          (record q { status = put o s q.status; done_monotonic = marks; restarts = count }))
unfolding IsCoalesced
release-IsCoalesced o s q marks count quiet e h =
    by_flag IsCoalesced
      (record q {
        status = put o s q.status;
        done_monotonic = marks;
        restarts = count;
        queued_or_running = discard o q.queued_or_running;
        consumer = Consumer.waiting;
      })
      (λ b. (
        (λ live. over q o e h),
        All-put (IsHeld (Consumer.busy o)) (IsHeld Consumer.waiting) o s
            (λ r. absurd (ground (arith, quiet, r)))
            (λ j w apart p r. absurd (ground (arith, apart, eq_iff j o, p r))) q.status
            (IsHeld-at q (Consumer.busy o) e h),
      ))

occurrences-cons :
    (o k : String) (xs : List String) → occurrences o (k ∷ xs) ≡ bit (k == o) + occurrences o xs
unfolding count_in
occurrences-cons o k xs = ground arith

taken-IsCoalesced :
    (xs : List String) (q : RunQueue)
    → q.queue ≡ xs
    → q.consumer ≡ Consumer.waiting
    → IsCoalesced q
    → IsCoalesced (take_from xs q)
unfolding IsCoalesced
taken-IsCoalesced [] q e w h = h
taken-IsCoalesced (k ∷ xs) q e w h = (
  (λ live. λ o. ground (
    arith,
    ap (occurrences o) e,
    once_there q Consumer.waiting w h refl o,
    occurrences-cons o k xs,
  )),
  moved Consumer.waiting (Consumer.taken k) (λ o p. absurd (ground (arith, p))) q.status
      (IsHeld-at q Consumer.waiting w h),
)

crashed-IsCoalesced :
    (stopped : Bool) (o : String) (q : RunQueue)
    → q.consumer ≡ Consumer.busy o
    → IsCoalesced q
    → IsCoalesced (supervise stopped (release o q))
crashed-IsCoalesced stopped o q e h =
    by_flag (λ a. IsCoalesced (supervise stopped a))
      (record q { queued_or_running = discard o q.queued_or_running; consumer = Consumer.waiting })
      (λ b.
        supervise-IsCoalesced
          (record q {
            queued_or_running = discard o q.queued_or_running;
            consumer = Consumer.waiting;
            backlog_warned = b;
          })
          (over q o e h)
          (All-mono (IsHeld (Consumer.busy o))
            (λ a. is_running a.1.state ≡ true → member a.0 (discard o q.queued_or_running) ≡ false)
            (λ a p r. ground (arith, p r, member-discard a.0 o q.queued_or_running, eq_iff o a.0))
            q.status (IsHeld-at q (Consumer.busy o) e h))
          stopped)

waiting-IsCoalesced :
    (stopped : Bool) (q : RunQueue)
    → q.consumer ≡ Consumer.waiting
    → IsCoalesced q
    → IsCoalesced (supervise stopped q)
waiting-IsCoalesced stopped q e h =
    supervise-IsCoalesced q (once_there q Consumer.waiting e h refl)
      (All-mono (IsHeld Consumer.waiting)
        (λ a. is_running a.1.state ≡ true → member a.0 q.queued_or_running ≡ false)
        (λ a p r. absurd (ground (arith, p r))) q.status (IsHeld-at q Consumer.waiting e h))
      stopped

started-IsCoalesced :
    (o : String) (q : RunQueue)
    → q.consumer ≡ Consumer.taken o
    → IsCoalesced q
    → IsCoalesced (record q {
      status = put o (of_state RunState.running) q.status;
      consumer = Consumer.busy o;
    })
unfolding IsCoalesced
started-IsCoalesced o q e h = (
  (λ live. once_there q (Consumer.taken o) e h refl),
  All-put (IsHeld (Consumer.taken o)) (IsHeld (Consumer.busy o)) o (of_state RunState.running)
      (λ r. refl) (λ j w apart p r. absurd (ground (arith, p r))) q.status
      (IsHeld-at q (Consumer.taken o) e h),
)

-- From one idle place to another.
idle-IsCoalesced :
    (c d : Consumer) (q : RunQueue)
    → ((o : String) → c ≢ Consumer.busy o)
    → (is_live d ≡ true → is_live c ≡ true)
    → ((o : String) → held o d ≡ held o c)
    → q.consumer ≡ c
    → IsCoalesced q
    → IsCoalesced (record q { consumer = d })
unfolding IsCoalesced
idle-IsCoalesced c d q idle live same e h = (
  (λ l. λ o. ap (λ n. occurrences o q.queue + n) (same o) ∙ once_there q c e h (live l) o),
  moved c d (λ o p. absurd (idle o p)) q.status (IsHeld-at q c e h),
)

on_consumer-IsCoalesced :
    (e : Event) (c : Consumer) (q : RunQueue)
    → q.consumer ≡ c
    → IsCoalesced q
    → IsCoalesced (on_consumer e c q)
on_consumer-IsCoalesced (Event.enqueues now o) c q w h = enqueue-IsCoalesced now o q h
on_consumer-IsCoalesced Event.takes Consumer.waiting q w h = taken-IsCoalesced q.queue q refl w h
on_consumer-IsCoalesced Event.starts (Consumer.taken o) q w h = started-IsCoalesced o q w h
on_consumer-IsCoalesced (Event.succeeds stamp now) (Consumer.busy o) q w h =
    release-IsCoalesced o
      (record { state = RunState.done; finished_at = some stamp; failure = none }) q
      (put o now q.done_monotonic) 0 refl w h
on_consumer-IsCoalesced (Event.fails message) (Consumer.busy o) q w h =
    release-IsCoalesced o (of_failure (some (RunFailure.run_failed message))) q q.done_monotonic
      q.restarts refl w h
on_consumer-IsCoalesced (Event.crashes stopped) Consumer.waiting q w h =
    waiting-IsCoalesced stopped q w h
on_consumer-IsCoalesced (Event.crashes stopped) (Consumer.busy o) q w h =
    crashed-IsCoalesced stopped o q w h
on_consumer-IsCoalesced Event.recovers Consumer.down q w h =
    idle-IsCoalesced Consumer.down Consumer.waiting q (λ o p. ground (arith, p)) (λ l. refl)
      (λ o. refl) w h
on_consumer-IsCoalesced Event.stops Consumer.waiting q w h =
    idle-IsCoalesced Consumer.waiting Consumer.ended q (λ o p. ground (arith, p)) (λ l. refl)
      (λ o. refl) w h
on_consumer-IsCoalesced _ _ q w h = h

step-IsCoalesced : (e : Event) (q : RunQueue) → IsCoalesced q → IsCoalesced (step e q)
unfolding step
step-IsCoalesced e q h = on_consumer-IsCoalesced e q.consumer q refl h

run-keeps : (es : List Event) (q : RunQueue) → IsCoalesced q → IsCoalesced (run es q)
unfolding run
run-keeps [] q h = h
run-keeps (e ∷ es) q h = run-keeps es (step e q) (step-IsCoalesced e q h)

-- Whatever happens to a new queue, in any order: while its consumer has not ended, an owner is in
-- the queue or with the consumer exactly once if it is queued or running, and not at all
-- otherwise; and the only owner whose status is RUNNING is the one whose run is under way.
pub run-IsCoalesced :
    (restarts cooldown threshold : ℕ) (es : List Event)
    → IsCoalesced (run es (new_queue restarts cooldown threshold))
unfolding IsCoalesced new_queue member count_in some_in
run-IsCoalesced restarts cooldown threshold es =
    run-keeps es (new_queue restarts cooldown threshold) ((λ live. λ o. refl), tt)
