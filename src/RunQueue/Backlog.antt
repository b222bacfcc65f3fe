-- ===== src/RunQueue/Backlog.antt =====
-- The backlog flag of core/run_queue.py against the live depth.
use kerdoos.Prelude.{ℕ, ◌≡◌, String, Bool, true, false, none, some, List, [], ◌∷◌, leb, arith}
use kerdoos.Prelude.Dict.{put, discard}
use kerdoos.RunQueue.{
  RunState, RunStatus, RunFailure, Consumer, RunQueue, new_queue, check_backlog_warning,
  backlog_warning_active, queued_count, enqueue, of_state, of_failure, take_from, release,
  supervise, Event, on_consumer, step, run,
}

-- The flag is what the depth says.
unfoldable pub IsHonest : RunQueue → Type 0
IsHonest q = q.backlog_warned ≡ backlog_warning_active q

-- With the warning off, the flag is down.
abbrev IsCalm : RunQueue → Type 0
IsCalm q = leb q.backlog_warn_threshold 0 ≡ true → q.backlog_warned ≡ false

check_backlog_warning-IsHonest : (q : RunQueue) → IsCalm q → IsHonest (check_backlog_warning q)
unfolding IsHonest check_backlog_warning backlog_warning_active queued_count
check_backlog_warning-IsHonest q h = ground (arith, h)

honest-IsCalm : (q : RunQueue) → IsHonest q → IsCalm q
unfolding IsHonest backlog_warning_active queued_count
honest-IsCalm q h z = ground (arith, h, z)

enqueue-IsHonest : (now : ℕ) (o : String) (q : RunQueue) → IsHonest q → IsHonest (enqueue now o q).0
unfolding IsHonest enqueue check_backlog_warning backlog_warning_active queued_count
enqueue-IsHonest now o q h = ground (arith, h)

supervise-IsHonest : (stopped : Bool) (q : RunQueue) → IsCalm q → IsHonest (supervise stopped q)
unfolding IsHonest supervise check_backlog_warning backlog_warning_active queued_count
supervise-IsHonest true q h = ground (arith, h)
supervise-IsHonest false q h = ground (arith, h)

release-IsHonest : (o : String) (q : RunQueue) → IsCalm q → IsHonest (release o q)
release-IsHonest o q h =
    check_backlog_warning-IsHonest
      (record q { queued_or_running = discard o q.queued_or_running; consumer = Consumer.waiting })
      h

taken-IsHonest : (xs : List String) (q : RunQueue) → IsHonest q → IsHonest (take_from xs q)
unfolding IsHonest backlog_warning_active queued_count
taken-IsHonest [] q h = h
taken-IsHonest (o ∷ xs) q h = h

-- Moving the consumer or setting a status leaves the flag and the depth alone.
same-IsHonest :
    (q : RunQueue) (d : List (String × RunStatus)) (c : Consumer)
    → IsHonest q
    → IsHonest (record q { status = d; consumer = c })
unfolding IsHonest backlog_warning_active queued_count
same-IsHonest q d c h = h

step-IsHonest :
    (e : Event) (c : Consumer) (q : RunQueue) → IsHonest q → IsHonest (on_consumer e c q)
step-IsHonest (Event.enqueues now o) c q h = enqueue-IsHonest now o q h
step-IsHonest Event.takes Consumer.waiting q h = taken-IsHonest q.queue q h
step-IsHonest Event.starts (Consumer.taken o) q h =
    same-IsHonest q (put o (of_state RunState.running) q.status) (Consumer.busy o) h
step-IsHonest (Event.succeeds stamp now) (Consumer.busy o) q h =
    release-IsHonest o
      (record q {
        status =
            put o (record { state = RunState.done; finished_at = some stamp; failure = none })
              q.status;
        done_monotonic = put o now q.done_monotonic;
        restarts = 0;
      })
      (honest-IsCalm q h)
step-IsHonest (Event.fails message) (Consumer.busy o) q h =
    release-IsHonest o
      (record q { status = put o (of_failure (some (RunFailure.run_failed message))) q.status })
      (honest-IsCalm q h)
step-IsHonest (Event.crashes stopped) Consumer.waiting q h =
    supervise-IsHonest stopped q (honest-IsCalm q h)
step-IsHonest (Event.crashes stopped) (Consumer.busy o) q h =
    supervise-IsHonest stopped (release o q)
      (honest-IsCalm (release o q) (release-IsHonest o q (honest-IsCalm q h)))
step-IsHonest Event.recovers Consumer.down q h = same-IsHonest q q.status Consumer.waiting h
step-IsHonest Event.stops Consumer.waiting q h = same-IsHonest q q.status Consumer.ended h
step-IsHonest _ _ q h = h

run-keeps : (es : List Event) (q : RunQueue) → IsHonest q → IsHonest (run es q)
unfolding run step
run-keeps [] q h = h
run-keeps (e ∷ es) q h = run-keeps es (step e q) (step-IsHonest e q.consumer q h)

-- Whatever happens to a new queue, in any order, the backlog flag that the warning and its
-- recovery are logged by is up exactly when the warning is on and the number of owners that are
-- queued or running has reached its threshold.
pub run-IsHonest :
    (restarts cooldown threshold : ℕ) (es : List Event)
    → IsHonest (run es (new_queue restarts cooldown threshold))
unfolding IsHonest new_queue backlog_warning_active queued_count
run-IsHonest restarts cooldown threshold es =
    run-keeps es (new_queue restarts cooldown threshold) (ground arith)
