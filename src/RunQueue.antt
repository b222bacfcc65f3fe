-- ===== src/RunQueue.antt =====
-- packages/kerdoos/src/kerdoos/core/run_queue.py: the run_now queue, its consumer and its supervisor,
-- as steps. Code between two suspensions is one step: the bodies under the asyncio lock await
-- nothing, so taking the lock never suspends, and neither does a put on the unbounded queue.
-- Times of `time.monotonic()` are numbers, as are the wall-clock stamps.
pub mod Coalescing
pub mod Backlog
pub mod Cooldown
use Prim.Native.Nat.{◌-◌}
use kerdoos.Prelude.{
  ℕ, suc, ◌+◌, ◌<◌, String, Bool, true, false, not, ◌&&◌, ◌||◌, Option, none, some, List, [], ◌∷◌,
  ◌++◌, ltb, leb, length, is_some, if◌then◌else◌,
}
use kerdoos.Prelude.Dict.{get, put, map_values, member, add, discard}

pub data RunState : Type 0 where
  queued running done error : RunState

-- The texts of `RunStatus.error`.
pub data RunFailure : Type 0 where
  run_failed : String → RunFailure
  consumer_crashed : RunFailure
  budget_exceeded : ℕ → RunFailure

pub record RunStatus : Type 0 where
  pub state : RunState
  pub finished_at : Option ℕ
  pub failure : Option RunFailure

abbrev pub of_state : RunState → RunStatus
of_state s = record { state = s; finished_at = none; failure = none }

abbrev pub of_failure : Option RunFailure → RunStatus
of_failure f = record { state = RunState.error; finished_at = none; failure = f }

-- Where the consumer stands: at `queue.get()`, after it, and inside `run_now`. It has ended after
-- a clean stop and once the queue is dead, and it is down between a crash and the restart.
pub data Consumer : Type 0 where
  waiting ended down : Consumer
  taken busy : String → Consumer

pub record RunQueue : Type 0 where
  pub max_consumer_restarts : ℕ
  pub cooldown_seconds : ℕ
  pub backlog_warn_threshold : ℕ
  pub queue : List String
  pub queued_or_running : List String
  pub status : List (String × RunStatus)
  pub backlog_warned : Bool
  pub done_monotonic : List (String × ℕ)
  pub dead : Bool
  pub dead_reason : Option RunFailure
  pub restarts : ℕ
  pub consumer : Consumer

unfoldable pub new_queue : ℕ → ℕ → ℕ → RunQueue
new_queue restarts cooldown threshold = record {
  max_consumer_restarts = restarts;
  cooldown_seconds = cooldown;
  backlog_warn_threshold = threshold;
  queue = [];
  queued_or_running = [];
  status = [];
  backlog_warned = false;
  done_monotonic = [];
  dead = false;
  dead_reason = none;
  restarts = 0;
  consumer = waiting;
}

unfoldable pub queued_count : RunQueue → ℕ
queued_count q = length q.queued_or_running

unfoldable pub backlog_warning_active : RunQueue → Bool
unfolding queued_count
backlog_warning_active q =
    if leb q.backlog_warn_threshold 0 then false else leb q.backlog_warn_threshold (queued_count q)

-- `_check_backlog_warning_locked`, without the log line
unfoldable pub check_backlog_warning : RunQueue → RunQueue
check_backlog_warning q =
    if leb q.backlog_warn_threshold 0
    then q
    else if leb q.backlog_warn_threshold (length q.queued_or_running) && not q.backlog_warned
    then record q { backlog_warned = true }
    else if ltb (length q.queued_or_running) q.backlog_warn_threshold && q.backlog_warned
    then record q { backlog_warned = false }
    else q

abbrev is_done : RunState → Bool
is_done RunState.done = true
is_done _ = false

abbrev status_is_done : Option RunStatus → Bool
status_is_done none = false
status_is_done (some s) = is_done s.state

abbrev remaining : ℕ → ℕ → Option ℕ → Option ℕ
remaining cooldown now none = none
remaining cooldown now (some done_at) =
    if ltb now (done_at + cooldown) then some (done_at + cooldown - now) else none

-- `cooldown - (now - done_at)` if that is positive
unfoldable pub cooldown_remaining_seconds : ℕ → String → RunQueue → Option ℕ
unfolding get
cooldown_remaining_seconds now owner q =
    if leb q.cooldown_seconds 0
    then none
    else if not (status_is_done (get owner q.status))
    then none
    else remaining q.cooldown_seconds now (get owner q.done_monotonic)

unfoldable pub enqueue : ℕ → String → RunQueue → RunQueue × Bool
unfolding check_backlog_warning cooldown_remaining_seconds put add
enqueue now owner q =
    if q.dead
    then (record q { status = put owner (of_failure q.dead_reason) q.status }, false)
    else if is_some (cooldown_remaining_seconds now owner q)
    then (q, false)
    else if member owner q.queued_or_running
    then (q, false)
    else let admitted : RunQueue = check_backlog_warning (record q {
      queued_or_running = add owner q.queued_or_running;
      status = put owner (of_state RunState.queued) q.status;
    }) in
      (record admitted { queue = admitted.queue ++ owner ∷ [] }, true)

unfoldable pub status_for : String → RunQueue → Option RunStatus
unfolding get
status_for owner q = get owner q.status

-- `owner_id = await self._queue.get()`
abbrev take_from : List String → RunQueue → RunQueue
take_from [] q = q
take_from (o ∷ rest) q = record q { queue = rest; consumer = taken o }

-- The `finally` of a run.
abbrev release : String → RunQueue → RunQueue
release o q =
    check_backlog_warning
      (record q { queued_or_running = discard o q.queued_or_running; consumer = waiting })

-- The supervisor's sweep after a crash, over every status.
abbrev is_lost : Bool → RunState → Bool
is_lost dying RunState.running = true
is_lost dying RunState.queued = dying
is_lost dying _ = false

abbrev lose : Bool → RunStatus → RunStatus
lose dying s = if is_lost dying s.state then of_failure (some consumer_crashed) else s

unfoldable pub discard_lost : Bool → List (String × RunStatus) → List String → List String
unfolding discard
discard_lost dying [] active = active
discard_lost dying ((o, s) ∷ rest) active =
    discard_lost dying rest (if is_lost dying s.state then discard o active else active)

-- From the crash to the restart, the end or the death of the queue.
unfoldable pub supervise : Bool → RunQueue → RunQueue
unfolding discard_lost map_values check_backlog_warning
supervise stopped q =
    let count = suc q.restarts in
    let dying = ltb q.max_consumer_restarts count in
    let swept : RunQueue = check_backlog_warning (record q {
      restarts = count;
      status = map_values (lose dying) q.status;
      queued_or_running = discard_lost dying q.status q.queued_or_running;
    }) in
    if stopped
    then record swept { consumer = ended }
    else if dying
    then record swept { dead = true; dead_reason = some (budget_exceeded count); consumer = ended }
    else record swept { consumer = down }

-- What can happen. A crash is an exception of the queue's own code: while the consumer waits, or
-- after `run_now`, where the `finally` still runs. Between `get` and the RUNNING status no
-- instruction raises.
pub data Event : Type 0 where
  enqueues : ℕ → String → Event
  takes starts : Event
  succeeds : ℕ → ℕ → Event
  fails : String → Event
  crashes : Bool → Event
  recovers stops : Event

-- One event; an event that the consumer's place does not allow changes nothing.
abbrev on_consumer : Event → Consumer → RunQueue → RunQueue
on_consumer (enqueues now o) c q = (enqueue now o q).0
on_consumer takes waiting q = take_from q.queue q
on_consumer starts (taken o) q = record q {
  status = put o (of_state RunState.running) q.status;
  consumer = busy o;
}
on_consumer (succeeds stamp now) (busy o) q = release o (record q {
  status =
      put o (record { state = RunState.done; finished_at = some stamp; failure = none }) q.status;
  done_monotonic = put o now q.done_monotonic;
  restarts = 0;
})
on_consumer (fails message) (busy o) q =
    release o (record q { status = put o (of_failure (some (run_failed message))) q.status })
on_consumer (crashes stopped) waiting q = supervise stopped q
on_consumer (crashes stopped) (busy o) q = supervise stopped (release o q)
on_consumer recovers down q = record q { consumer = waiting }
on_consumer stops waiting q = record q { consumer = ended }
on_consumer _ _ q = q

unfoldable pub step : Event → RunQueue → RunQueue
unfolding enqueue supervise
step e q = on_consumer e q.consumer q

unfoldable pub run : List Event → RunQueue → RunQueue
unfolding step
run [] q = q
run (e ∷ es) q = run es (step e q)
