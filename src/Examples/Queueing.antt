-- ===== src/Examples/Queueing.antt =====
-- The run queue at concrete inputs.
use kerdoos.Prelude.{none, false, List, [], ◌∷◌}
use kerdoos.RunQueue.{Consumer, RunQueue, new_queue, Event, run}
use kerdoos.RunQueue.Coalescing.{IsCoalesced}
use kerdoos.RunQueue.Coalescing.Steps.{run-IsCoalesced}
use kerdoos.RunQueue.Backlog.{IsHonest, run-IsHonest}

-- Two owners, one of them twice, and a crash during the first run.
abbrev events : List Event
events =
    Event.enqueues 0 "alice"
    ∷ Event.enqueues 1 "bob"
    ∷ Event.enqueues 2 "alice"
    ∷ Event.takes
    ∷ Event.starts
    ∷ Event.crashes false
    ∷ Event.recovers
    ∷ Event.takes
    ∷ []

abbrev busy_queue : RunQueue
busy_queue = record {
  max_consumer_restarts = 3;
  cooldown_seconds = 60;
  backlog_warn_threshold = 2;
  queue = [];
  queued_or_running = "alice" ∷ [];
  status = [];
  backlog_warned = false;
  done_monotonic = [];
  dead = false;
  dead_reason = none;
  restarts = 0;
  consumer = Consumer.busy "alice";
}

run-IsCoalesced_example : IsCoalesced (run events (new_queue 3 60 2))
run-IsCoalesced_example = run-IsCoalesced 3 60 2 events

run-IsHonest_example : IsHonest (run events (new_queue 3 60 2))
run-IsHonest_example = run-IsHonest 3 60 2 events
