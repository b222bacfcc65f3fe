-- ===== src/RunQueue/Cooldown.antt =====
-- The cooldown of core/run_queue.py after a successful run.
use mathlib.Core.Path.{subst}
use kerdoos.Prelude.{
  ℕ, ◌≡◌, ◌≤◌, ◌+◌, refl, sym, ◌∙◌, String, Bool, true, false, not, ◌&&◌, none, some, List, [], ◌∷◌,
  ◌++◌, leb, ltb, is_some, if◌then◌else◌, arith, eq_refl,
}
use kerdoos.Prelude.Dict.{get, put, get-put, member, add, discard, member-discard}
use kerdoos.RunQueue.{
  RunState, Consumer, RunQueue, check_backlog_warning, cooldown_remaining_seconds, enqueue, Event,
  on_consumer, step, of_state, of_failure,
}
use kerdoos.RunQueue.Coalescing.{by_flag}

get-put_self :
    {V : Type 0} (o : String) (v : V) (d : List (String × V)) → get o (put o v d) ≡ some v
get-put_self o v d = ground (arith, get-put o o v d, eq_refl o)

member-discard_self : (o : String) (xs : List String) → member o (discard o xs) ≡ false
member-discard_self o xs = ground (arith, member-discard o o xs, eq_refl o)

enqueue_by :
    (now : ℕ) (o : String) (q : RunQueue) (x y z : Bool) (a b : RunQueue)
    → (let result : RunQueue × Bool =
          if x then (a, false) else if y then (q, false) else if z then (q, false) else (b, true) in
        result.1 ≡ not x && not y && not z)
enqueue_by now o q true y z a b = refl
enqueue_by now o q false true z a b = refl
enqueue_by now o q false false true a b = refl
enqueue_by now o q false false false a b = refl

-- The three grounds of a refusal.
enqueue-answer :
    (now : ℕ) (o : String) (q : RunQueue)
    → (enqueue now o q).1
      ≡ not q.dead
        && not (is_some (cooldown_remaining_seconds now o q))
        && not (member o q.queued_or_running)
unfolding enqueue
enqueue-answer now o q =
    let admitted : RunQueue = check_backlog_warning (record q {
      queued_or_running = add o q.queued_or_running;
      status = put o (of_state RunState.queued) q.status;
    }) in
    enqueue_by now o q q.dead (is_some (cooldown_remaining_seconds now o q))
      (member o q.queued_or_running)
      (record q { status = put o (of_failure q.dead_reason) q.status })
      (record admitted { queue = admitted.queue ++ o ∷ [] })

module _ (o : String) (stamp t now : ℕ) (q : RunQueue) (later : t ≤ now)
    (alive : q.dead ≡ false) where
  finished : Bool → RunQueue
  finished b = record q {
    status =
        put o (record { state = RunState.done; finished_at = some stamp; failure = none }) q.status;
    done_monotonic = put o t q.done_monotonic;
    restarts = 0;
    queued_or_running = discard o q.queued_or_running;
    consumer = Consumer.waiting;
    backlog_warned = b;
  }

  dead-finished : (b : Bool) → (finished b).dead ≡ false
  unfolding finished
  dead-finished b = alive

  gone-finished : (b : Bool) → member o (finished b).queued_or_running ≡ false
  unfolding finished
  gone-finished b = member-discard_self o q.queued_or_running

  remaining-finished :
      (b : Bool)
      → is_some (cooldown_remaining_seconds now o (finished b)) ≡ ltb now (t + q.cooldown_seconds)
  unfolding cooldown_remaining_seconds finished
  remaining-finished b = ground (
    arith,
    later,
    get-put_self o (record { state = RunState.done; finished_at = some stamp; failure = none })
        q.status,
    get-put_self o t q.done_monotonic,
  )

  enqueue-finished : (b : Bool) → (enqueue now o (finished b)).1 ≡ leb (t + q.cooldown_seconds) now
  enqueue-finished b =
      enqueue-answer now o (finished b)
      ∙ ground (arith, dead-finished b, remaining-finished b, gone-finished b)

  -- After the run of an owner succeeds at monotonic time `t`, on a queue that is not dead,
  -- `enqueue` for that owner at any time from `t` on is admitted exactly from the end of the
  -- cooldown on.
  pub enqueue-cooldown :
      q.consumer ≡ Consumer.busy o
      → (enqueue now o (step (Event.succeeds stamp t) q)).1 ≡ leb (t + q.cooldown_seconds) now
  unfolding step finished
  enqueue-cooldown e =
      subst
        (λ c.
          (enqueue now o (on_consumer (Event.succeeds stamp t) c q)).1
          ≡ leb (t + q.cooldown_seconds) now)
        (sym e)
        (by_flag (λ a. (enqueue now o a).1 ≡ leb (t + q.cooldown_seconds) now)
          (finished q.backlog_warned) (λ b. enqueue-finished b))
