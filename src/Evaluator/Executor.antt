-- ===== src/Evaluator/Executor.antt =====
-- `_RotatingSendExecutor` and `_DaemonThreadSendExecutor`. A pool is named by the order in which it
-- was made; `done f` is what `orphan_future.done()` answers for the future `f`.
pub mod Ownership
use kerdoos.Prelude.{
  ℕ, suc, ◌+◌, ◌*◌, Bool, true, false, Option, none, some, List, [], ◌∷◌, ◌++◌, map, ltb, length,
  if◌then◌else◌,
}

abbrev pub live_orphans_per_worker : ℕ
live_orphans_per_worker = 3

pub record Retired : Type 0 where
  pub pool : ℕ
  pub orphan : ℕ

-- `shut` are the pools on which `shutdown(wait=False)` was called, the last one first.
pub record Rotating : Type 0 where
  pub max_workers : ℕ
  pub current : ℕ
  pub next_pool : ℕ
  pub retired : List Retired
  pub shut : List ℕ

abbrev pub max_live_orphans : Rotating → ℕ
max_live_orphans e = e.max_workers * live_orphans_per_worker

unfoldable pub new_rotating : ℕ → Rotating
new_rotating workers = record {
  max_workers = workers;
  current = 0;
  next_pool = 1;
  retired = [];
  shut = [];
}

-- The loop of `_prune_retired`: the entries that stay, and the pools that are shut.
unfoldable pub prune_loop : (ℕ → Bool) → List Retired → List ℕ → List Retired × List ℕ
prune_loop done [] shut = ([], shut)
prune_loop done (r ∷ rs) shut =
    let (live, gone) = prune_loop done rs (if done r.orphan then r.pool ∷ shut else shut) in
    (if done r.orphan then live else r ∷ live, gone)

unfoldable pub prune_retired : (ℕ → Bool) → Rotating → Rotating
prune_retired done e = record e {
  retired = (prune_loop done e.retired e.shut).0;
  shut = (prune_loop done e.retired e.shut).1;
}

unfoldable pub can_submit : (ℕ → Bool) → Rotating → Rotating × Bool
can_submit done e =
    let e' = prune_retired done e in (e', ltb (length e'.retired) (max_live_orphans e'))

unfoldable pub rotate : (ℕ → Bool) → Option ℕ → Rotating → Rotating
rotate done (some orphan) e = prune_retired done (record e {
  current = e.next_pool;
  next_pool = suc e.next_pool;
  retired = e.retired ++ record { pool = e.current; orphan = orphan } ∷ [];
})
rotate done none e = record e {
  current = e.next_pool;
  next_pool = suc e.next_pool;
  shut = e.current ∷ e.shut;
}

-- `shutdown`: the current pool and every retired one are shut.
unfoldable pub shutdown : Rotating → Rotating
shutdown e = record e { retired = []; shut = map (λ r. r.pool) e.retired ++ (e.current ∷ e.shut) }

-- The executor of a tick: the loop's rotating one, or the daemon threads of a single tick, which
-- take every send and have nothing to rotate.
pub data SendExecutor : Type 0 where
  rotating : Rotating → SendExecutor
  daemon : SendExecutor

unfoldable pub executor_can_submit : (ℕ → Bool) → SendExecutor → SendExecutor × Bool
executor_can_submit done (rotating e) =
    let (e', answer) = can_submit done e in (rotating e', answer)
executor_can_submit done daemon = (daemon, true)

unfoldable pub executor_rotate : (ℕ → Bool) → Option ℕ → SendExecutor → SendExecutor
executor_rotate done orphan (rotating e) = rotating (rotate done orphan e)
executor_rotate done orphan daemon = daemon

unfoldable pub executor_shutdown : SendExecutor → SendExecutor
unfolding shutdown
executor_shutdown (rotating e) = rotating (shutdown e)
executor_shutdown daemon = daemon
