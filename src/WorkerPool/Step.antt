-- ===== src/WorkerPool/Step.antt =====
-- One atomic step of the pool: of a caller of Start or Stop, of a Submit, of a worker, of `run`.
--
-- startStopMu is held for writing by Start and Stop and for reading by Submit: `stopping` and
-- `submitters` say who holds it. Start has no wait inside, and is one step. A channel operation, an
-- access of a counter under its mutex and an update of the wait group are one step each.
use jec.Prelude.{
  suc, ◌-◌, ◌<◌, ◌≤◌, ◌≡◌, pos, negsuc, true, false, List, [], ◌∷◌, ◌++◌, none, some, length, ◌==◌,
  if◌then◌else◌,
}
use jec.WorkerPool.Counters.{
  add_number_of_current_and_idle_worker, add_number_of_idle_worker,
  compare_and_increment_current_worker, compare_and_decrement_current_worker,
}
use jec.WorkerPool.State.{
  Pool, Worker, spawned, selecting, received, executing, executed, closing, leaving, Submitter,
  entered, defaulted, claimed, start, stop, close_queue, admit, is_fixed, capacity, new,
}
use jec.Config.Types.{PoolConf}

-- A worker's step: where it stands before and after, and the pool with the step's effect on all
-- but the list of workers. `work`, `doJob` and the two loops.
pub data Move {J : Type 0} (s : Pool J) : Worker J → Worker J → Pool J → Type 0 where
  begin_job : {j : J} → Move s (spawned (some j)) (received j) s
  begin_idle : Move s (spawned none) selecting s
  -- doJob: AddNumberOfIdleWorker(-1), Execute, and the deferred AddNumberOfIdleWorker(1)
  take_idle :
      {j : J}
      → Move s
          (received j)
          (executing j)
          (record s { counters = add_number_of_idle_worker (negsuc 0) s.counters })
  execute : {j : J} → Move s (executing j) executed (record s { executions = j ∷ s.executions })
  put_idle :
      Move s executed selecting
        (record s { counters = add_number_of_idle_worker (pos 1) s.counters })
  -- the cases of the `select`
  receive :
      {j : J} {q : List J}
      → s.job_queue ≡ j ∷ q
      → Move s selecting (received j) (record s { job_queue = q })
  see_closed : s.job_queue ≡ [] → s.job_queue_closed ≡ true → Move s selecting closing s
  tick_stay :
      is_fixed s ≡ false
      → (compare_and_decrement_current_worker s.pool_conf s.counters).1 ≡ false
      → Move s selecting selecting s
  tick_leave :
      is_fixed s ≡ false
      → (compare_and_decrement_current_worker s.pool_conf s.counters).1 ≡ true
      → Move s selecting leaving
          (record s { counters = (compare_and_decrement_current_worker s.pool_conf s.counters).0 })
  count_out :
      Move s closing leaving
        (record s { counters = add_number_of_current_and_idle_worker (negsuc 0) s.counters })

-- A step of a call of Submit that goes on, with its effect on all but the list of such calls.
pub data Advance {J : Type 0} (s : Pool J) : Submitter J → Submitter J → Pool J → Type 0 where
  -- The `select` takes `default` when the buffer is full. Whether a worker waits at the other end
  -- of the channel at that moment is left open.
  default : {j : J} → capacity s ≤ length s.job_queue → Advance s (entered j) (defaulted j) s
  claim :
      {j : J}
      → is_fixed s ≡ false
      → (compare_and_increment_current_worker s.pool_conf s.counters).1 ≡ true
      → Advance s
          (defaulted j)
          (claimed j)
          (record s { counters = (compare_and_increment_current_worker s.pool_conf s.counters).0 })

-- The last step of a call of Submit.
pub data Return {J : Type 0} (s : Pool J) : Submitter J → Pool J → Type 0 where
  send_buffered :
      {j : J}
      → s.job_queue_closed ≡ false
      → length s.job_queue < capacity s
      → Return s
          (entered j)
          (record s { job_queue = s.job_queue ++ j ∷ []; accepted = j ∷ s.accepted })
  -- the job goes to a worker that waits at the `select`
  send_handover :
      {j : J} (us vs : List (Worker J))
      → s.job_queue_closed ≡ false
      → s.job_queue ≡ []
      → s.workers ≡ us ++ selecting ∷ vs
      → Return s
          (entered j)
          (record s { workers = us ++ received j ∷ vs; accepted = j ∷ s.accepted })
  send_panics :
      {j : J} → s.job_queue_closed ≡ true → Return s (entered j) (record s { panicked = true })
  refuse_fixed : {j : J} → is_fixed s ≡ true → Return s (defaulted j) s
  refuse_full :
      {j : J}
      → is_fixed s ≡ false
      → (compare_and_increment_current_worker s.pool_conf s.counters).1 ≡ false
      → Return s (defaulted j) s
  spawn :
      {j : J}
      → Return s (claimed j) (record s {
        workers_wg = suc s.workers_wg;
        workers = spawned (some j) ∷ s.workers;
        accepted = j ∷ s.accepted;
      })

-- The end of a worker's goroutine.
unfoldable pub done : {J : Type 0} → Pool J → List (Worker J) → Pool J
done s ws =
    if s.workers_wg == 0
    then record s { workers = ws; panicked = true }
    else record s { workers = ws; workers_wg = s.workers_wg - 1 }

pub data Step {J : Type 0} (s : Pool J) : Pool J → Type 0 where
  starts : s.stopping ≡ false → s.submitters ≡ [] → Step s (start s).0
  stops : s.stopping ≡ false → s.submitters ≡ [] → Step s (stop s).0
  stop_returns : s.stopping ≡ true → s.workers_wg ≡ 0 → Step s (record s { stopping = false })
  submits :
      (j : J)
      → s.stopping ≡ false
      → admit s ≡ none
      → Step s (record s { submitters = entered j ∷ s.submitters })
  advances :
      {t : Pool J} (us vs : List (Submitter J)) {p q : Submitter J}
      → s.submitters ≡ us ++ p ∷ vs
      → Advance s p q t
      → Step s (record t { submitters = us ++ q ∷ vs })
  returns :
      {t : Pool J} (us vs : List (Submitter J)) {p : Submitter J}
      → s.submitters ≡ us ++ p ∷ vs
      → Return s p t
      → Step s (record t { submitters = us ++ vs })
  moves :
      {t : Pool J} (us vs : List (Worker J)) {w x : Worker J}
      → s.workers ≡ us ++ w ∷ vs
      → Move s w x t
      → Step s (record t { workers = us ++ x ∷ vs })
  -- workersWg.Done(), which panics below zero
  leaves : (us vs : List (Worker J)) → s.workers ≡ us ++ leaving ∷ vs → Step s (done s (us ++ vs))
  closes : 0 < s.runners → s.quit_closed ≡ true → Step s (close_queue s)

-- What a pool made by New may come to. A panic ends the process, so nothing follows it.
pub data Reach {J : Type 0} (c : PoolConf) : Pool J → Type 0 where
  fresh : Reach c (new c)
  later : {s t : Pool J} → Reach c s → s.panicked ≡ false → Step s t → Reach c t
