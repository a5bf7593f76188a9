-- ===== src/WorkerPool/State.antt =====
-- The state of worker_pool/worker_pool.go and worker_pool/worker.go while goroutines run: where each
-- worker and each call of Submit stands, the channels, the wait group, the counters.
--
-- The pool is generic in the type `J` of jobs. The channel quitNow has no entry: no code closes it,
-- so the branches that wait for it are never taken.
use jec.Prelude.{
  ℕ, suc, ◌+◌, ◌-◌, ℤ, pos, pos_part, Bool, true, false, List, [], ◌++◌, Option, none, some,
  replicate, if◌then◌else◌, eqb_ℤ, not,
}
use jec.Config.Types.{PoolConf}
use jec.WorkerPool.New.{new_conf}
use jec.WorkerPool.Counters.{Counters, add_number_of_current_and_idle_worker}

-- Where a worker stands in `work`, `doJob` and `runWith...NumberOfWorker`.
pub data Worker (J : Type 0) : Type 0 where
  spawned : Option J → Worker J  -- started by `go worker.work(initialJob)`
  selecting : Worker J  -- at the `select`
  received : J → Worker J  -- start of `doJob`
  executing : J → Worker J  -- before `job.Execute` returns
  executed : Worker J  -- before the deferred AddNumberOfIdleWorker(1)
  closing : Worker J  -- saw the job queue closed
  leaving : Worker J  -- before the deferred workersWg.Done()

-- Where a call of `Submit` stands, holding startStopMu for reading.
pub data Submitter (J : Type 0) : Type 0 where
  entered : J → Submitter J  -- isRunning was true
  defaulted : J → Submitter J  -- the `default` case of the `select`
  claimed : J → Submitter J  -- CompareAndIncrementCurrentWorker was true

pub record Pool (J : Type 0) : Type 0 where
  pub pool_conf : PoolConf
  pub counters : Counters
  pub job_queue : List J
  pub job_queue_closed : Bool
  pub quit_closed : Bool
  pub is_running : Bool
  pub workers_wg : ℕ
  pub workers : List (Worker J)
  pub submitters : List (Submitter J)
  -- `run` goroutines that wait for quit
  pub runners : ℕ
  -- Stop waits for the workers, holding startStopMu for writing
  pub stopping : Bool
  -- a send on, or a close of, a closed channel
  pub panicked : Bool
  -- the history: calls of Start that succeeded, jobs accepted by Submit, jobs executed
  pub starts : ℕ
  pub accepted : List J
  pub executions : List J

pub data Error : Type 0 where
  already_running not_running not_working : Error

module _ {J : Type 0} where
  unfoldable pub new : PoolConf → Pool J
  new c = record {
    pool_conf = new_conf c;
    counters = record { number_of_current_worker = pos 0; number_of_idle_worker = pos 0 };
    job_queue = [];
    job_queue_closed = false;
    quit_closed = false;
    is_running = false;
    workers_wg = 0;
    workers = [];
    submitters = [];
    runners = 0;
    stopping = false;
    panicked = false;
    starts = 0;
    accepted = [];
    executions = [];
  }

  -- The loop makes one goroutine for each of `num` workers; a negative `num` makes none.
  unfoldable pub add_initial_workers : ℤ → Pool J → Pool J
  add_initial_workers num s = record s {
    counters = add_number_of_current_and_idle_worker num s.counters;
    workers_wg = s.workers_wg + pos_part num;
    workers = replicate (pos_part num) (spawned none) ++ s.workers;
  }

  unfoldable pub start : Pool J → Pool J × Option Error
  unfolding add_initial_workers
  start s = if s.is_running then (s, some already_running) else (
    add_initial_workers s.pool_conf.min_number_of_worker
        (record s { runners = suc s.runners; is_running = true; starts = suc s.starts }),
    none,
  )

  -- Stop up to its wait for the workers; closing quit a second time panics.
  unfoldable pub stop : Pool J → Pool J × Option Error
  stop s =
      if not s.is_running
      then (s, some not_running)
      else if s.quit_closed
      then (record s { is_running = false; panicked = true }, none)
      else (record s { is_running = false; quit_closed = true; stopping = true }, none)

  -- `run` once quit is closed; closing the job queue a second time panics.
  unfoldable pub close_queue : Pool J → Pool J
  close_queue s =
      if s.job_queue_closed
      then record s { runners = s.runners - 1; panicked = true }
      else record s { runners = s.runners - 1; job_queue_closed = true }

  -- The first test of Submit.
  unfoldable pub admit : Pool J → Option Error
  admit s = if s.is_running then none else some not_working

  -- The pool has a fixed number of workers.
  abbrev pub is_fixed : Pool J → Bool
  is_fixed s = eqb_ℤ s.pool_conf.max_number_of_worker s.pool_conf.min_number_of_worker

  abbrev pub capacity : Pool J → ℕ
  capacity s = pos_part s.pool_conf.queue_size
