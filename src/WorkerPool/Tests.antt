-- ===== src/WorkerPool/Tests.antt =====
-- A pool of worker_pool/worker_pool.go run by hand: one worker, one job, stopped.
use jec.Prelude.{
  ℕ, ◌-◌, ◌≡◌, ◌≤◌, refl, pos, pos_part, wrap, ◌==◌, if◌then◌else◌, ◌+ℤ◌, true, false, [], ◌∷◌,
  none, length, total, arith,
}
use jec.Config.Types.{PoolConf}
use jec.WorkerPool.New.{new_conf, IsValid, new_conf-IsValid}
use jec.WorkerPool.Counters.{
  number_of_available_worker, add_number_of_current_and_idle_worker, add_number_of_idle_worker,
}
use jec.WorkerPool.State.{Pool, start, stop, close_queue, new, add_initial_workers, admit}
use jec.WorkerPool.Step.{
  Step, Reach, fresh, later, starts, stops, stop_returns, submits, returns, moves, leaves, closes,
  done, begin_idle, take_idle, execute, put_idle, see_closed, count_out, send_handover,
}
use jec.WorkerPool.Safety.{
  busy_with_job, available_exact, started_once-no_panic, stopped-all_executed,
}
use jec.WorkerPool.Liveness.{Runs, stop_can_return}
use jec.WorkerPool.Faults.{accepted_job_lost, restart_panics}
use jec.WorkerPool.Bag
use jec.WorkerPool.Bag.{accepts, executes, Trace, Behaves, waiting}
use jec.WorkerPool.Bag.Laws.{Trace-Behaves}

abbrev small : PoolConf
small = record {
  max_number_of_worker = pos 2;
  min_number_of_worker = pos 1;
  queue_size = pos 0;
  keep_alive_time_in_millis = pos 5;
  monitoring_period_in_millis = pos 5;
}

-- Start, and a job that goes to the waiting worker.
busy_pool : (s : Pool ℕ) × Reach small s
unfolding new new_conf start stop add_initial_workers add_number_of_current_and_idle_worker
    add_number_of_idle_worker admit wrap ◌+ℤ◌
busy_pool =
    let r0 : Reach small (new small) = fresh in
    let r1 = later r0 refl (starts refl refl) in
    let r2 = later r1 refl (moves [] [] refl begin_idle) in
    let r3 = later r2 refl (submits 7 refl refl) in
    let r4 = later r3 refl (returns [] [] refl (send_handover [] [] refl refl refl)) in
    (_, later r4 refl (moves [] [] refl take_idle))

stopping_pool : (s : Pool ℕ) × Reach small s
unfolding busy_pool
stopping_pool = (_, later busy_pool.1 refl (stops refl refl))

stopped_pool : (s : Pool ℕ) × Reach small s
unfolding stopping_pool close_queue done
stopped_pool =
    let r1 = later stopping_pool.1 refl (moves [] [] refl execute) in
    let r2 = later r1 refl (closes (omega arith) refl) in
    let r3 = later r2 refl (moves [] [] refl put_idle) in
    let r4 = later r3 refl (moves [] [] refl (see_closed refl refl)) in
    let r5 = later r4 refl (moves [] [] refl count_out) in
    let r6 = later r5 refl (leaves [] [] refl) in (_, later r6 refl (stop_returns refl refl))

available_exact_example :
    (number_of_available_worker busy_pool.0.pool_conf busy_pool.0.counters
      ≡ pos (
          pos_part busy_pool.0.pool_conf.max_number_of_worker
          - total busy_with_job busy_pool.0.workers))
    × (total busy_with_job busy_pool.0.workers
        ≤ pos_part busy_pool.0.pool_conf.max_number_of_worker)
unfolding busy_pool
available_exact_example = available_exact {c = small} (omega arith) busy_pool.1 refl

started_once-no_panic_example : stopped_pool.0.panicked ≡ false
unfolding stopped_pool
started_once-no_panic_example =
    started_once-no_panic {c = small} (omega arith) stopped_pool.1 (omega arith)

abbrev sevens : ℕ → ℕ
sevens j = if j == 7 then 1 else 0

stopped-all_executed_example :
    (total sevens stopped_pool.0.executions ≡ total sevens stopped_pool.0.accepted)
    × (length stopped_pool.0.workers ≡ 0)
unfolding stopped_pool
stopped-all_executed_example =
    stopped-all_executed {c = small} sevens (omega arith) stopped_pool.1 refl refl refl
      (omega arith)

stop_can_return_example :
    (t : Pool ℕ) × Runs t stopping_pool.0
    × (t.stopping ≡ false)
    × (length t.workers ≡ 0)
    × (t.starts ≡ 1)
unfolding stopping_pool
stop_can_return_example =
    stop_can_return {c = small} stopping_pool.0 (omega arith) stopping_pool.1 refl refl refl

-- A pool that New allows: no worker at least, and room in the queue.
abbrev lazy : PoolConf
lazy = record small { min_number_of_worker = pos 0; queue_size = pos 3 }

accepted_job_lost_example :
    (s : Pool ℕ) × Reach lazy s
    × (s.starts ≡ 1)
    × (s.accepted ≡ 9 ∷ [])
    × (s.executions ≡ [])
    × (s.is_running ≡ false)
    × (s.stopping ≡ false)
    × (length s.workers ≡ 0)
accepted_job_lost_example = accepted_job_lost lazy 9 refl (omega arith)

restart_panics_example :
    Step stopped_pool.0 (start stopped_pool.0).0
    × ((start stopped_pool.0).1 ≡ none)
    × ((t : Pool ℕ) × Step (start stopped_pool.0).0 t × (t.panicked ≡ true))
unfolding stopped_pool
restart_panics_example = restart_panics stopped_pool.0 refl refl refl refl refl

new_conf-IsValid_example : IsValid (new_conf lazy)
new_conf-IsValid_example = new_conf-IsValid lazy

-- A job is accepted and executed.
shown : (s : Pool ℕ) × Trace small (executes 7 ∷ accepts 7 ∷ []) s
unfolding new new_conf start add_initial_workers add_number_of_current_and_idle_worker
    add_number_of_idle_worker admit wrap ◌+ℤ◌
shown =
    let r0 : Trace small [] (new small) = Bag.fresh in
    let r1 = Bag.later r0 refl (starts refl refl) in
    let r2 = Bag.later r1 refl (moves [] [] refl begin_idle) in
    let r3 = Bag.later r2 refl (submits 7 refl refl) in
    let r4 = Bag.later r3 refl (returns [] [] refl (send_handover [] [] refl refl refl)) in
    let r5 = Bag.later r4 refl (moves [] [] refl take_idle) in
    (_, Bag.later r5 refl (moves [] [] refl execute))

Trace-Behaves_example : Behaves (executes 7 ∷ accepts 7 ∷ []) (waiting shown.0)
unfolding shown
Trace-Behaves_example = Trace-Behaves shown.1
