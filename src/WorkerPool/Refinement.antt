-- ===== src/WorkerPool/Refinement.antt =====
-- What worker_pool/worker_pool.go promises its callers, without workers, channels and counters: a job
-- that is accepted waits, and each job that waits is executed at most once for each time it was
-- accepted.
use jec.Prelude.{
  ℕ, ◌+◌, ◌<◌, ◌≡◌, refl, ap, pos_part, half32, false, List, [], ◌∷◌, ◌++◌, none, some, total,
  total-append, arith,
}
use jec.Config.Types.{PoolConf}
use jec.WorkerPool.State.{
  Pool, Worker, spawned, selecting, received, executing, executed, closing, leaving, start, stop,
  close_queue, add_initial_workers,
}
use jec.WorkerPool.Step.{
  Step, Reach, starts, stops, stop_returns, submits, advances, returns, moves, leaves, closes, done,
  Move, begin_job, begin_idle, take_idle, execute, put_idle, receive, see_closed, tick_stay,
  tick_leave, count_out, default, claim, send_buffered, send_handover, send_panics, refuse_fixed,
  refuse_full, spawn,
}
use jec.WorkerPool.Invariant.Defs.{held, Work}
use jec.WorkerPool.Safety.{Reach-Inv}

-- A step of the promise, on the jobs accepted and the jobs executed so far. A job may be executed if it
-- waits: with `pending` and those executed it makes up those accepted, each as often.
pub data Promise {J : Type 0} (accepted done : List J) : List J → List J → Type 0 where
  same : {a d : List J} → a ≡ accepted → d ≡ done → Promise accepted done a d
  accept : {a d : List J} (j : J) → a ≡ j ∷ accepted → d ≡ done → Promise accepted done a d
  run :
      {a d : List J} (j : J) (pending : List J)
      → ((k : J → ℕ) → total k accepted ≡ total k done + k j + total k pending)
      → a ≡ accepted
      → d ≡ j ∷ done
      → Promise accepted done a d

module _ {J : Type 0} where
  abbrev pub job_of : Worker J → List J
  job_of (spawned (some j)) = j ∷ []
  job_of (received j) = j ∷ []
  job_of (executing j) = j ∷ []
  job_of _ = []

  abbrev pub jobs_of : List (Worker J) → List J
  jobs_of [] = []
  jobs_of (w ∷ ws) = job_of w ++ jobs_of ws

  job_total : (k : J → ℕ) (w : Worker J) → total k (job_of w) ≡ held k w
  job_total k (spawned (some j)) = omega arith
  job_total k (spawned none) = refl
  job_total k selecting = refl
  job_total k (received j) = omega arith
  job_total k (executing j) = omega arith
  job_total k executed = refl
  job_total k closing = refl
  job_total k leaving = refl

  jobs_total : (k : J → ℕ) (ws : List (Worker J)) → total k (jobs_of ws) ≡ total (held k) ws
  jobs_total k [] = refl
  jobs_total k (w ∷ ws) =
      omega (arith, total-append k (job_of w) (jobs_of ws), job_total k w, jobs_total k ws)

  execute_promised :
      {s : Pool J} (j : J) (us vs : List (Worker J))
      → s.workers ≡ us ++ executing j ∷ vs
      → Work s
      → Promise s.accepted s.executions s.accepted (j ∷ s.executions)
  execute_promised {s} j us vs e w =
      run j (s.job_queue ++ jobs_of (us ++ vs))
        (λ k. omega (
          arith,
          w.conserved k,
          ap (total (held k)) e,
          total-append (held k) us (executing j ∷ vs),
          total-append (held k) us vs,
          total-append k s.job_queue (jobs_of (us ++ vs)),
          jobs_total k (us ++ vs),
        ))
        refl refl

  move_promised :
      {s t : Pool J} {w x : Worker J} (us vs : List (Worker J))
      → s.workers ≡ us ++ w ∷ vs
      → Work s
      → Move s w x t
      → Promise s.accepted s.executions t.accepted t.executions
  move_promised us vs e inv begin_job = same refl refl
  move_promised us vs e inv begin_idle = same refl refl
  move_promised us vs e inv take_idle = same refl refl
  move_promised us vs e inv (execute {j}) = execute_promised j us vs e inv
  move_promised us vs e inv put_idle = same refl refl
  move_promised us vs e inv (receive d) = same refl refl
  move_promised us vs e inv (see_closed d g) = same refl refl
  move_promised us vs e inv (tick_stay f g) = same refl refl
  move_promised us vs e inv (tick_leave f g) = same refl refl
  move_promised us vs e inv count_out = same refl refl

  step_promised :
      {s t : Pool J} → Step s t → Work s → Promise s.accepted s.executions t.accepted t.executions
  unfolding start stop close_queue done add_initial_workers
  step_promised (starts f e) w = same (ground arith) (ground arith)
  step_promised (stops f e) w = same (ground arith) (ground arith)
  step_promised (stop_returns e f) w = same refl refl
  step_promised (submits j f e) w = same refl refl
  step_promised (advances us vs e (default d)) w = same refl refl
  step_promised (advances us vs e (claim d g)) w = same refl refl
  step_promised (returns us vs e (send_buffered {j} d g)) w = accept j refl refl
  step_promised (returns us vs e (send_handover {j} xs ys d g k)) w = accept j refl refl
  step_promised (returns us vs e (send_panics d)) w = same refl refl
  step_promised (returns us vs e (refuse_fixed d)) w = same refl refl
  step_promised (returns us vs e (refuse_full d g)) w = same refl refl
  step_promised (returns us vs e (spawn {j})) w = accept j refl refl
  step_promised (moves us vs e m) w = move_promised us vs e w m
  step_promised (leaves us vs e) w = same (ground arith) (ground arith)
  step_promised (closes d e) w = same (ground arith) (ground arith)

  -- With a maximum that fits an int32, every step of every reachable pool is a step of the promise on
  -- the jobs accepted and executed: it accepts a job, executes one that was accepted and not yet
  -- executed as often, or changes neither.
  pub Step-Promise :
      {c : PoolConf} {s t : Pool J}
      → pos_part c.max_number_of_worker < half32
      → Reach c s
      → s.panicked ≡ false
      → Step s t
      → Promise s.accepted s.executions t.accepted t.executions
  Step-Promise h r ok st = step_promised st (Reach-Inv h r ok).2
