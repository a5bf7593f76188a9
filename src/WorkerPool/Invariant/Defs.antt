-- ===== src/WorkerPool/Invariant/Defs.antt =====
-- The invariants of the pool: what the counters count, in which order the pool is started, stopped
-- and closed, and where the accepted jobs are.
use jec.Prelude.{
  ℕ, ◌+◌, ◌<◌, ◌≤◌, ◌≡◌, ◌⊎◌, pos, pos_part, half32, true, false, none, some, length, total,
}
use jec.Config.Types.{PoolConf}
use jec.WorkerPool.New.{IsValid}
use jec.WorkerPool.Counters.{Counters}
use jec.WorkerPool.State.{
  Pool, Worker, spawned, received, executing, executed, closing, leaving, Submitter, claimed,
}

module _ {J : Type 0} where
  -- Workers that the current number counts: all but those that have counted themselves out.
  abbrev pub counted : Worker J → ℕ
  counted leaving = 0
  counted _ = 1

  -- Workers that the idle number counts.
  abbrev pub idle : Worker J → ℕ
  idle (executing _) = 0
  idle executed = 0
  idle leaving = 0
  idle _ = 1

  -- A claim is counted before its worker exists.
  abbrev pub claims : Submitter J → ℕ
  claims (claimed _) = 1
  claims _ = 0

  -- The jobs in the hands of a worker, weighted by `k`.
  abbrev pub held : (J → ℕ) → Worker J → ℕ
  held k (spawned (some j)) = k j
  held k (spawned none) = 0
  held k (received j) = k j
  held k (executing j) = k j
  held k _ = 0

  -- Workers that saw the job queue closed and empty.
  abbrev pub closes : Worker J → ℕ
  closes closing = 1
  closes _ = 0

  abbrev pub current_of : Pool J → ℕ
  current_of s = total counted s.workers + total claims s.submitters

  abbrev pub idle_of : Pool J → ℕ
  idle_of s = total idle s.workers + total claims s.submitters

abbrev pub Tracks : Counters → ℕ → ℕ → Type 0
Tracks c n i = (c.number_of_current_worker ≡ pos n) × (c.number_of_idle_worker ≡ pos i)

-- The limits of int32 are the type's own.
pub record Fits (c : PoolConf) : Type 0 where
  pub valid : IsValid c
  pub int32 : pos_part c.max_number_of_worker < half32

-- The counters say how many workers there are, within the configured maximum.
pub record Counts {J : Type 0} (s : Pool J) : Type 0 where
  pub fits : Fits s.pool_conf
  pub tracks : Tracks s.counters (current_of s) (idle_of s)
  pub capped : current_of s ≤ pos_part s.pool_conf.max_number_of_worker
  pub waited : s.workers_wg ≡ length s.workers

-- The order of Start, Stop, the two closes and the locks.
pub record Life {J : Type 0} (s : Pool J) : Type 0 where
  pub stop_locks : s.stopping ≡ true → s.is_running ≡ false
  pub submit_runs : 0 < length s.submitters → s.is_running ≡ true
  pub stop_empties : s.is_running ≡ false → s.stopping ≡ false → length s.workers ≡ 0
  pub quit_first : s.job_queue_closed ≡ true → s.quit_closed ≡ true
  pub runners_le : s.runners ≤ s.starts
  pub run_open : s.starts ≤ 1 → s.is_running ≡ true → s.quit_closed ≡ false
  pub unstarted : s.starts ≡ 0 → (s.is_running ≡ false) × (s.quit_closed ≡ false)
  pub stop_quits : s.stopping ≡ true → s.quit_closed ≡ true
  pub close_due : s.starts ≡ 1 → (0 < s.runners) ⊎ (s.job_queue_closed ≡ true)
  pub close_once : s.starts ≤ 1 → s.job_queue_closed ≡ true → s.runners ≡ 0

-- Every accepted job is executed, waits in the queue, or is in a worker's hands; as often, since
-- this holds of every weight `k`. While jobs may wait, the minimum of workers is there.
pub record Work {J : Type 0} (s : Pool J) : Type 0 where
  pub conserved :
      (k : J → ℕ)
      → total k s.accepted ≡ total k s.executions + total k s.job_queue + total (held k) s.workers
  pub staffed :
      s.starts ≡ 1
      → (pos_part s.pool_conf.min_number_of_worker ≤ current_of s)
        ⊎ ((s.job_queue_closed ≡ true) × (length s.job_queue ≡ 0))
  pub drained : 0 < total closes s.workers → (s.job_queue_closed ≡ true) × (length s.job_queue ≡ 0)
  pub unused : s.starts ≡ 0 → length s.job_queue ≡ 0
