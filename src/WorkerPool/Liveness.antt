-- ===== src/WorkerPool/Liveness.antt =====
-- Stop of worker_pool/worker_pool.go is not left waiting: from any state in which it waits for the
-- workers there is a schedule of the workers and of `run` after which it returns.
use jec.Prelude.{
  ℕ, zero, suc, ◌+◌, ◌*◌, ◌<◌, ◌≡◌, refl, sym, ap, ◌∙◌, ◌⊎◌, inl, inr, Bool-cases, pos_part, half32,
  true, false, List, [], ◌∷◌, some, none, length, total, arith,
}
use jec.Config.Types.{PoolConf}
use jec.WorkerPool.State.{
  Pool, Worker, spawned, selecting, received, executing, executed, closing, leaving, close_queue,
}
use jec.WorkerPool.Step.{
  Step, Reach, later, stop_returns, moves, leaves, closes, done, Move, begin_job, begin_idle,
  take_idle, execute, put_idle, receive, see_closed, count_out,
}
use jec.WorkerPool.Invariant.Frame.{Move-SameLife, Move-calm}
use jec.WorkerPool.Safety.{Reach-Inv, Inv}

-- `t` follows `s` by steps before any of which nothing has panicked.
pub data Runs {J : Type 0} (t : Pool J) : Pool J → Type 0 where
  here : Runs t t
  next : {s u : Pool J} → s.panicked ≡ false → Step s u → Runs t u → Runs t s

module _ {J : Type 0} where
  -- Steps that a worker still has to make before it is gone.
  effort : Worker J → ℕ
  effort leaving = 1
  effort closing = 2
  effort selecting = 3
  effort executed = 4
  effort (executing j) = 5
  effort (received j) = 6
  effort (spawned none) = 4
  effort (spawned (some j)) = 7

  work_left : Pool J → ℕ
  work_left s = s.runners + 4 * length s.job_queue + total effort s.workers

  -- A state in which Stop waits, with nothing gone wrong.
  abbrev Waiting : Pool J → Type 0
  Waiting s = (s.stopping ≡ true) × (s.starts ≡ 1) × (s.panicked ≡ false)

  abbrev Progress : Pool J → Type 0
  Progress s = (t : Pool J) × Step s t × Waiting t × (work_left t < work_left s)

  move_on :
      {s t : Pool J} {w x : Worker J} {ws : List (Worker J)}
      → s.workers ≡ w ∷ ws
      → Waiting s
      → Move s w x t
      → 4 * length t.job_queue + effort x < 4 * length s.job_queue + effort w
      → Progress s
  unfolding work_left
  move_on {t} {w} {x} {ws} e (a, b, d) m h =
      let f = Move-SameLife m in
      (
        record t { workers = x ∷ ws },
        moves [] ws e m,
        (f.same_stopping ∙ a, f.same_starts ∙ b, Move-calm m ∙ d),
        omega (arith, f.same_runners, ap (total effort) e),
      )

  -- While the job queue is open the run goroutine is due to close it.
  close_on : (s : Pool J) → Waiting s → Inv s → s.job_queue_closed ≡ false → Progress s
  unfolding close_queue work_left
  close_on s (a, b, d) (c, l, w) unshut =
      let due : 0 < s.runners = ground (arith, l.close_due b) in
      (close_queue s, closes due (l.stop_quits a), ground arith, ground arith)

  select_on :
      (s : Pool J) (q : List J) (ws : List (Worker J))
      → s.job_queue ≡ q
      → s.workers ≡ selecting ∷ ws
      → Waiting s
      → Inv s
      → Progress s
  unfolding effort
  select_on s (j ∷ q) ws d e a inv = move_on e a (receive d) (omega (arith, ap length d))
  select_on s [] ws d e a inv = elim (Bool-cases s.job_queue_closed) [
    | inl shut ↦ move_on e a (see_closed d shut) (omega arith)
    | inr unshut ↦ close_on s a inv unshut
  ]

  progress :
      (s : Pool J) (ws : List (Worker J))
      → s.workers ≡ ws
      → Waiting s
      → Inv s
      → (s.workers_wg ≡ 0) ⊎ Progress s
  unfolding effort work_left done
  progress s [] e a (c, l, w) = inl (c.waited ∙ ap length e)
  progress s (spawned (some j) ∷ ws) e a inv = inr (move_on e a begin_job (omega arith))
  progress s (spawned none ∷ ws) e a inv = inr (move_on e a begin_idle (omega arith))
  progress s (received j ∷ ws) e a inv = inr (move_on e a take_idle (omega arith))
  progress s (executing j ∷ ws) e a inv = inr (move_on e a execute (omega arith))
  progress s (executed ∷ ws) e a inv = inr (move_on e a put_idle (omega arith))
  progress s (closing ∷ ws) e a inv = inr (move_on e a count_out (omega arith))
  progress s (selecting ∷ ws) e a inv = inr (select_on s s.job_queue ws refl e a inv)
  progress s (leaving ∷ ws) e a (c, l, w) = inr (
    done s ws,
    leaves [] ws e,
    ground (arith, c.waited, ap length e),
    ground (arith, c.waited, ap length e, ap (total effort) e),
  )

  waits_out :
      {c : PoolConf} (fuel : ℕ) (s : Pool J)
      → pos_part c.max_number_of_worker < half32
      → Reach c s
      → Waiting s
      → work_left s < fuel
      → (t : Pool J) × Runs t s × (t.stopping ≡ false) × (length t.workers ≡ 0) × (t.starts ≡ 1)
  waits_out zero s h r a m = absurd (omega arith)
  waits_out (suc fuel) s h r a m =
      let inv = Reach-Inv h r a.2 in
      elim (progress s s.workers refl a inv) [
        | inl gone ↦ (
          record s { stopping = false },
          next a.2 (stop_returns a.0 gone) here,
          refl,
          sym inv.0.waited ∙ gone,
          a.1,
        )
        | inr (t, st, a', less) ↦
            let (u, rest, free, gone, one) = waits_out fuel t h (later r a.2 st) a' (omega arith) in
            (u, next a.2 st rest, free, gone, one)
      ]

  -- Wherever Stop waits in a pool that was started once, has not panicked, and has a maximum that fits
  -- an int32, the pool can run on to a state in which
  -- Stop has returned and no worker is left.
  pub stop_can_return :
      {c : PoolConf} (s : Pool J)
      → pos_part c.max_number_of_worker < half32
      → Reach c s
      → s.stopping ≡ true
      → s.starts ≡ 1
      → s.panicked ≡ false
      → (t : Pool J) × Runs t s × (t.stopping ≡ false) × (length t.workers ≡ 0) × (t.starts ≡ 1)
  stop_can_return s h r a b d = waits_out (suc (work_left s)) s h r (a, b, d) (omega arith)
