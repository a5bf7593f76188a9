-- ===== src/WorkerPool/Safety.antt =====
-- What holds of every pool of worker_pool/worker_pool.go that New makes, whatever its callers, its
-- workers and the scheduler do.
use jec.Prelude.{
  ℕ, ◌+◌, ◌-◌, ◌<◌, ◌≤◌, ◌≡◌, refl, sym, ap, ◌∙◌, inl, inr, ℤ, ◌<ℤ◌, pos, negsuc, pos_part, half32,
  add32, neg32, add32-pos, add32-sub, false, ltb, ltb→lt, Bool-cases, total-empty, List, [], ◌∷◌,
  length, length-append, total, arith,
}
use jec.Config.Types.{PoolConf}
use jec.WorkerPool.New.{new_conf, new_conf-IsValid}
use jec.WorkerPool.Counters.{number_of_available_worker}
use jec.WorkerPool.State.{
  Pool, Worker, executing, executed, leaving, start, stop, close_queue, add_initial_workers, new,
}
use jec.WorkerPool.Step.{
  Step, Reach, fresh, later, starts, stops, stop_returns, submits, advances, returns, moves, leaves,
  closes, done, default, claim, send_buffered, send_handover, send_panics, refuse_fixed,
  refuse_full, spawn,
}
use jec.WorkerPool.Invariant.Defs.{
  Counts, Life, Work, current_of, idle_of, counted, idle, claims, held,
}
use jec.WorkerPool.Invariant.Counts.{Step-Counts}
use jec.WorkerPool.Invariant.Frame.{Move-calm, Move-SameLife, Advance-SameLife, Return-SameLife}
use jec.WorkerPool.Invariant.Life.{Step-Life, busy}
use jec.WorkerPool.Invariant.Work.{Step-Work}

new_conf-int32 :
    (c : PoolConf)
    → pos_part c.max_number_of_worker < half32
    → pos_part (new_conf c).max_number_of_worker < half32
unfolding new_conf
new_conf-int32 c h = ground arith

available_of :
    (m : ℤ) (n i : ℕ)
    → n ≤ pos_part m
    → i ≤ n
    → pos 0 <ℤ m
    → pos_part m < half32
    → add32 (add32 m (neg32 (pos n))) (pos i) ≡ pos (pos_part m - n + i)
available_of (pos m) n i a b c d =
    ap (λ z. add32 z (pos i)) (add32-sub m n a d) ∙ add32-pos (m - n) i (omega arith)
available_of (negsuc m) n i a b c d = absurd (omega arith)

module _ {J : Type 0} where
  abbrev pub Inv : Pool J → Type 0
  Inv s = Counts s × Life s × Work s

  new-Inv : (c : PoolConf) → pos_part c.max_number_of_worker < half32 → Inv (new c)
  unfolding new
  new-Inv c h = (
    record {
      fits = record { valid = new_conf-IsValid c; int32 = new_conf-int32 c h };
      tracks = (ap pos (omega arith), ap pos (omega arith));
      capped = omega arith;
      waited = refl;
    },
    ground arith,
    record {
      conserved = λ k. omega arith;
      staffed = λ e. absurd (omega (arith, e));
      drained = λ h. absurd (omega (arith, h));
      unused = λ _. refl;
    },
  )

  -- Every state between two steps keeps the three invariants.
  pub Reach-Inv :
      {c : PoolConf} {s : Pool J}
      → pos_part c.max_number_of_worker < half32
      → Reach c s
      → s.panicked ≡ false
      → Inv s
  Reach-Inv {c} h fresh ok = new-Inv c h
  Reach-Inv h (later r ok st) ok' =
      let (counts, life, work) = Reach-Inv h r ok in
      (Step-Counts st life counts, Step-Life st ok' counts life, Step-Work st ok' counts life work)

  -- A worker between AddNumberOfIdleWorker(-1) and AddNumberOfIdleWorker(1).
  abbrev pub busy_with_job : Worker J → ℕ
  busy_with_job (executing _) = 1
  busy_with_job executed = 1
  busy_with_job _ = 0

  counted-split : (ws : List (Worker J)) → total counted ws ≡ total idle ws + total busy_with_job ws
  counted-split [] = omega arith
  counted-split (leaving ∷ ws) = omega (arith, counted-split ws)
  counted-split (executing j ∷ ws) = omega (arith, counted-split ws)
  counted-split (executed ∷ ws) = omega (arith, counted-split ws)
  counted-split (_ ∷ ws) = omega (arith, counted-split ws)

  -- With a maximum that fits an int32, in every reachable state the number that NumberOfAvailableWorker computes in int32 is the
  -- configured maximum less the workers that execute a job, which are at most that many.
  pub available_exact :
      {c : PoolConf} {s : Pool J}
      → pos_part c.max_number_of_worker < half32
      → Reach c s
      → s.panicked ≡ false
      → (number_of_available_worker s.pool_conf s.counters
          ≡ pos (pos_part s.pool_conf.max_number_of_worker - total busy_with_job s.workers))
        × (total busy_with_job s.workers ≤ pos_part s.pool_conf.max_number_of_worker)
  unfolding number_of_available_worker
  available_exact {s} h r ok =
      let (c, l, w) = Reach-Inv h r ok in
      let split = counted-split s.workers in
      let room = c.capped in
      (
        ap
              (λ z.
                add32 (add32 s.pool_conf.max_number_of_worker (neg32 z))
                  s.counters.number_of_idle_worker)
              c.tracks.0
            ∙ ap
                (λ z. add32 (add32 s.pool_conf.max_number_of_worker (neg32 (pos (current_of s)))) z)
                c.tracks.1
            ∙ available_of s.pool_conf.max_number_of_worker (current_of s) (idle_of s) c.capped
                (omega arith) c.fits.valid.some_worker c.fits.int32
            ∙ ap pos (omega arith),
        omega arith,
      )

  panics_not :
      {s t : Pool J} → Step s t → s.panicked ≡ false → Inv s → t.starts ≤ 1 → t.panicked ≡ false
  unfolding start stop close_queue done add_initial_workers
  panics_not (starts f e) ok inv h = ground arith
  panics_not (stops f e) ok (c, l, w) h = ground (arith, l.run_open)
  panics_not (stop_returns e f) ok inv h = ok
  panics_not (submits j f e) ok inv h = ok
  panics_not (advances us vs e (default d)) ok inv h = ok
  panics_not (advances us vs e (claim d g)) ok inv h = ok
  panics_not (returns us vs e (send_buffered d g)) ok inv h = ok
  panics_not (returns us vs e (send_handover xs ys d g k)) ok inv h = ok
  panics_not (returns us vs {p = p} e (send_panics d)) ok (c, l, w) h =
      cc (sym (l.quit_first d) ∙ l.run_open h (busy us vs p e l))
  panics_not (returns us vs e (refuse_fixed d)) ok inv h = ok
  panics_not (returns us vs e (refuse_full d g)) ok inv h = ok
  panics_not (returns us vs e spawn) ok inv h = ok
  panics_not (moves us vs e m) ok inv h = Move-calm m ∙ ok
  panics_not (leaves us vs e) ok (c, l, w) h =
      ground (arith, c.waited, ap length e, length-append us (leaving ∷ vs))
  panics_not (closes d e) ok (c, l, w) h = ground (arith, l.close_once)

  starts_mono : {s t : Pool J} → Step s t → s.starts ≤ t.starts
  unfolding start stop close_queue done add_initial_workers
  starts_mono (starts f e) = ground arith
  starts_mono (stops f e) = ground arith
  starts_mono (stop_returns e f) = omega arith
  starts_mono (submits j f e) = omega arith
  starts_mono (advances us vs e a) = omega (arith, (Advance-SameLife a).same_starts)
  starts_mono (returns us vs e r) = omega (arith, (Return-SameLife r).same_starts)
  starts_mono (moves us vs e m) = omega (arith, (Move-SameLife m).same_starts)
  starts_mono (leaves us vs e) = ground arith
  starts_mono (closes d e) = ground arith

  -- A pool that is started at most once, with a maximum that fits an int32, never panics: it sends on no closed channel, closes none
  -- twice, and its wait group stays at or above zero.
  pub started_once-no_panic :
      {c : PoolConf} {s : Pool J}
      → pos_part c.max_number_of_worker < half32
      → Reach c s
      → s.starts ≤ 1
      → s.panicked ≡ false
  unfolding new
  started_once-no_panic h fresh few = refl
  started_once-no_panic h (later r ok st) few = panics_not st ok (Reach-Inv h r ok) few

  unsubmitted : {s : Pool J} → Life s → s.is_running ≡ false → length s.submitters ≡ 0
  unsubmitted {s} l down = elim (Bool-cases (ltb 0 (length s.submitters))) [
    | inl some_left ↦ cc (sym down ∙ l.submit_runs (ltb→lt _ _ some_left))
    | inr none_left ↦ ground arith
  ]

  -- After Stop has returned, a pool that was started once, with a minimum of one worker or more and a
  -- maximum that fits an int32, has executed every job that
  -- Submit accepted, each as often as it was accepted (the counts agree under every weight `k` of jobs), and has no
  -- worker left.
  pub stopped-all_executed :
      {c : PoolConf} {s : Pool J} (k : J → ℕ)
      → pos_part c.max_number_of_worker < half32
      → Reach c s
      → s.starts ≡ 1
      → s.is_running ≡ false
      → s.stopping ≡ false
      → 0 < pos_part s.pool_conf.min_number_of_worker
      → (total k s.executions ≡ total k s.accepted) × (length s.workers ≡ 0)
  stopped-all_executed {s} k h r one down free min_pos =
      let ok = started_once-no_panic h r (omega arith) in
      let (c, l, w) = Reach-Inv h r ok in
      let gone = l.stop_empties down free in
      let unmanned = total-empty counted s.workers gone in
      let quiet = unsubmitted l down in
      let unclaimed = total-empty claims s.submitters quiet in
      let drained : length s.job_queue ≡ 0 = ground (arith, w.staffed one) in
      (
        omega (
          arith,
          w.conserved k,
          total-empty (held k) s.workers gone,
          total-empty k s.job_queue drained,
        ),
        gone,
      )
