-- ===== src/WorkerPool/Invariant/Work.antt =====
-- No job of worker_pool/worker_pool.go is lost or executed twice, after every step.
use jec.Prelude.{
  ◌≡◌, Bool-cases, inl, inr, refl, sym, ap, ◌∙◌, pos_part, true, false, List, [], ◌∷◌, ◌++◌, none,
  length, total, total-append, total-replicate, total-replicate_zero, replicate, arith,
}
use jec.WorkerPool.State.{
  Pool, Worker, spawned, leaving, start, stop, close_queue, add_initial_workers,
}
use jec.WorkerPool.Step.{
  Step, starts, stops, stop_returns, submits, advances, returns, moves, leaves, done,
}
use jec.WorkerPool.Invariant.Defs.{Counts, Life, Work, counted, closes, held}
use jec.WorkerPool.Invariant.Jobs.{Move-Work, Advance-Work, Return-Work}

module _ {J : Type 0} where
  abbrev SameWork : Pool J → Pool J → Type 0
  SameWork s t =
      (t.pool_conf ≡ s.pool_conf)
      × (t.accepted ≡ s.accepted)
      × (t.executions ≡ s.executions)
      × (t.job_queue ≡ s.job_queue)
      × (t.workers ≡ s.workers)
      × (t.submitters ≡ s.submitters)
      × (t.starts ≡ s.starts)
      × (s.job_queue_closed ≡ true → t.job_queue_closed ≡ true)

  -- `Work` speaks of these parts alone, and closing the job queue keeps it.
  Work-eq : {s t : Pool J} → SameWork s t → Work s → Work t
  Work-eq (conf, acc, exe, que, wor, sub, sta, shut) h = record {
    conserved = λ k. rw (acc, exe, que, wor) (h.conserved k);
    staffed = λ one. rw (conf, que, wor, sub) (ground (arith, h.staffed (sym sta ∙ one), shut));
    drained = λ some_closing. ground (arith, h.drained, ap (total closes) wor, ap length que, shut);
    unused = λ z. ap length que ∙ h.unused (sym sta ∙ z);
  }

  drop-Work :
      {s : Pool J} (us vs : List (Worker J))
      → s.workers ≡ us ++ leaving ∷ vs
      → Work s
      → Work (record s { workers = us ++ vs })
  drop-Work {s} us vs e h =
      let all = ap (total counted) e ∙ total-append counted us (leaving ∷ vs) in
      let all' = total-append counted us vs in
      let shut = ap (total closes) e ∙ total-append closes us (leaving ∷ vs) in
      let shut' = total-append closes us vs in
      record {
        conserved = λ k. omega (
          arith,
          h.conserved k,
          ap (total (held k)) e,
          total-append (held k) us (leaving ∷ vs),
          total-append (held k) us vs,
        );
        staffed = λ one. ground (arith, h.staffed one);
        drained = λ some_closing. ground (arith, h.drained);
        unused = h.unused;
      }

  leaves-Work :
      {s : Pool J} (us vs : List (Worker J))
      → s.workers ≡ us ++ leaving ∷ vs
      → Work s
      → Work (done s (us ++ vs))
  unfolding done
  leaves-Work {s} us vs e h = Work-eq (ground arith) (drop-Work us vs e h)

  start-Work :
      (s : Pool J)
      → s.submitters ≡ []
      → s.stopping ≡ false
      → Life s
      → Counts s
      → Work s
      → Work (start s).0
  unfolding start add_initial_workers
  start-Work s e f l c h =
      let m = pos_part s.pool_conf.min_number_of_worker in
      let start_worker : Worker J = spawned none in
      let all = total-append counted (replicate m start_worker) s.workers in
      let fresh = total-replicate counted m start_worker refl in
      let shut = total-append closes (replicate m start_worker) s.workers in
      let fresh_shut = total-replicate_zero closes m start_worker refl in
      elim (Bool-cases s.is_running) [
        | inl up ↦ simp up h
        | inr down ↦ simp down (record {
          conserved = λ k. omega (
            arith,
            h.conserved k,
            total-append (held k) (replicate m start_worker) s.workers,
            total-replicate_zero (held k) m start_worker refl,
          );
          staffed = λ one. inl (omega arith);
          drained = λ some_closing. ground (arith, h.drained);
          unused = λ z. absurd (omega (arith, z));
        })
      ]

  stop-Work : (s : Pool J) → Work s → Work (stop s).0
  unfolding stop
  stop-Work s h = Work-eq (ground arith) h

  close_queue-Work : (s : Pool J) → (close_queue s).panicked ≡ false → Work s → Work (close_queue s)
  unfolding close_queue
  close_queue-Work s ok h = Work-eq (ground arith) h

  pub Step-Work :
      {s t : Pool J} → Step s t → t.panicked ≡ false → Counts s → Life s → Work s → Work t
  Step-Work {s} (starts f e) ok c l h = start-Work s e f l c h
  Step-Work {s} (stops f e) ok c l h = stop-Work s h
  Step-Work (stop_returns e f) ok c l h = record {
    conserved = h.conserved;
    staffed = h.staffed;
    drained = h.drained;
    unused = h.unused;
  }
  Step-Work (submits j f e) ok c l h = record {
    conserved = h.conserved;
    staffed = λ one. ground (arith, h.staffed one);
    drained = h.drained;
    unused = h.unused;
  }
  Step-Work (advances us vs e a) ok c l h = Advance-Work us vs e a h
  Step-Work (returns us vs e r) ok c l h = Return-Work us vs e r l h
  Step-Work (moves us vs e m) ok c l h = Move-Work us vs e m c h
  Step-Work (leaves us vs e) ok c l h = leaves-Work us vs e h
  Step-Work {s} (Step.closes d e) ok c l h = close_queue-Work s ok h
