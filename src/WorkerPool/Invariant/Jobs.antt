-- ===== src/WorkerPool/Invariant/Jobs.antt =====
-- Where the jobs of worker_pool/worker_pool.go go in a step of a worker or of a call of Submit.
use jec.Prelude.{
  ℕ, suc, ◌+◌, ◌≤◌, ◌≡◌, ◌⊎◌, inl, inr, refl, sym, ap, ◌∙◌, pos, ◌≤ℤ◌, pos_part, true, false, List,
  [], ◌∷◌, ◌++◌, length, total, total-append, arith,
}
use jec.Config.Types.{PoolConf}
use jec.WorkerPool.Counters.{compare_and_decrement_current_worker}
use jec.WorkerPool.State.{Pool, Worker, selecting, received, Submitter}
use jec.WorkerPool.Step.{
  Move, begin_job, begin_idle, take_idle, execute, put_idle, receive, see_closed, tick_stay,
  tick_leave, count_out, Advance, default, claim, Return, send_buffered, send_handover, send_panics,
  refuse_fixed, refuse_full, spawn,
}
use jec.WorkerPool.Invariant.Defs.{Counts, Life, Work, Tracks, counted, closes, held, claims}
use jec.WorkerPool.Invariant.Moves.{Move-keeps}
use jec.WorkerPool.Invariant.Submits.{Return-keeps}
use jec.WorkerPool.Invariant.Frame.{Move-SameLife, Return-SameLife}
use jec.WorkerPool.Invariant.Life.{busy}

module _ {J : Type 0} where
  Move-conserved :
      {s t : Pool J} {w x : Worker J} (k : J → ℕ)
      → Move s w x t
      → (t.accepted ≡ s.accepted)
        × (total k t.executions + total k t.job_queue + held k x
            ≡ total k s.executions + total k s.job_queue + held k w)
  Move-conserved k begin_job = ground arith
  Move-conserved k begin_idle = ground arith
  Move-conserved k take_idle = ground arith
  Move-conserved k execute = (refl, omega arith)
  Move-conserved k put_idle = ground arith
  Move-conserved k (receive e) = (refl, omega (arith, ap (total k) e))
  Move-conserved k (see_closed e f) = ground arith
  Move-conserved k (tick_stay e f) = ground arith
  Move-conserved k (tick_leave e f) = ground arith
  Move-conserved k count_out = ground arith

  -- What a worker's step does to the queue, and when it may leave.
  Move-queue :
      {s t : Pool J} {w x : Worker J} (n i : ℕ)
      → Move s w x t
      → Tracks s.counters n i
      → pos 0 ≤ℤ s.pool_conf.min_number_of_worker
      → (length t.job_queue ≤ length s.job_queue)
        × (closes x ≤ closes w ⊎ (s.job_queue_closed ≡ true) × (length s.job_queue ≡ 0))
        × (counted x ≡ 1 ⊎ (suc (pos_part s.pool_conf.min_number_of_worker) ≤ n) ⊎ (closes w ≡ 1))
  unfolding compare_and_decrement_current_worker
  Move-queue n i begin_job h v = ground arith
  Move-queue n i begin_idle h v = ground arith
  Move-queue n i take_idle h v = ground arith
  Move-queue n i execute h v = ground arith
  Move-queue n i put_idle h v = ground arith
  Move-queue n i (receive e) h v = (omega (arith, ap length e), ground arith, ground arith)
  Move-queue n i (see_closed e f) h v = ground (arith, ap length e)
  Move-queue n i (tick_stay e f) h v = ground arith
  Move-queue n i (tick_leave e f) h v = ground arith
  Move-queue n i count_out h v = ground arith

  pub Move-Work :
      {s t : Pool J} (us vs : List (Worker J)) {w x : Worker J}
      → s.workers ≡ us ++ w ∷ vs
      → Move s w x t
      → Counts s
      → Work s
      → Work (record t { workers = us ++ x ∷ vs })
  Move-Work {s} {t} us vs {w} {x} e m c h =
      let f = Move-SameLife m in
      let keeps = Move-keeps m in
      let queue = Move-queue _ _ m c.tracks c.fits.valid.min_nonneg in
      let all = ap (total counted) e ∙ total-append counted us (w ∷ vs) in
      let all' = total-append counted us (x ∷ vs) in
      let shut = ap (total closes) e ∙ total-append closes us (w ∷ vs) in
      let shut' = total-append closes us (x ∷ vs) in
      let claimed_same = ap (total claims) keeps.2 in
      let closed_same = f.same_closed in
      let min_same = ap (λ (c : PoolConf). pos_part c.min_number_of_worker) f.same_conf in
      record {
        conserved = λ k.
            let move = Move-conserved k m in
            omega (
              arith,
              h.conserved k,
              ap (total k) move.0,
              move.1,
              ap (total (held k)) e,
              total-append (held k) us (w ∷ vs),
              total-append (held k) us (x ∷ vs),
            );
        staffed = λ one. ground (arith, h.staffed (sym f.same_starts ∙ one), h.drained);
        drained = λ some_closing. ground (arith, h.drained);
        unused = λ z. omega (arith, h.unused (sym f.same_starts ∙ z), queue.0);
      }

  pub Advance-Work :
      {s t : Pool J} (us vs : List (Submitter J)) {p q : Submitter J}
      → s.submitters ≡ us ++ p ∷ vs
      → Advance s p q t
      → Work s
      → Work (record t { submitters = us ++ q ∷ vs })
  Advance-Work {s} us vs {p} {q} e (default d) h =
      let before = ap (total claims) e ∙ total-append claims us (p ∷ vs) in
      let after = total-append claims us (q ∷ vs) in
      record {
        conserved = h.conserved;
        staffed = λ one. ground (arith, h.staffed one);
        drained = h.drained;
        unused = h.unused;
      }
  Advance-Work {s} us vs {p} {q} e (claim d g) h =
      let before = ap (total claims) e ∙ total-append claims us (p ∷ vs) in
      let after = total-append claims us (q ∷ vs) in
      record {
        conserved = h.conserved;
        staffed = λ one. ground (arith, h.staffed one);
        drained = h.drained;
        unused = h.unused;
      }

  -- What the end of a call of Submit does to the jobs: an accepted job is in the queue or with a
  -- worker, and the queue is filled only while it is open.
  Return-jobs :
      {s t : Pool J} {p : Submitter J} (k : J → ℕ)
      → Return s p t
      → (total k t.accepted + total k s.executions + total k s.job_queue + total (held k) s.workers
          ≡ total k s.accepted
            + total k t.executions
            + total k t.job_queue
            + total (held k) t.workers)
        × (total closes t.workers ≡ total closes s.workers)
        × ((length t.job_queue ≡ length s.job_queue) ⊎ (s.job_queue_closed ≡ false))
  Return-jobs {s} k (send_buffered {j = j} c l) =
      (omega (arith, total-append k s.job_queue (j ∷ [])), refl, inr c)
  Return-jobs k (send_handover {j = j} xs ys c q e) = (
    omega (
      arith,
      ap (total (held k)) e,
      total-append (held k) xs (selecting ∷ ys),
      total-append (held k) xs (received j ∷ ys),
    ),
    omega (
      arith,
      ap (total closes) e,
      total-append closes xs (selecting ∷ ys),
      total-append closes xs (received j ∷ ys),
    ),
    inl refl,
  )
  Return-jobs k (send_panics c) = (omega arith, refl, inl refl)
  Return-jobs k (refuse_fixed c) = (omega arith, refl, inl refl)
  Return-jobs k (refuse_full c d) = (omega arith, refl, inl refl)
  Return-jobs k spawn = (omega arith, omega arith, inl refl)

  pub Return-Work :
      {s t : Pool J} (us vs : List (Submitter J)) {p : Submitter J}
      → s.submitters ≡ us ++ p ∷ vs
      → Return s p t
      → Life s
      → Work s
      → Work (record t { submitters = us ++ vs })
  Return-Work {s} us vs {p} e r l h =
      let f = Return-SameLife r in
      let keeps = Return-keeps r in
      let jobs = Return-jobs (λ _. 0) r in
      let before = ap (total claims) e ∙ total-append claims us (p ∷ vs) in
      let after = total-append claims us vs in
      let up = busy us vs p e l in
      let closed_same = f.same_closed in
      let min_same = ap (λ (c : PoolConf). pos_part c.min_number_of_worker) f.same_conf in
      record {
        conserved = λ k. omega (arith, h.conserved k, (Return-jobs k r).0);
        staffed = λ one. ground (arith, h.staffed (sym f.same_starts ∙ one));
        drained = λ some_closing. ground (arith, h.drained);
        unused = λ z. cc (sym up ∙ (l.unstarted (sym f.same_starts ∙ z)).0);
      }
