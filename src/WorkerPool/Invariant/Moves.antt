-- ===== src/WorkerPool/Invariant/Moves.antt =====
-- The counters of worker_pool/worker_pool.go after a step of a worker.
use jec.Prelude.{
  ℕ, ◌+◌, ◌-◌, ◌<◌, ◌≤◌, ◌≡◌, ap, ◌∙◌, pos, half32, List, [], ◌∷◌, ◌++◌, length, length-append,
  total, total-append, arith, add32-pos, add32-pred,
}
use jec.WorkerPool.Counters.{
  Counters, add_number_of_current_and_idle_worker, add_number_of_idle_worker,
  compare_and_decrement_current_worker,
}
use jec.WorkerPool.State.{Pool, Worker, spawned, leaving, Submitter, entered}
use jec.WorkerPool.Step.{
  Move, begin_job, begin_idle, take_idle, execute, put_idle, receive, see_closed, tick_stay,
  tick_leave, count_out,
}
use jec.WorkerPool.Invariant.Defs.{Counts, Tracks, counted, idle, claims, current_of, idle_of}

pub Tracks-eq : {c : Counters} {n m i j : ℕ} → Tracks c n i → n ≡ m → i ≡ j → Tracks c m j
Tracks-eq h e f = (h.0 ∙ ap pos e, h.1 ∙ ap pos f)

module _ {J : Type 0} where
  -- A worker's step keeps both counters exact, relative to the other workers.
  pub Move-Tracks :
      {s t : Pool J} {w x : Worker J} (n i : ℕ)
      → Move s w x t
      → Tracks s.counters n i
      → counted w ≤ n
      → n < half32
      → i + counted w ≤ n + idle w
      → idle w ≤ i
      → Tracks t.counters (n + counted x - counted w) (i + idle x - idle w)
  unfolding add_number_of_current_and_idle_worker add_number_of_idle_worker
      compare_and_decrement_current_worker
  Move-Tracks n i begin_job h a b c d = ground arith
  Move-Tracks n i begin_idle h a b c d = ground arith
  Move-Tracks n i take_idle h a b c d = ground (arith, add32-pred i)
  Move-Tracks n i execute h a b c d = ground arith
  Move-Tracks n i put_idle h a b c d = ground (arith, add32-pos i 1)
  Move-Tracks n i (receive e) h a b c d = ground arith
  Move-Tracks n i (see_closed e f) h a b c d = ground arith
  Move-Tracks n i (tick_stay e f) h a b c d = ground arith
  Move-Tracks n i (tick_leave e f) h a b c d = ground (arith, add32-pred n, add32-pred i)
  Move-Tracks n i (count_out) h a b c d = ground (arith, add32-pred n, add32-pred i)

  idle-le-counted : (w : Worker J) → idle w ≤ counted w
  idle-le-counted (spawned _) = omega arith
  idle-le-counted _ = omega arith

  pub total-idle-le : (ws : List (Worker J)) → total idle ws ≤ total counted ws
  total-idle-le [] = omega arith
  total-idle-le (w ∷ ws) = omega (arith, idle-le-counted w, total-idle-le ws)

  pub total-counted-le : (ws : List (Worker J)) → total counted ws ≤ length ws
  total-counted-le [] = omega arith
  total-counted-le (spawned _ ∷ ws) = omega (arith, total-counted-le ws)
  total-counted-le (leaving ∷ ws) = omega (arith, total-counted-le ws)
  total-counted-le (_ ∷ ws) = omega (arith, total-counted-le ws)

  total-claims-le : (ps : List (Submitter J)) → total claims ps ≤ length ps
  total-claims-le [] = omega arith
  total-claims-le (entered _ ∷ ps) = omega (arith, total-claims-le ps)
  total-claims-le (_ ∷ ps) = omega (arith, total-claims-le ps)

  pub Move-keeps :
      {s t : Pool J} {w x : Worker J}
      → Move s w x t
      → (t.pool_conf ≡ s.pool_conf)
        × (t.workers_wg ≡ s.workers_wg)
        × (t.submitters ≡ s.submitters)
        × (counted x ≤ counted w)
        × (counted w ≡ 1)
  Move-keeps begin_job = ground arith
  Move-keeps begin_idle = ground arith
  Move-keeps take_idle = ground arith
  Move-keeps execute = ground arith
  Move-keeps put_idle = ground arith
  Move-keeps (receive e) = ground arith
  Move-keeps (see_closed e f) = ground arith
  Move-keeps (tick_stay e f) = ground arith
  Move-keeps (tick_leave e f) = ground arith
  Move-keeps count_out = ground arith

  pub Move-Counts :
      {s t : Pool J} (us vs : List (Worker J)) {w x : Worker J}
      → s.workers ≡ us ++ w ∷ vs
      → Move s w x t
      → Counts s
      → Counts (record t { workers = us ++ x ∷ vs })
  Move-Counts {s} {t} us vs {w} {x} e m c =
      let (conf, wg, subs, fewer, one) = Move-keeps m in
      let all = ap (total counted) e ∙ total-append counted us (w ∷ vs) in
      let idles = ap (total idle) e ∙ total-append idle us (w ∷ vs) in
      let all' = total-append counted us (x ∷ vs) in
      let idles' = total-append idle us (x ∷ vs) in
      let moved =
        Move-Tracks (current_of s) (idle_of s) m c.tracks (omega arith) (omega arith)
          (omega (arith, total-idle-le us, total-idle-le vs, total-idle-le s.workers))
          (omega arith) in
      record {
        fits = rw conf c.fits;
        tracks =
            Tracks-eq moved (omega (arith, ap (total claims) subs))
              (omega (arith, ap (total claims) subs));
        capped = rw (conf, subs) (omega arith);
        waited = rw wg (
            omega
              (arith, c.waited, ap length e, length-append us (w ∷ vs), length-append us (x ∷ vs)));
      }
