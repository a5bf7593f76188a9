-- ===== src/WorkerPool/Invariant/Counts.antt =====
-- The counters of worker_pool/worker_pool.go agree with the workers, after every step.
use jec.Prelude.{
  ◌<◌, ◌≤◌, ◌≡◌, refl, inl, inr, Bool-cases, ap, ◌∙◌, ℤ, ◌≤ℤ◌, add32, pos, negsuc, pos_part, half32,
  false, List, [], ◌∷◌, ◌++◌, none, length, length-append, total, total-append, total-replicate,
  length-replicate, replicate, arith, add32-pos,
}
use jec.WorkerPool.Counters.{add_number_of_current_and_idle_worker}
use jec.WorkerPool.State.{
  Pool, Worker, spawned, leaving, start, stop, close_queue, add_initial_workers,
}
use jec.WorkerPool.Step.{
  Step, starts, stops, stop_returns, submits, advances, returns, moves, leaves, closes, done,
}
use jec.WorkerPool.Invariant.Defs.{Counts, Life, counted, idle, claims}
use jec.WorkerPool.Invariant.Moves.{total-idle-le, total-counted-le, Move-Counts}
use jec.WorkerPool.Invariant.Submits.{Counts-eq, Advance-Counts, Return-Counts}

add32-nonneg : (z : ℤ) → pos 0 ≤ℤ z → pos_part z < half32 → add32 (pos 0) z ≡ pos (pos_part z)
add32-nonneg (pos n) h k = add32-pos 0 n (omega arith) ∙ ap pos (omega arith)
add32-nonneg (negsuc n) h k = absurd (omega arith)

pos_part_mono : (a b : ℤ) → a ≤ℤ b → pos_part a ≤ pos_part b
pos_part_mono (pos a) (pos b) h = omega arith
pos_part_mono (pos a) (negsuc b) h = omega arith
pos_part_mono (negsuc a) b h = omega arith

module _ {J : Type 0} where
  leaves-Counts :
      {s : Pool J} (us vs : List (Worker J))
      → s.workers ≡ us ++ leaving ∷ vs
      → Counts s
      → Counts (done s (us ++ vs))
  unfolding done
  leaves-Counts {s} us vs e c = ground (
    arith,
    ap (total counted) e,
    ap (total idle) e,
    ap length e,
    total-append counted us (leaving ∷ vs),
    total-append counted us vs,
    total-append idle us (leaving ∷ vs),
    total-append idle us vs,
    length-append us (leaving ∷ vs),
    length-append us vs,
  )

  add_initial-Counts :
      {s : Pool J}
      → s.submitters ≡ []
      → length s.workers ≡ 0
      → Counts s
      → Counts (add_initial_workers s.pool_conf.min_number_of_worker s)
  unfolding add_initial_workers add_number_of_current_and_idle_worker
  add_initial-Counts {s} e none_left c =
      let m = pos_part s.pool_conf.min_number_of_worker in
      let start_worker : Worker J = spawned none in
      let v = c.fits.valid in
      let few = c.fits.int32 in
      let fresh = total-replicate counted m start_worker refl in
      let fresh_idle = total-replicate idle m start_worker refl in
      let min_fits =
        pos_part_mono s.pool_conf.min_number_of_worker s.pool_conf.max_number_of_worker
          v.min_le_max in
      let min_pos = v.min_nonneg in
      let all = total-append counted (replicate m (spawned none)) s.workers in
      let idles = total-append idle (replicate m (spawned none)) s.workers in
      let unclaimed = ap (total claims) e in
      let unmanned = total-counted-le s.workers in
      let unmanned_idle = total-idle-le s.workers in
      record {
        fits = c.fits;
        tracks = (
          ap (λ z. add32 z s.pool_conf.min_number_of_worker) (c.tracks.0 ∙ ap pos (omega arith))
              ∙ add32-nonneg s.pool_conf.min_number_of_worker min_pos (omega arith)
              ∙ ap pos (omega arith),
          ap (λ z. add32 z s.pool_conf.min_number_of_worker) (c.tracks.1 ∙ ap pos (omega arith))
              ∙ add32-nonneg s.pool_conf.min_number_of_worker min_pos (omega arith)
              ∙ ap pos (omega arith),
        );
        capped = omega arith;
        waited = omega (
          arith,
          c.waited,
          length-append (replicate m (spawned none)) s.workers,
          length-replicate m start_worker,
        );
      }

  start-Counts :
      (s : Pool J) → s.submitters ≡ [] → s.stopping ≡ false → Life s → Counts s → Counts (start s).0
  unfolding start
  start-Counts s e f l c = elim (Bool-cases s.is_running) [
    | inl up ↦ simp up c
    | inr down ↦
        simp down
          (add_initial-Counts e (l.stop_empties down f) (Counts-eq c refl refl refl refl c.waited))
  ]

  close_queue-Counts : (s : Pool J) → Counts s → Counts (close_queue s)
  unfolding close_queue
  close_queue-Counts s c = elim (Bool-cases s.job_queue_closed) [
    | inl up ↦ simp up (Counts-eq c refl refl refl refl c.waited)
    | inr down ↦ simp down (Counts-eq c refl refl refl refl c.waited)
  ]

  stop-Counts : (s : Pool J) → Counts s → Counts (stop s).0
  unfolding stop
  stop-Counts s c = ground arith

  pub Step-Counts : {s t : Pool J} → Step s t → Life s → Counts s → Counts t
  Step-Counts {s} (starts f e) l c = start-Counts s e f l c
  Step-Counts (stops f e) l c = stop-Counts _ c
  Step-Counts (stop_returns e f) l c = Counts-eq c refl refl refl refl c.waited
  Step-Counts (submits j f e) l c = Counts-eq c refl refl (omega arith) (omega arith) c.waited
  Step-Counts (advances us vs e a) l c = Advance-Counts us vs e a c
  Step-Counts (returns us vs e r) l c = Return-Counts us vs e r c
  Step-Counts (moves us vs e m) l c = Move-Counts us vs e m c
  Step-Counts (leaves us vs e) l c = leaves-Counts us vs e c
  Step-Counts (closes h e) l c = close_queue-Counts _ c
