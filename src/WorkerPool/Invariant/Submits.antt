-- ===== src/WorkerPool/Invariant/Submits.antt =====
-- The counters of worker_pool/worker_pool.go after a step of a call of Submit.
use jec.Prelude.{
  ℕ, ◌+◌, ◌≤◌, ◌≡◌, refl, sym, ap, ◌∙◌, pos_part, List, ◌∷◌, ◌++◌, length, length-append, total,
  total-append, arith, add32-pos,
}
use jec.WorkerPool.Counters.{compare_and_increment_current_worker}
use jec.WorkerPool.State.{Pool, selecting, received, Submitter}
use jec.WorkerPool.Step.{
  Advance, default, claim, Return, send_buffered, send_handover, send_panics, refuse_fixed,
  refuse_full, spawn,
}
use jec.WorkerPool.Invariant.Defs.{Counts, Fits, Tracks, counted, idle, claims, current_of, idle_of}
use jec.WorkerPool.Invariant.Moves.{Tracks-eq, total-idle-le}

module _ {J : Type 0} where
  pub Advance-keeps :
      {s t : Pool J} {p q : Submitter J}
      → Advance s p q t
      → (t.pool_conf ≡ s.pool_conf)
        × (t.workers_wg ≡ s.workers_wg)
        × (t.workers ≡ s.workers)
        × (claims p ≡ 0)
  Advance-keeps (default h) = ground arith
  Advance-keeps (claim e f) = ground arith

  -- A claim is made only below the maximum.
  Advance-Tracks :
      {s t : Pool J} {p q : Submitter J} (n i : ℕ)
      → Advance s p q t
      → Fits s.pool_conf
      → Tracks s.counters n i
      → i ≤ n
      → n ≤ pos_part s.pool_conf.max_number_of_worker
      → Tracks t.counters (n + claims q) (i + claims q)
        × (n + claims q ≤ pos_part s.pool_conf.max_number_of_worker)
  unfolding compare_and_increment_current_worker
  Advance-Tracks n i (default h) fits tr a b = ground arith
  Advance-Tracks n i (claim e f) fits tr a b =
      let small = fits.int32 in ground (arith, add32-pos n 1, add32-pos i 1)

  pub Advance-Counts :
      {s t : Pool J} (us vs : List (Submitter J)) {p q : Submitter J}
      → s.submitters ≡ us ++ p ∷ vs
      → Advance s p q t
      → Counts s
      → Counts (record t { submitters = us ++ q ∷ vs })
  Advance-Counts {s} {t} us vs {p} {q} e m c =
      let (conf, wg, ws, unclaimed) = Advance-keeps m in
      let before = ap (total claims) e ∙ total-append claims us (p ∷ vs) in
      let after = total-append claims us (q ∷ vs) in
      let (moved, capped) =
        Advance-Tracks (current_of s) (idle_of s) m c.fits c.tracks
          (omega (arith, total-idle-le s.workers)) c.capped in
      record {
        fits = rw conf c.fits;
        tracks =
            Tracks-eq moved (omega (arith, ap (total counted) ws))
              (omega (arith, ap (total idle) ws));
        capped = rw (conf, ws) (omega arith);
        waited = rw (wg, ws) c.waited;
      }

  -- A submitter that returns leaves its claim to a new worker, or its job to one that was idle.
  pub Return-keeps :
      {s t : Pool J} {p : Submitter J}
      → Return s p t
      → (t.pool_conf ≡ s.pool_conf)
        × (t.counters ≡ s.counters)
        × (t.submitters ≡ s.submitters)
        × (total counted t.workers ≡ total counted s.workers + claims p)
        × (total idle t.workers ≡ total idle s.workers + claims p)
        × (t.workers_wg + length s.workers ≡ s.workers_wg + length t.workers)
  Return-keeps (send_buffered h k) = ground arith
  Return-keeps {s} (send_handover {j = j} xs ys h k e) = (
    refl,
    refl,
    refl,
    omega (
      arith,
      ap (total counted) e,
      total-append counted xs (selecting ∷ ys),
      total-append counted xs (received j ∷ ys),
    ),
    omega (
      arith,
      ap (total idle) e,
      total-append idle xs (selecting ∷ ys),
      total-append idle xs (received j ∷ ys),
    ),
    omega
        (arith, ap length e, length-append xs (selecting ∷ ys), length-append xs (received j ∷ ys)),
  )
  Return-keeps (send_panics h) = ground arith
  Return-keeps (refuse_fixed h) = ground arith
  Return-keeps (refuse_full h k) = ground arith
  Return-keeps spawn = (refl, refl, refl, omega arith, omega arith, omega arith)

  -- The counters stay exact where the same number of workers is counted.
  pub Counts-eq :
      {s t : Pool J}
      → Counts s
      → t.pool_conf ≡ s.pool_conf
      → t.counters ≡ s.counters
      → current_of t ≡ current_of s
      → idle_of t ≡ idle_of s
      → t.workers_wg ≡ length t.workers
      → Counts t
  Counts-eq c conf counters n i wg = record {
    fits = rw conf c.fits;
    tracks = rw counters (Tracks-eq c.tracks (sym n) (sym i));
    capped = rw (conf, n) c.capped;
    waited = wg;
  }

  pub Return-Counts :
      {s t : Pool J} (us vs : List (Submitter J)) {p : Submitter J}
      → s.submitters ≡ us ++ p ∷ vs
      → Return s p t
      → Counts s
      → Counts (record t { submitters = us ++ vs })
  Return-Counts {s} us vs {p} e r c =
      let (conf, counters, subs, all, idles, wg) = Return-keeps r in
      let before = ap (total claims) e ∙ total-append claims us (p ∷ vs) in
      let after = total-append claims us vs in
      Counts-eq c conf counters (omega arith) (omega arith) (omega (arith, c.waited))
