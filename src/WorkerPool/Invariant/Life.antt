-- ===== src/WorkerPool/Invariant/Life.antt =====
-- The order of Start, Stop and the closes of worker_pool/worker_pool.go is kept by every step that
-- does not panic.
use jec.Prelude.{
  ◌<◌, ◌≡◌, sym, ap, ◌∙◌, true, false, none, List, [], ◌∷◌, ◌++◌, length, length-append, arith,
}
use jec.WorkerPool.State.{
  Pool, Worker, leaving, Submitter, entered, start, stop, close_queue, admit, add_initial_workers,
}
use jec.WorkerPool.Step.{
  Step, starts, stops, stop_returns, submits, advances, returns, moves, leaves, closes, done,
}
use jec.WorkerPool.Invariant.Defs.{Life, Counts}
use jec.WorkerPool.Invariant.Moves.{Move-keeps}
use jec.WorkerPool.Invariant.Submits.{Advance-keeps}
use jec.WorkerPool.Invariant.Frame.{SameLife, Move-SameLife, Advance-SameLife, Return-SameLife}

module _ {J : Type 0} where
  -- The life cycle speaks of the two lists only by whether they are empty.
  Life-eq :
      {s t : Pool J}
      → SameLife s t
      → (0 < length t.submitters → 0 < length s.submitters)
      → (s.is_running ≡ false → s.stopping ≡ false → length t.workers ≡ 0)
      → Life s
      → Life t
  Life-eq f subs ws l = record {
    stop_locks = λ e. f.same_running ∙ l.stop_locks (sym f.same_stopping ∙ e);
    submit_runs = λ h. f.same_running ∙ l.submit_runs (subs h);
    stop_empties = λ e g. ws (sym f.same_running ∙ e) (sym f.same_stopping ∙ g);
    quit_first = λ e. f.same_quit ∙ l.quit_first (sym f.same_closed ∙ e);
    runners_le = omega (arith, f.same_runners, f.same_starts, l.runners_le);
    run_open =
        λ h e. f.same_quit ∙ l.run_open (omega (arith, f.same_starts)) (sym f.same_running ∙ e);
    unstarted = λ h.
        let (down, shut) = l.unstarted (sym f.same_starts ∙ h) in
        (f.same_running ∙ down, f.same_quit ∙ shut);
    stop_quits = λ e. f.same_quit ∙ l.stop_quits (sym f.same_stopping ∙ e);
    close_due = λ e. ground (arith, l.close_due (sym f.same_starts ∙ e));
    close_once =
        λ h e. f.same_runners ∙ l.close_once (omega (arith, f.same_starts)) (sym f.same_closed ∙ e);
  }

  start-Life : (s : Pool J) → s.submitters ≡ [] → s.stopping ≡ false → Life s → Life (start s).0
  unfolding start add_initial_workers
  start-Life s e f l = grind arith

  stop-Life :
      (s : Pool J) → s.submitters ≡ [] → (stop s).0.panicked ≡ false → Life s → Life (stop s).0
  unfolding stop
  stop-Life s e f l = grind arith

  close_queue-Life :
      (s : Pool J) → 0 < s.runners → s.quit_closed ≡ true → Life s → Life (close_queue s)
  unfolding close_queue
  close_queue-Life s e f l = grind arith

  submits-Life :
      (s : Pool J) {j : J}
      → admit s ≡ none
      → Life s
      → Life (record s { submitters = entered j ∷ s.submitters })
  unfolding admit
  submits-Life s e l = ground arith

  -- While a call of Submit is under way the pool runs.
  pub busy :
      {s : Pool J} (us vs : List (Submitter J)) (p : Submitter J)
      → s.submitters ≡ us ++ p ∷ vs
      → Life s
      → s.is_running ≡ true
  busy us vs p e l = l.submit_runs (omega (arith, ap length e, length-append us (p ∷ vs)))

  leaves-Life :
      {s : Pool J} (us vs : List (Worker J))
      → s.workers ≡ us ++ leaving ∷ vs
      → Life s
      → Life (done s (us ++ vs))
  unfolding done
  leaves-Life us vs e l =
      ground (arith, ap length e, length-append us (leaving ∷ vs), length-append us vs)

  pub Step-Life : {s t : Pool J} → Step s t → t.panicked ≡ false → Counts s → Life s → Life t
  Step-Life {s} (starts f e) ok c l = start-Life s e f l
  Step-Life {s} (stops f e) ok c l = stop-Life s e ok l
  Step-Life (stop_returns e f) ok c l = ground arith
  Step-Life (submits j f e) ok c l = submits-Life _ e l
  Step-Life {s} (advances us vs {p = p} e a) ok c l =
      let (conf, wg, ws, un) = Advance-keeps a in
      Life-eq (Advance-SameLife a) (λ _. omega (arith, ap length e, length-append us (p ∷ vs)))
        (λ g h. ap length ws ∙ l.stop_empties g h) l
  Step-Life {s} (returns us vs {p = p} e r) ok c l =
      Life-eq (Return-SameLife r) (λ _. omega (arith, ap length e, length-append us (p ∷ vs)))
        (λ g h. cc (sym g ∙ busy us vs p e l)) l
  Step-Life {s} (moves us vs {w = w} e m) ok c l =
      Life-eq (Move-SameLife m) (λ h. omega (arith, h, ap length (Move-keeps m).2))
        (λ g h. omega (arith, l.stop_empties g h, ap length e, length-append us (w ∷ vs))) l
  Step-Life {s} (leaves us vs e) ok c l = leaves-Life us vs e l
  Step-Life {s} (closes h e) ok c l = close_queue-Life s h e l
