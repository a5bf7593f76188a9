-- ===== src/WorkerPool/Invariant/Frame.antt =====
-- What a step of a worker or of a call of Submit leaves alone: the life cycle of the pool in
-- worker_pool/worker_pool.go.
use jec.Prelude.{◌≡◌, refl, arith}
use jec.WorkerPool.State.{Pool, Worker, Submitter}
use jec.WorkerPool.Step.{
  Move, begin_job, begin_idle, take_idle, execute, put_idle, receive, see_closed, tick_stay,
  tick_leave, count_out, Advance, default, claim, Return, send_buffered, send_handover, send_panics,
  refuse_fixed, refuse_full, spawn,
}

abbrev pub SameLife : {J : Type 0} → Pool J → Pool J → Type 0
SameLife s t = record {
  same_conf : t.pool_conf ≡ s.pool_conf;
  same_closed : t.job_queue_closed ≡ s.job_queue_closed;
  same_quit : t.quit_closed ≡ s.quit_closed;
  same_running : t.is_running ≡ s.is_running;
  same_stopping : t.stopping ≡ s.stopping;
  same_starts : t.starts ≡ s.starts;
  same_runners : t.runners ≡ s.runners;
}

module _ {J : Type 0} where
  pub Move-SameLife : {s t : Pool J} {w x : Worker J} → Move s w x t → SameLife s t
  Move-SameLife begin_job = ground arith
  Move-SameLife begin_idle = ground arith
  Move-SameLife take_idle = ground arith
  Move-SameLife execute = ground arith
  Move-SameLife put_idle = ground arith
  Move-SameLife (receive e) = ground arith
  Move-SameLife (see_closed e f) = ground arith
  Move-SameLife (tick_stay e f) = ground arith
  Move-SameLife (tick_leave e f) = ground arith
  Move-SameLife count_out = ground arith

  pub Advance-SameLife : {s t : Pool J} {p q : Submitter J} → Advance s p q t → SameLife s t
  Advance-SameLife (default h) = ground arith
  Advance-SameLife (claim e f) = ground arith

  pub Return-SameLife : {s t : Pool J} {p : Submitter J} → Return s p t → SameLife s t
  Return-SameLife (send_buffered h k) = ground arith
  Return-SameLife (send_handover xs ys h k e) = ground arith
  Return-SameLife (send_panics h) = ground arith
  Return-SameLife (refuse_fixed h) = ground arith
  Return-SameLife (refuse_full h k) = ground arith
  Return-SameLife spawn = ground arith

  -- No worker panics.
  pub Move-calm : {s t : Pool J} {w x : Worker J} → Move s w x t → t.panicked ≡ s.panicked
  Move-calm begin_job = refl
  Move-calm begin_idle = refl
  Move-calm take_idle = refl
  Move-calm execute = refl
  Move-calm put_idle = refl
  Move-calm (receive e) = refl
  Move-calm (see_closed e f) = refl
  Move-calm (tick_stay e f) = refl
  Move-calm (tick_leave e f) = refl
  Move-calm count_out = refl
