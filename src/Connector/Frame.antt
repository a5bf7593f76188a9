-- ===== src/Connector/Frame.antt =====
-- What one side of the connector does to the facts that the other side relies on.
use jec.Prelude.{
  suc, ◌≡◌, ◌⊎◌, ◌∙◌, refl, sym, ap, inl, inr, Bool, true, false, String, List, [], ◌∷◌, ◌++◌,
  length, length-append, Option, none, some, Result, ok, err, arith,
}
use jec.Git.Repositories.{Repositories, Effect}
use jec.Queue.Token.{Token}
use jec.Queue.Sqs.{Client}
use jec.Queue.Job.{Job}
use jec.Queue.Lifecycle
use jec.Queue.Lifecycle.{
  System, given, Answers, Error, start, start_token, start_with, downloads, stop, finish, end_loop,
  end_pulling, tick, refresh, set_pollers, done,
}
use jec.Queue.Delivery.{Flow, Pending, Flows}
use jec.Queue.Delivery
use jec.WorkerPool.State
use jec.WorkerPool.State.{Pool}
use jec.WorkerPool.Step
use jec.WorkerPool.Step.{Step}
use jec.WorkerPool.Invariant.Frame.{Move-SameLife, Advance-SameLife, Return-SameLife}
use jec.Connector.{of_worker, in_flow}

-- Neither the configuration of the pool, nor whether and how often it was started.
abbrev pub SamePool : {J : Type 0} → Pool J → Pool J → Type 0
SamePool s t = (t.pool_conf ≡ s.pool_conf) × (t.is_running ≡ s.is_running) × (t.starts ≡ s.starts)

worker_same : {s t : Pool Job} (st : Step s t) → of_worker st ≡ true → SamePool s t
unfolding State.close_queue Step.done
worker_same (Step.starts free idle) w = absurd (ground (arith, w))
worker_same (Step.stops free idle) w = absurd (ground (arith, w))
worker_same (Step.stop_returns waits left) w = ground arith
worker_same (Step.submits j free open_yet) w = ground arith
worker_same (Step.advances us vs e a) w =
    let f = Advance-SameLife a in (f.same_conf, f.same_running, f.same_starts)
worker_same (Step.returns us vs e r) w =
    let f = Return-SameLife r in (f.same_conf, f.same_running, f.same_starts)
worker_same (Step.moves us vs e m) w =
    let f = Move-SameLife m in (f.same_conf, f.same_running, f.same_starts)
worker_same (Step.leaves us vs e) w = ground arith
worker_same (Step.closes some_runner quit) w = ground arith

pub flow_same : {f g : Flow} (st : Flows f g) → in_flow st ≡ true → SamePool f.pool g.pool
flow_same (Delivery.begins url owner conf c p free) w = absurd (ground (arith, w))
flow_same (Delivery.asks x r fx us vs e i) w = (refl, refl, refl)
flow_same (Delivery.submits x m fx us vs e i st a d) w = worker_same st w
flow_same (Delivery.returns x m r fx us vs e i) w = (refl, refl, refl)
flow_same (Delivery.finishes x us vs e i) w = (refl, refl, refl)
flow_same (Delivery.executes j wd h p c own st a d) w = worker_same st w
flow_same (Delivery.works st a d) w = worker_same st w

no_middle : (us vs ps : List Pending) (x : Pending) → ps ≡ us ++ x ∷ vs → ps ≡ [] → ⊥
no_middle us vs ps x e none_left =
    absurd (omega (arith, ap length (sym e ∙ none_left), length-append us (x ∷ vs)))

-- No poll comes into being.
pub flow_unpolled :
    {f g : Flow} (st : Flows f g) → in_flow st ≡ true → f.pending ≡ [] → g.pending ≡ []
flow_unpolled (Delivery.begins url owner conf c p free) w z = absurd (ground (arith, w))
flow_unpolled (Delivery.asks x r fx us vs e i) w z = absurd (no_middle us vs _ x e z)
flow_unpolled (Delivery.submits x m fx us vs e i st a d) w z = absurd (no_middle us vs _ x e z)
flow_unpolled (Delivery.returns x m r fx us vs e i) w z = absurd (no_middle us vs _ x e z)
flow_unpolled (Delivery.finishes x us vs e i) w z = absurd (no_middle us vs _ x e z)
flow_unpolled (Delivery.executes j wd h p c own st a d) w z = z
flow_unpolled (Delivery.works st a d) w z = z

-- Start of the processor succeeds, and its loop runs; or it fails, and nothing is counted.
abbrev Started : System → System × Option Error → Type 0
Started s x =
    ((x.1 ≡ none) × (x.0.starts ≡ suc s.starts) × (x.0.loops ≡ suc s.loops))
    ⊎ ((e : Error) × (x.1 ≡ some e) × (x.0.starts ≡ s.starts) × (x.0.loops ≡ s.loops))

start_with-Started :
    (a : Answers) (t : Option Token) (s : System) (x : Repositories × Option String × List Effect)
    → Started s (start_with a t s x)
unfolding start_with
start_with-Started a t s (r, some e, fx) = inr (Lifecycle.no_clone e, refl, refl, refl)
start_with-Started a t s (r, none, fx) = inl (ground arith)

start_token-Started :
    (a : Answers) (r : Result (Option Token)) (s : System) → Started s (start_token a r s)
unfolding start_token
start_token-Started a (err e) s = inr (Lifecycle.no_token e, refl, refl, refl)
start_token-Started a (ok t) s = start_with-Started a t (given t s) (downloads a s)

start_down : (a : Answers) (s : System) → s.is_running ≡ false → start a s ≡ start_token a a.token s
unfolding start
start_down a s down = simp down

pub start-Started : (a : Answers) (s : System) → s.is_running ≡ false → Started s (start a s)
start-Started a s down = rw (start_down a s down) (start_token-Started a a.token s)

-- What the end of a goroutine, a tick and a turn leave of the counts.
pub end_loop-same : (s : System) → (end_loop s).starts ≡ s.starts
unfolding end_loop done set_pollers
end_loop-same s = ground arith

pub end_pulling-same :
    (s : System) → ((end_pulling s).starts ≡ s.starts) × ((end_pulling s).loops ≡ s.loops)
unfolding end_pulling done
end_pulling-same s = ground arith

pub tick-same :
    (connects : Client → Bool) (r : Result (Option Token)) (s : System)
    → ((tick connects r s).starts ≡ s.starts) × ((tick connects r s).loops ≡ s.loops)
unfolding tick refresh
tick-same connects (err e) s = ground arith
tick-same connects (ok none) s = ground arith
tick-same connects (ok (some t)) s = ground arith
