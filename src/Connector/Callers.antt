-- ===== src/Connector/Callers.antt =====
-- What a call of Start or of Stop does to the two sides of the connector.
use jec.Prelude.{
  suc, ◌<◌, ◌≡◌, ◌∙◌, sym, ap, inl, inr, pos_part, half32, true, false, [], none, arith,
}
use jec.Config.Types.{Configuration}
use jec.Queue.Lifecycle.{System, Answers, start, stop}
use jec.Queue.Lifecycle.Safety.{Reach-Inv}
use jec.Queue.Delivery.{Flow, fresh_flow, taken}
use jec.Queue.Delivery
use jec.WorkerPool.New.{new_conf}
use jec.WorkerPool.State
use jec.WorkerPool.Step as PoolStep
use jec.Queue.Delivery.Sound as Carried
use jec.WorkerPool.Safety
use jec.Main
use jec.Main.{Process, boot, call_start, call_stop, return_stop}
use jec.Main.Sound as MainSound
use jec.Main.Sound.{Moves-Sound, boot_lem, exit_on_lem}
use jec.Connector.{Connector, start_pool, stop_pool}
use jec.Connector.Frame.{start-Started}

pub record InStep (c : Configuration) (x : Connector) : Type 0 where
  pub process_sound : MainSound.Sound x.process
  pub flow_reached : Delivery.Reach c.pool_conf x.flow
  pub same_conf : x.flow.pool.pool_conf ≡ new_conf c.pool_conf
  pub same_starts : x.flow.pool.starts ≡ x.process.system.starts
  pub pool_down : x.pool_stopped ≡ true → x.flow.pool.is_running ≡ false
  pub stopped_late : x.pool_stopped ≡ true → 0 < x.process.system.starts
  pub unpolled : x.process.system.loops ≡ 0 → x.flow.pending ≡ []

-- Start and Stop of the pool on a pool that is not running, or was running.
pool_start_lem :
    {J : Type 0} (s : State.Pool J)
    → s.is_running ≡ false
    → ((State.start s).0.accepted ≡ s.accepted)
      × ((State.start s).0.executions ≡ s.executions)
      × ((State.start s).0.pool_conf ≡ s.pool_conf)
      × ((State.start s).0.starts ≡ suc s.starts)
unfolding State.start State.add_initial_workers
pool_start_lem s down = ground arith

pool_stop_lem :
    {J : Type 0} (s : State.Pool J)
    → ((State.stop s).0.accepted ≡ s.accepted)
      × ((State.stop s).0.executions ≡ s.executions)
      × ((State.stop s).0.pool_conf ≡ s.pool_conf)
      × ((State.stop s).0.starts ≡ s.starts)
      × ((State.stop s).0.is_running ≡ false)
unfolding State.stop
pool_stop_lem s = ground arith

pub starts-InStep :
    {c : Configuration} (a : Answers) (x : Connector)
    → pos_part c.pool_conf.max_number_of_worker < half32
    → x.process.exit ≡ none
    → x.process.system.panicked ≡ false
    → x.flow.pool.panicked ≡ false
    → x.process.start_called ≡ false
    → x.process.system.stopping ≡ false
    → x.flow.pool.stopping ≡ false
    → x.flow.pool.submitters ≡ []
    → InStep c x
    → InStep c (record x {
      process = call_start a x.process;
      flow = start_pool (start a x.process.system).1 x.flow;
    })
unfolding call_start start_pool
starts-InStep {c} a x h runs alive pool_alive first free pool_free none_submits v =
    let p = v.process_sound in
    let none_yet = p.none_yet first in
    let (l, f, calm) = Reach-Inv p.reached p.once in
    let (counts, life, work) =
      Safety.Reach-Inv h (Carried.Reach-Sound h v.flow_reached).reached pool_alive in
    let (same, called, stop_called, ran, z) =
      exit_on_lem (start a x.process.system).1
        (record x.process { system = (start a x.process.system).0; start_called = true }) in
    let m : Main.Moves (λ path. false) x.process (call_start a x.process) =
      Main.calls_start a first free in
    let next = start a x.process.system in
    let starts_of = ap (λ (s : System). s.starts) same in
    let loops_of = ap (λ (s : System). s.loops) same in
    elim (start-Started a x.process.system (l.unstarted none_yet).0) [
      | inl (fine, more, loop) ↦
          let (acc, exe, conf, more') =
            pool_start_lem x.flow.pool (life.unstarted (v.same_starts ∙ none_yet)).0 in
          let e : start_pool next.1 x.flow ≡ start_pool none x.flow =
            ap (λ e. start_pool e x.flow) fine in
          rw e (record {
            process_sound = Moves-Sound runs alive m p;
            flow_reached =
                Delivery.later v.flow_reached pool_alive
                  (Delivery.works (PoolStep.starts pool_free none_submits) acc exe);
            same_conf = conf ∙ v.same_conf;
            same_starts = omega (arith, more', v.same_starts, starts_of, more);
            pool_down = λ h. absurd (omega (arith, v.stopped_late h, none_yet));
            stopped_late = λ h. absurd (omega (arith, v.stopped_late h, none_yet));
            unpolled = λ h. absurd (omega (arith, loops_of, loop, h));
          })
      | inr (bad, failed, as_before, loop) ↦
          let e : start_pool next.1 x.flow ≡ x.flow = ap (λ e. start_pool e x.flow) failed in
          rw e (record {
            process_sound = Moves-Sound runs alive m p;
            flow_reached = v.flow_reached;
            same_conf = v.same_conf;
            same_starts = omega (arith, v.same_starts, starts_of, as_before);
            pool_down = v.pool_down;
            stopped_late = λ h. absurd (omega (arith, v.stopped_late h, none_yet));
            unpolled = λ h. v.unpolled (sym loop ∙ sym loops_of ∙ h);
          })
    ]

stop_same : (s : System) → ((stop s).0.starts ≡ s.starts) × ((stop s).0.loops ≡ s.loops)
unfolding stop
stop_same s = ground arith

pub stops-InStep :
    {c : Configuration} (x : Connector)
    → x.process.exit ≡ none
    → x.process.system.panicked ≡ false
    → x.process.signalled ≡ true
    → x.process.stop_called ≡ false
    → x.process.system.stopping ≡ false
    → InStep c x
    → InStep c (record x { process = call_stop x.process })
unfolding call_stop
stops-InStep x runs alive signal first free v =
    let (same, called, stop_called, ran, z) =
      exit_on_lem (stop x.process.system).1
        (record x.process { system = (stop x.process.system).0; stop_called = true }) in
    let m : Main.Moves (λ path. false) x.process (call_stop x.process) =
      Main.calls_stop signal first free in
    let starts_of = ap (λ (s : System). s.starts) same ∙ (stop_same x.process.system).0 in
    let loops_of = ap (λ (s : System). s.loops) same ∙ (stop_same x.process.system).1 in
    record {
      process_sound = Moves-Sound runs alive m v.process_sound;
      flow_reached = v.flow_reached;
      same_conf = v.same_conf;
      same_starts = v.same_starts ∙ sym starts_of;
      pool_down = v.pool_down;
      stopped_late = λ h. omega (arith, starts_of, v.stopped_late h);
      unpolled = λ h. v.unpolled (sym loops_of ∙ h);
    }

-- Stop of the pool is called when the goroutines of the processor have ended.
pub stops_pool-InStep :
    {c : Configuration} (x : Connector)
    → x.process.system.stopping ≡ true
    → x.flow.pool.panicked ≡ false
    → x.flow.pool.stopping ≡ false
    → x.flow.pool.submitters ≡ []
    → InStep c x
    → InStep c (record x { flow = stop_pool x.flow; pool_stopped = true })
unfolding stop_pool
stops_pool-InStep x waits pool_alive pool_free none_submits v =
    let p = v.process_sound in
    let (l, f, calm) = Reach-Inv p.reached p.once in
    let (acc, exe, conf, begun, down) = pool_stop_lem x.flow.pool in
    record {
      process_sound = p;
      flow_reached =
          Delivery.later v.flow_reached pool_alive
            (Delivery.works (PoolStep.stops pool_free none_submits) acc exe);
      same_conf = conf ∙ v.same_conf;
      same_starts = begun ∙ v.same_starts;
      pool_down = λ h. down;
      stopped_late = λ h. ground (arith, l.unstarted);
      unpolled = v.unpolled;
    }
