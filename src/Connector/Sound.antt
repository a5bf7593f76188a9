-- ===== src/Connector/Sound.antt =====
-- The two sides of the connector in step: the pool is started with the processor, and no poll is left
-- once run has ended.
use jec.Prelude.{
  ◌<◌, ◌≡◌, ◌∙◌, refl, sym, pos_part, half32, Bool, false, String, [], ◌∷◌, ◌++◌, lookup, none,
  some, ok, arith, insert,
}
use jec.Config.Types.{Configuration}
use jec.Queue.Lifecycle
use jec.Queue.Lifecycle.{System, Error, Answers, start, stop, finish, end_loop, tick, set_pollers}
use jec.Queue.Lifecycle.Live.{IsStopped, Each-lookup}
use jec.Queue.Lifecycle.Safety.{Reach-Inv}
use jec.Queue.Lifecycle.Step
use jec.Queue.Token
use jec.Queue.Poller
use jec.Queue.Poller.{Poller, turn, poll}
use jec.WorkerPool.Counters.{number_of_available_worker}
use jec.Queue.Delivery.{Flow, fresh_flow, taken}
use jec.Queue.Delivery
use jec.WorkerPool.State
use jec.Main
use jec.Main.{Process, boot, call_start, call_stop, return_stop}
use jec.Main.Sound as MainSound
use jec.Main.Sound.{Moves-Sound, boot_lem, exit_on_lem}
use jec.Connector.{
  Connector, Steps, starts, receives_signal, stops, stops_pool, exits, loop_ends, loop_ticks,
  pulling_ends, skips, polls, flows, with_system, fresh_connector, Reach, booted, later,
}
use jec.Connector.Frame.{flow_same, flow_unpolled, end_loop-same, end_pulling-same, tick-same}
use jec.Connector.Callers.{InStep, starts-InStep, stops-InStep, stops_pool-InStep}

-- A step of the processor alone, which leaves its starts and its loops.
with_system-InStep :
    {c : Configuration} {fails : String → Bool} (x : Connector) (s : System)
    → x.process.exit ≡ none
    → x.process.system.panicked ≡ false
    → Main.Moves fails x.process (record x.process { system = s })
    → s.starts ≡ x.process.system.starts
    → (s.loops ≡ 0 → x.flow.pending ≡ [])
    → InStep c x
    → InStep c (with_system x s)
with_system-InStep x s runs alive m same unpolled v = record {
  process_sound = Moves-Sound runs alive m v.process_sound;
  flow_reached = v.flow_reached;
  same_conf = v.same_conf;
  same_starts = v.same_starts ∙ sym same;
  pool_down = v.pool_down;
  stopped_late = λ h. omega (arith, same, v.stopped_late h);
  unpolled = unpolled;
}

polls-InStep :
    {c : Configuration} (x : Connector) (url : String) (p : Poller) (ch : Poller.Chance)
    → x.process.exit ≡ none
    → x.process.system.panicked ≡ false
    → x.flow.pool.panicked ≡ false
    → lookup url x.process.system.processor.pollers ≡ some p
    → p.quit_closed ≡ false
    → ch.available ≡ number_of_available_worker x.flow.pool.pool_conf x.flow.pool.counters
    → InStep c x
    → InStep c (record x {
      process = record x.process {
        system =
            set_pollers
              (insert url (turn p ch).0 x.process.system.processor.pollers)
              x.process.system;
      };
      flow = record x.flow {
        arrived = taken (Token.url p.provider.queue_properties) ch ++ x.flow.arrived;
        pending =
            record {
              url = url;
              owner = p.owner;
              queue = Token.url p.provider.queue_properties;
              left = (poll p.poller_conf ch p.provider).2;
            }
            ∷ x.flow.pending;
      };
    })
unfolding set_pollers
polls-InStep x url p ch runs alive pool_alive there open_yet seen v =
    let q = v.process_sound in
    let (l, f, calm) = Reach-Inv q.reached q.once in
    let m : Main.Moves (λ path. false) x.process _ = Main.works (Step.polls url p ch there) refl in
    record {
      process_sound = Moves-Sound runs alive m q;
      flow_reached =
          Delivery.later v.flow_reached pool_alive
            (Delivery.begins url p.owner p.poller_conf ch p.provider seen);
      same_conf = v.same_conf;
      same_starts = v.same_starts;
      pool_down = v.pool_down;
      stopped_late = v.stopped_late;
      unpolled = λ h. absurd (
          ground (
            arith,
            Each-lookup IsStopped url p x.process.system.processor.pollers (f.stopped h) there,
          ));
    }

Steps-InStep :
    {c : Configuration} {fails : String → Bool} {x y : Connector}
    → pos_part c.pool_conf.max_number_of_worker < half32
    → x.process.exit ≡ none
    → x.process.system.panicked ≡ false
    → x.flow.pool.panicked ≡ false
    → Steps fails x y
    → InStep c x
    → InStep c y
unfolding return_stop finish set_pollers
Steps-InStep {x} h runs alive pool_alive (starts a first free pool_free none_submits) v =
    starts-InStep a x h runs alive pool_alive first free pool_free none_submits v
Steps-InStep {fails} h runs alive pool_alive (receives_signal first) v =
    let m : Main.Moves fails _ _ = Main.receives_signal first in
    record {
      process_sound = Moves-Sound runs alive m v.process_sound;
      flow_reached = v.flow_reached;
      same_conf = v.same_conf;
      same_starts = v.same_starts;
      pool_down = v.pool_down;
      stopped_late = v.stopped_late;
      unpolled = v.unpolled;
    }
Steps-InStep {x} h runs alive pool_alive (stops signal first free) v =
    stops-InStep x runs alive signal first free v
Steps-InStep {x} h runs alive pool_alive (stops_pool waits left first pool_free none_submits) v =
    stops_pool-InStep x waits pool_alive pool_free none_submits v
Steps-InStep {fails} h runs alive pool_alive (exits waits left called pool_free) v =
    let m : Main.Moves fails _ _ = Main.stop_returns waits left in
    record {
      process_sound = Moves-Sound runs alive m v.process_sound;
      flow_reached = v.flow_reached;
      same_conf = v.same_conf;
      same_starts = v.same_starts;
      pool_down = v.pool_down;
      stopped_late = v.stopped_late;
      unpolled = v.unpolled;
    }
Steps-InStep {fails} {x} h runs alive pool_alive (loop_ends some_loop quit none_left) v =
    with_system-InStep {fails = fails} x _ runs alive
      (Main.works (Step.loop_ends some_loop quit) refl) (end_loop-same x.process.system)
      (λ e. none_left) v
Steps-InStep {fails} {x} h runs alive pool_alive (loop_ticks connects r some_loop all_left) v =
    let (same, loop) = tick-same connects r x.process.system in
    with_system-InStep {fails = fails} x _ runs alive
      (Main.works (Step.loop_ticks connects r some_loop) refl) same (λ e. v.unpolled (sym loop ∙ e))
      v
Steps-InStep {fails} {x} h runs alive pool_alive (pulling_ends some_pull quit) v =
    let (same, loop) = end_pulling-same x.process.system in
    with_system-InStep {fails = fails} x _ runs alive
      (Main.works (Step.pulling_ends some_pull quit) refl) same (λ e. v.unpolled (sym loop ∙ e)) v
Steps-InStep {fails} {x} h runs alive pool_alive (skips url p ch there why) v =
    with_system-InStep {fails = fails} x _ runs alive (Main.works (Step.polls url p ch there) refl)
      refl v.unpolled v
Steps-InStep {x} h runs alive pool_alive (polls url p ch there open_yet fresh idle seen) v =
    polls-InStep x url p ch runs alive pool_alive there open_yet seen v
Steps-InStep h runs alive pool_alive (flows st w) v =
    let (conf, running, begun) = flow_same st w in
    record {
      process_sound = v.process_sound;
      flow_reached = Delivery.later v.flow_reached pool_alive st;
      same_conf = conf ∙ v.same_conf;
      same_starts = begun ∙ v.same_starts;
      pool_down = λ e. running ∙ v.pool_down e;
      stopped_late = v.stopped_late;
      unpolled = λ e. flow_unpolled st w (v.unpolled e);
    }

pub Reach-InStep :
    {c : Configuration} {fails : String → Bool} {x : Connector}
    → pos_part c.pool_conf.max_number_of_worker < half32
    → Reach fails c x
    → InStep c x
unfolding fresh_connector fresh_flow State.new boot Lifecycle.new
Reach-InStep {c} {fails} h (booted {p} e) =
    let (c', same, first, no_stop, runs) = boot_lem (ok c) p e in
    let at_start : Main.Reach fails (ok c) p = Main.booted e in
    record {
      process_sound = MainSound.Reach-Sound at_start;
      flow_reached = Delivery.fresh;
      same_conf = refl;
      same_starts = rw same refl;
      pool_down = λ h. absurd (ground (arith, h));
      stopped_late = λ h. absurd (ground (arith, h));
      unpolled = λ h. refl;
    }
Reach-InStep h (later r runs alive pool_alive st) =
    Steps-InStep h runs alive pool_alive st (Reach-InStep h r)
