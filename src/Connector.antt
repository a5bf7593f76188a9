-- ===== src/Connector.antt =====
-- The whole connector: the process of main/main.go with its processor (queue/processor.go), beside the
-- polls, the worker pool and the jobs that carry the messages.
--
-- A step of one side that waits for the other has the other's state as a premise. Start of the
-- processor starts the pool. A poller polls for itself, one poll at a time, and its Stop waits until
-- its poll has returned; so the end of run, which stops all pollers, waits for every poll. Stop of the
-- processor then stops the pool, and waits for it before the repositories are removed.
pub mod Frame
mod Callers
pub mod Sound
pub mod Laws
mod Tests
use jec.Prelude.{
  ◌<◌, Result, ◌≡◌, ◌≢◌, ◌⊎◌, String, Bool, true, false, List, [], ◌∷◌, ◌++◌, Option, none, some,
  lookup, insert, All, ok,
}
use jec.Config.Types.{Configuration}
use jec.Queue.Sqs.{Client}
use jec.Queue.Token
use jec.Queue.Token.{Token}
use jec.Queue.Poller
use jec.Queue.Poller.{Poller, poll, turn}
use jec.Queue.Processor.{Pollers}
use jec.Queue.Lifecycle
use jec.Queue.Lifecycle.{System, Answers, end_loop, end_pulling, tick, set_pollers}
use jec.Queue.Delivery.{Flow, Pending, fresh_flow, taken, Flows}
use jec.Queue.Delivery
use jec.Queue.Job.{Job}
use jec.WorkerPool.Counters.{number_of_available_worker}
use jec.WorkerPool.State
use jec.WorkerPool.Step
use jec.Main.{Process, boot, call_start, call_stop, return_stop}

pub record Connector : Type 0 where
  pub process : Process
  pub flow : Flow
  -- Stop of the processor has called Stop of the pool
  pub pool_stopped : Bool

abbrev pub with_system : Connector → System → Connector
with_system x s = record x { process = record x.process { system = s } }

-- workerPool.Start(), if Start of the processor gets so far.
unfoldable pub start_pool : Option Lifecycle.Error → Flow → Flow
unfolding State.start
start_pool (some e) f = f
start_pool none f = record f { pool = (State.start f.pool).0 }

-- workerPool.Stop() up to its wait.
unfoldable pub stop_pool : Flow → Flow
unfolding State.stop
stop_pool f = record f { pool = (State.stop f.pool).0 }

-- A step of the messages that no poller begins, and that is not of a caller of the pool's Start or
-- Stop.
abbrev pub of_worker : {s t : State.Pool Job} → Step.Step s t → Bool
of_worker (Step.starts free idle) = false
of_worker (Step.stops free idle) = false
of_worker _ = true

abbrev pub in_flow : {f g : Flow} → Flows f g → Bool
in_flow (Delivery.begins url owner conf c p free) = false
in_flow (Delivery.submits y m fx us vs e i st a d) = of_worker st
in_flow (Delivery.executes j w h p c own st a d) = of_worker st
in_flow (Delivery.works st a d) = of_worker st
in_flow _ = true

-- The polls in progress are all of pollers that are left.
abbrev pub AllLeft : Pollers → List Pending → Type 0
AllLeft ps = All (λ (x : Pending). lookup x.url ps ≢ none)

abbrev pub Idle : String → List Pending → Type 0
Idle url = All (λ (x : Pending). x.url ≢ url)

pub data Steps (fails : String → Bool) (x : Connector) : Connector → Type 0 where
  starts :
      (a : Answers)
      → x.process.start_called ≡ false
      → x.process.system.stopping ≡ false
      → x.flow.pool.stopping ≡ false
      → x.flow.pool.submitters ≡ []
      → Steps fails x (record x {
        process = call_start a x.process;
        flow = start_pool (Lifecycle.start a x.process.system).1 x.flow;
      })
  receives_signal :
      x.process.signalled ≡ false
      → Steps fails x (record x { process = record x.process { signalled = true } })
  stops :
      x.process.signalled ≡ true
      → x.process.stop_called ≡ false
      → x.process.system.stopping ≡ false
      → Steps fails x (record x { process = call_stop x.process })
  stops_pool :
      x.process.system.stopping ≡ true
      → x.process.system.running_wg ≡ 0
      → x.pool_stopped ≡ false
      → x.flow.pool.stopping ≡ false
      → x.flow.pool.submitters ≡ []
      → Steps fails x (record x { flow = stop_pool x.flow; pool_stopped = true })
  exits :
      x.process.system.stopping ≡ true
      → x.process.system.running_wg ≡ 0
      → x.pool_stopped ≡ true
      → x.flow.pool.stopping ≡ false
      → Steps fails x (record x { process = return_stop fails x.process })
  loop_ends :
      0 < x.process.system.loops
      → x.process.system.quit_closed ≡ true
      → x.flow.pending ≡ []
      → Steps fails x (with_system x (end_loop x.process.system))
  loop_ticks :
      (connects : Client → Bool) (r : Result (Option Token))
      → 0 < x.process.system.loops
      → AllLeft (tick connects r x.process.system).processor.pollers x.flow.pending
      → Steps fails x (with_system x (tick connects r x.process.system))
  pulling_ends :
      0 < x.process.system.pulls
      → x.process.system.quit_closed ≡ true
      → Steps fails x (with_system x (end_pulling x.process.system))
  -- a turn of a poller that does not poll: it has been stopped, or its token has expired
  skips :
      (url : String) (p : Poller) (c : Poller.Chance)
      → lookup url x.process.system.processor.pollers ≡ some p
      → (p.quit_closed ≡ true) ⊎ (p.provider.is_token_expired ≡ true)
      → Steps fails x (
          with_system x (
            set_pollers
              (insert url (turn p c).0 x.process.system.processor.pollers)
              x.process.system))
  polls :
      (url : String) (p : Poller) (c : Poller.Chance)
      → lookup url x.process.system.processor.pollers ≡ some p
      → p.quit_closed ≡ false
      → p.provider.is_token_expired ≡ false
      → Idle url x.flow.pending
      → c.available ≡ number_of_available_worker x.flow.pool.pool_conf x.flow.pool.counters
      → Steps fails x (record x {
        process = record x.process {
          system =
              set_pollers
                (insert url (turn p c).0 x.process.system.processor.pollers)
                x.process.system;
        };
        flow = record x.flow {
          arrived = taken (Token.url p.provider.queue_properties) c ++ x.flow.arrived;
          pending =
              record {
                url = url;
                owner = p.owner;
                queue = Token.url p.provider.queue_properties;
                left = (poll p.poller_conf c p.provider).2;
              }
              ∷ x.flow.pending;
        };
      })
  flows :
      {g : Flow} (st : Flows x.flow g) → in_flow st ≡ true → Steps fails x (record x { flow = g })

unfoldable pub fresh_connector : Configuration → Process → Connector
unfolding fresh_flow
fresh_connector c p = record { process = p; flow = fresh_flow c.pool_conf; pool_stopped = false }

-- What the connector may come to with this configuration; an exit or a panic ends it.
pub data Reach (fails : String → Bool) (c : Configuration) : Connector → Type 0 where
  booted : {p : Process} → boot (ok c) ≡ some p → Reach fails c (fresh_connector c p)
  later :
      {x y : Connector}
      → Reach fails c x
      → x.process.exit ≡ none
      → x.process.system.panicked ≡ false
      → x.flow.pool.panicked ≡ false
      → Steps fails x y
      → Reach fails c y
