-- ===== src/Queue/Delivery.antt =====
-- A message on its way through queue/poller.go, worker_pool/worker_pool.go and queue/job.go: any number
-- of polls hand their messages to one worker pool, whose workers execute them as jobs.
--
-- A poll is what Queue.Poller says of it, with the pool's answers foretold: it is played one effect at
-- a time, and an effect that says that the pool accepts a message is played by the step of the pool
-- that does so. When the pool refuses a message is left open.
pub mod Sound
pub mod Laws
use jec.Prelude.{◌≡◌, ltb_ℤ, pos, String, List, [], ◌∷◌, ◌++◌, false, if◌then◌else◌}
use jec.Config.Types.{PollerConf, PoolConf}
use jec.Queue.Sqs.{Message, Provider, Request}
use jec.Queue.Token
use jec.Queue.Poller
use jec.Queue.Poller.{poll, requests, accepts, terminates}
use jec.Queue.Poller.Laws.{received}
use jec.Queue.Job
use jec.Queue.Job.{Job, new_job, execute}
use jec.Queue.Message.{World, Handler}
use jec.WorkerPool.Counters.{number_of_available_worker}
use jec.WorkerPool.State.{Pool}
use jec.WorkerPool.State
use jec.WorkerPool.Step

-- A poll in progress: the key and the owner of its poller, the url of its provider's queue, and the
-- effects that are yet to come.
pub record Pending : Type 0 where
  pub url : String
  pub owner : String
  pub queue : String
  pub left : List Poller.Effect

pub record Flow : Type 0 where
  pub pool : Pool Job
  pub pending : List Pending
  -- the history: the messages that were received, each with the queue it is from, the requests for
  -- visibility that the polls sent, and the effects of jobs
  pub arrived : List (String × Message)
  pub returned : List Request
  pub effects : List Job.Effect

unfoldable pub fresh_flow : PoolConf → Flow
unfolding State.new
fresh_flow c = record {
  pool = State.new c;
  pending = [];
  arrived = [];
  returned = [];
  effects = [];
}

unfoldable pub from_queue : String → List Message → List (String × Message)
from_queue u [] = []
from_queue u (m ∷ ms) = (u, m) ∷ from_queue u ms

-- What the queue `u` gives to a poll, which asks only if a worker is available.
unfoldable pub taken : String → Poller.Chance → List (String × Message)
unfolding from_queue
taken u c = if ltb_ℤ (pos 0) c.available then from_queue u (received c.answer) else []

pub data Flows (s : Flow) : Flow → Type 0 where
  begins :
      (url owner : String) (conf : PollerConf) (c : Poller.Chance) (p : Provider)
      → c.available ≡ number_of_available_worker s.pool.pool_conf s.pool.counters
      → Flows s (record s {
        arrived = taken (Token.url p.queue_properties) c ++ s.arrived;
        pending =
            record {
              url = url;
              owner = owner;
              queue = Token.url p.queue_properties;
              left = (poll conf c p).2;
            }
            ∷ s.pending;
      })
  asks :
      (x : Pending) (r : Request) (fx : List Poller.Effect) (us vs : List Pending)
      → s.pending ≡ us ++ x ∷ vs
      → x.left ≡ requests r ∷ fx
      → Flows s (record s { pending = us ++ record x { left = fx } ∷ vs })
  submits :
      (x : Pending) (m : Message) (fx : List Poller.Effect) {t : Pool Job} (us vs : List Pending)
      → s.pending ≡ us ++ x ∷ vs
      → x.left ≡ accepts m ∷ fx
      → Step.Step s.pool t
      → t.accepted ≡ new_job x.queue m x.owner ∷ s.pool.accepted
      → t.executions ≡ s.pool.executions
      → Flows s (record s { pool = t; pending = us ++ record x { left = fx } ∷ vs })
  returns :
      (x : Pending) (m : Message) (r : Request) (fx : List Poller.Effect) (us vs : List Pending)
      → s.pending ≡ us ++ x ∷ vs
      → x.left ≡ terminates m r ∷ fx
      → Flows s
          (record s { returned = r ∷ s.returned; pending = us ++ record x { left = fx } ∷ vs })
  finishes :
      (x : Pending) (us vs : List Pending)
      → s.pending ≡ us ++ x ∷ vs
      → x.left ≡ []
      → Flows s (record s { pending = us ++ vs })
  -- the provider is that of the job's poller, by its queue, and the handler the processor's: what they
  -- hold at that time (the role of the last token, the repositories pulled) is left open
  executes :
      (j : Job) {t : Pool Job} (w : World) (h : Handler) (p : Provider) (c : Job.Chance)
      → Token.url p.queue_properties ≡ j.queue_url
      → Step.Step s.pool t
      → t.accepted ≡ s.pool.accepted
      → t.executions ≡ j ∷ s.pool.executions
      → Flows s (record s { pool = t; effects = (execute w h j p c).3 ++ s.effects })
  -- any other step of the pool
  works :
      {t : Pool Job}
      → Step.Step s.pool t
      → t.accepted ≡ s.pool.accepted
      → t.executions ≡ s.pool.executions
      → Flows s (record s { pool = t })

pub data Reach (c : PoolConf) : Flow → Type 0 where
  fresh : Reach c (fresh_flow c)
  later : {s t : Flow} → Reach c s → s.pool.panicked ≡ false → Flows s t → Reach c t
