-- ===== src/Queue/Poller.antt =====
-- queue/poller.go: polling the queue, and the poller's goroutine.
--
-- What the worker pool and the SQS client answer is given as a `Chance`: the number of available
-- workers, the received messages, and for the message of each position what Submit returns and what
-- the client answers to ChangeMessageVisibility. The loggers are left out.
pub mod Laws
pub mod Goroutine
use jec.Prelude.{
  ℕ, zero, suc, ℤ, pos, negsuc, ltb_ℤ, mul64, Bool, true, false, not, List, [], ◌∷◌, ◌++◌, Option,
  none, some, if◌then◌else◌, String,
}
use jec.Util.{min}
use jec.Config.Types.{PollerConf}
use jec.Queue.Sqs.{
  Message, SqsError, Provider, Request, Received, messages, failed, change_message_visibility,
  send_receive,
}

-- What Submit returns: (true, nil), (false, nil), or an error.
pub data Submission : Type 0 where
  submitted rejected refused : Submission

pub record Chance : Type 0 where
  pub available : ℤ
  pub answer : Received
  pub submits : ℕ → Submission
  pub terminations : ℕ → Option SqsError

pub data Effect : Type 0 where
  requests : Request → Effect
  -- a job for this message is in the pool
  accepts : Message → Effect
  -- a request to make the message visible again is sent, whatever the queue answers to it
  terminates : Message → Request → Effect

abbrev pub Polled : Type 0
Polled = Bool × Provider × List Effect

terminate_one : Chance → ℕ → Message → Provider → Provider × Effect
terminate_one c i m p =
    let (request, p', err) = change_message_visibility p m (pos 0) (c.terminations i) in
    (p', terminates m request)

-- terminateMessageVisibility on messages[i:]; an error is logged, and the loop goes on.
unfoldable pub terminate_from : Chance → ℕ → List Message → Provider → Provider × List Effect
unfolding terminate_one change_message_visibility
terminate_from c i [] p = (p, [])
terminate_from c i (m ∷ ms) p =
    let (p', fx) = terminate_one c i m p in
    let (q, rest) = terminate_from c (suc i) ms p' in (q, fx ∷ rest)

abbrev pub before : List Effect → Polled → Polled
before fx (wait, p, rest) = (wait, p, fx ++ rest)

-- The loop over messages[i:].
unfoldable pub submit_from : Chance → ℕ → List Message → Provider → Polled
unfolding terminate_from terminate_one
submit_from c i [] p = (false, p, [])
submit_from c i (m ∷ ms) p = elim (c.submits i) [
  | submitted ↦ before (accepts m ∷ []) (submit_from c (suc i) ms p)
  | rejected ↦
      let (p', fx) = terminate_one c i m p in before (fx ∷ []) (submit_from c (suc i) ms p')
  | refused ↦ let (p', fx) = terminate_from c i (m ∷ ms) p in (true, p', fx)
]

-- What poll does with the answer to ReceiveMessage.
take_in : Chance → Received → Provider → Polled
unfolding submit_from
take_in c (failed e) p = (true, p, [])
take_in c (messages []) p = (true, p, [])
take_in c (messages (m ∷ ms)) p = submit_from c 0 (m ∷ ms) p

unfoldable pub poll : PollerConf → Chance → Provider → Polled
unfolding take_in send_receive min
poll conf c p =
    if not (ltb_ℤ (pos 0) c.available)
    then (true, p, [])
    else let (request, p', answer) =
        send_receive p (min conf.max_number_of_messages c.available)
          conf.visibility_timeout_in_seconds c.answer in
      before (requests request ∷ []) (take_in c answer p')

-- The poller's own state. `panicked`: a channel is closed a second time.
pub record Poller : Type 0 where
  pub provider : Provider
  pub poller_conf : PollerConf
  pub owner : String
  pub is_running : Bool
  pub quit_closed : Bool
  pub wake_up_closed : Bool
  pub panicked : Bool

pub data Error : Type 0 where
  already_running not_running : Error

unfoldable pub new_poller : Provider → PollerConf → String → Poller
new_poller p conf owner = record {
  provider = p;
  poller_conf = conf;
  owner = owner;
  is_running = false;
  quit_closed = false;
  wake_up_closed = false;
  panicked = false;
}

-- Start: the goroutine is `run`.
unfoldable pub start : Poller → Poller × Option Error
start p = if p.is_running then (p, some already_running) else (record p { is_running = true }, none)

-- Stop waits until `run` has returned, which it does at the next turn of its loop.
unfoldable pub stop : Poller → Poller × Option Error
stop p =
    if not p.is_running
    then (p, some not_running)
    else if p.quit_closed
    then (record p { panicked = true }, none)
    else (record p { is_running = false; quit_closed = true; wake_up_closed = true }, none)

-- One turn of the loop of `run`: the end, or how long to wait (none: no wait) and what was done.
pub data Turn : Type 0 where
  ends : Turn
  goes_on : Option ℤ → List Effect → Turn

abbrev error_refresh_period : ℤ
error_refresh_period = pos 60000000000

abbrev polling_wait_interval : PollerConf → ℤ
polling_wait_interval conf = mul64 conf.polling_wait_interval_in_millis (pos 1000000)

abbrev wait_if : Bool → ℤ → Option ℤ
wait_if b d = if b then some d else none

unfoldable pub turn : Poller → Chance → Poller × Turn
unfolding poll
turn p c =
    if p.quit_closed
    then (p, ends)
    else if p.provider.is_token_expired
    then (p, goes_on (some error_refresh_period) [])
    else let (should_wait, q, fx) = poll p.poller_conf c p.provider in
      (
        record p { provider = q },
        goes_on (wait_if should_wait (polling_wait_interval p.poller_conf)) fx,
      )
