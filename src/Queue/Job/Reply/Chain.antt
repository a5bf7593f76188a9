-- ===== src/Queue/Job/Reply/Chain.antt =====
-- A message from its job to its script and back: queue/job.go, queue/message.go, runbook/executor.go
-- and runbook/sender.go together, by their parameters.
use jec.Prelude.{
  ℕ, ◌≡◌, ◌≤◌, ◌⊎◌, String, Bool, List, [], ◌∷◌, Option, none, Result, ok, str_eq, length, true,
  false,
}
use jec.Config.Types.{MappedAction}
use jec.Retryer.Backoff.{Client}
use jec.Retryer.Request.{Request}
use jec.Retryer.Outcome.{IsDocumented}
use jec.Runbook.Types.{ActionResultPayload, HttpResponse, Invocation}
use jec.Runbook.Callback.{buffer_size}
use jec.Runbook.Callback.Laws.{NoZero}
use jec.Runbook.Executor.{copied}
use jec.Runbook.Sender.{SendError, Sent, accepted, refused, send_result_to_jsm}
use jec.Runbook.Sender.Interface.{Took, jsm_sender}
use jec.Queue.Sqs.{Provider}
use jec.Queue.Token.{Payload, http_action_type}
use jec.Queue.Message.{World, Handler, requested_action}
use jec.Queue.Message.Laws.{IsConfigured, IsRunOf}
use jec.Queue.Message.Callback.{Program, world, ran_by, text_comes_back}
use jec.Queue.Job.{Job, initial, addressed, address}
use jec.Queue.Job.Reply.{run_job}
use jec.Queue.Job.Reply.Laws.{one_reply}

module _ (program : Program) (clean ext : String → String) (environ : List String)
    (text_of : List ℕ → String) (parse_payload : String → Result Payload)
    (parse_http : String → Result HttpResponse) (server : Request → Client)
    (documented : (r : Request) (n : ℕ) → IsDocumented ((server r).answer n))
    (api_key base_url : String) (marshal : ActionResultPayload → Result String)
    (url_error : String → Option String) (error_text : SendError → String) where
  abbrev w : World
  w = world program clean ext environ text_of parse_payload parse_http

  abbrev send : ActionResultPayload → Sent
  send r = send_result_to_jsm server api_key marshal url_error r base_url

  -- Let a new job be executed whose message is deleted and names this connector, and asks for a
  -- configured action, not of type http, whose program ends without an error after it has written a
  -- text to its pipe, without the byte 0 and no longer than the buffer, which the reader has copied in
  -- time. With a client that keeps to its documentation SendResultToJsm is then called once, with a
  -- result that succeeds, repeats the id of the request, and has this text as its callback context; and
  -- that call ends with an error, or the last answer to the POST of this result was 202.
  pub text_is_posted :
      (h : Handler) (fast : Bool) (j : Job) (q : Provider) (p : Payload) (a : MappedAction)
      (i : Invocation) (text : List ℕ)
      → j.state ≡ initial
      → address j.message.attributes j.owner ≡ addressed
      → parse_payload j.message.body ≡ ok p
      → str_eq (requested_action p) "" ≡ false
      → IsConfigured h p a
      → str_eq p.action_type http_action_type ≡ false
      → IsRunOf h j.message a i
      → (ran_by program clean ext environ text_of i).error ≡ none
      → (ran_by program clean ext environ text_of i).moment ≡ copied text
      → NoZero text
      → length text ≤ buffer_size
      → (r : ActionResultPayload) × ((run_job w h send error_text fast none j q).1 ≡ send r ∷ [])
        × (r.is_successful ≡ true)
        × (r.callback_context ≡ text_of text)
        × (r.request_id ≡ p.request_id)
        × (((send r ≡ accepted) × Took server documented api_key base_url marshal url_error r)
            ⊎ ((e : SendError) × (send r ≡ refused e)))
  text_is_posted h fast j q p a i text new named parsed wanted configured plain run_of fine there
        no_zero fits =
      let s = jsm_sender server documented api_key base_url marshal url_error in
      let (r, sent, succeeds, context, id, entity) =
        text_comes_back program clean ext environ text_of parse_payload parse_http h j.message p a i
          text parsed wanted configured plain run_of fine there no_zero fits in
      (r, one_reply w h s error_text fast j q r new named sent, succeeds, context, id, s.ends r)
