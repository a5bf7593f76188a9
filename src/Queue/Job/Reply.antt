-- ===== src/Queue/Job/Reply.antt =====
-- Execute of queue/job.go with the goroutine that it starts, which sends the result by the function
-- SendResultToJsmFunc: that is `send`, and `text_of` the text of its errors.
pub mod Laws
pub mod Chain
mod Tests
use jec.Prelude.{
  ◌≡◌, ◌≢◌, ◌⊎◌, ◌∙◌, refl, ap, inl, inr, String, Bool, List, [], ◌∷◌, Option, none, some, Result,
  ok, err, if◌then◌else◌, arith, Option-cases, Result-cases,
}
use jec.Retryer.Backoff.{Client}
use jec.Retryer.Request.{Request}
use jec.Retryer.Outcome.{IsDocumented}
use jec.Runbook.Types.{ActionResultPayload}
use jec.Runbook.Sender.{
  SendError, Sent, accepted, refused, nil_response, unfinished, send_result_to_jsm,
}
use jec.Runbook.Sender.Laws.{IsAccepted, callback_request, send_result_to_jsm_ends}
use jec.Queue.Sqs.{SqsError, Provider, send_delete}
use jec.Queue.Token.{Payload}
use jec.Queue.Message.{World, Handler, Handled, handle}
use jec.Queue.Message.Laws.{Reports, handle-Reports}
use jec.Queue.Job.{
  initial, Job, Effect, requested, ran, sends, sending, Chance, Executed, addressed, address,
  execute,
}

module _ (w : World) (h : Handler) (send : ActionResultPayload → Sent)
    (text_of : SendError → String) where
  -- What the goroutine assigns to `err`; a nil response ends the process first.
  abbrev pub assigned : Sent → Option (Option String)
  assigned accepted = some none
  assigned (refused e) = some (some (text_of e))
  assigned nil_response = none
  assigned unfinished = none

  -- The race, if the goroutine is fast.
  abbrev pub raced_by : Bool → Option ActionResultPayload → Option (Option String)
  raced_by fast none = none
  raced_by fast (some r) = if fast then assigned (send r) else none

  unfoldable pub replies : List Effect → List Sent
  replies [] = []
  replies (sends r ∷ fx) = send r ∷ replies fx
  replies (requested q ∷ fx) = replies fx
  replies (ran is ∷ fx) = replies fx

  -- Execute, and the ends of the calls of SendResultToJsm.
  unfoldable pub run_job : Bool → Option SqsError → Job → Provider → Executed × List Sent
  unfolding replies
  run_job fast deletion j p =
      let c : Chance = record {
        deletion = deletion;
        raced = raced_by fast (handle w h j.message).result;
      } in
      let x = execute w h j p c in (x, replies x.3)
