-- ===== src/Queue/Job/Reply/Laws.antt =====
-- Which answer each message gets, by queue/job.go, queue/message.go and runbook/sender.go together.
use jec.Prelude.{
  ℕ, ◌≡◌, ◌≢◌, ◌⊎◌, refl, inl, inr, String, Bool, List, [], ◌∷◌, Option, none, some, Result, ok,
  arith, Option-cases, Result-cases,
}
use jec.Retryer.Backoff.{Client}
use jec.Retryer.Request.{Request}
use jec.Retryer.Outcome.{IsDocumented}
use jec.Runbook.Types.{ActionResultPayload}
use jec.Runbook.Sender.{SendError, Sent, accepted, refused, send_result_to_jsm}
use jec.Runbook.Sender.Interface.{ResultSender, jsm_sender}
use jec.Queue.Sqs.{SqsError, Provider, send_delete}
use jec.Queue.Token.{Payload}
use jec.Queue.Message.{World, Handler, handle}
use jec.Queue.Message.Laws.{Reports, handle-Reports}
use jec.Queue.Job.{initial, Job, requested, ran, sending, Chance, addressed, address, execute}
use jec.Queue.Job.Reply.{raced_by, replies, run_job}

module _ (w : World) (h : Handler) (s : ResultSender) (text_of : SendError → String) where
  proceeds :
      (j : Job) (p : Provider) (c : Chance)
      → j.state ≡ initial
      → c.deletion ≡ none
      → address j.message.attributes j.owner ≡ addressed
      → (execute w h j p c).3
        ≡ requested (send_delete p j.message none).0
          ∷ ran (handle w h j.message).invocations
          ∷ sending (handle w h j.message).result
  unfolding execute send_delete
  proceeds j p c new gone named = ground arith

  -- A job that does not come to the handler sends nothing.
  stopped :
      (j : Job) (p : Provider) (c : Chance)
      → ((j.state ≡ initial)
          × (c.deletion ≡ none)
          × (address j.message.attributes j.owner ≡ addressed))
        ⊎ (((j.state ≢ initial)
              ⊎ ((c.deletion ≢ none) ⊎ (address j.message.attributes j.owner ≢ addressed)))
            × (replies w h s.send text_of (execute w h j p c).3 ≡ []))
  unfolding execute send_delete replies
  stopped j p c = ground arith

  decoded :
      (j : Job) {r : ActionResultPayload}
      → (handle w h j.message).result ≡ some r
      → (p : Payload) × (w.parse_payload j.message.body ≡ ok p)
  unfolding handle
  decoded j e = elim (Result-cases (w.parse_payload j.message.body)) [
    | inl (p, parsed) ↦ (p, parsed)
    | inr (bad, unparsed) ↦ absurd (ground (arith, e))
  ]

  -- The call ended without an error, and the server holds the result; or it ended with an error.
  abbrev pub Posted : ActionResultPayload → Sent → Type 0
  Posted r x = ((x ≡ accepted) × s.Held r) ⊎ ((e : SendError) × (x ≡ refused e))

  -- No answer, since the message does not come to the handler, or the handler has no result for it; or
  -- one answer, with the handler's result for the payload of the message.
  abbrev pub Answered : Job → Option SqsError → List Sent → Type 0
  Answered j deletion xs =
      ((xs ≡ [])
        × ((j.state ≢ initial)
            ⊎ ((deletion ≢ none)
                ⊎ ((address j.message.attributes j.owner ≢ addressed)
                    ⊎ ((handle w h j.message).result ≡ none)))))
      ⊎ ((r : ActionResultPayload) × (q : Payload) × (x : Sent) × ((handle w h j.message).result
            ≡ some r)
          × (w.parse_payload j.message.body ≡ ok q)
          × Reports q r (handle w h j.message)
          × (xs ≡ x ∷ [])
          × Posted r x)

  handled_lem :
      (j : Job) (p : Provider) (c : Chance)
      → (execute w h j p c).3
        ≡ requested (send_delete p j.message none).0
          ∷ ran (handle w h j.message).invocations
          ∷ sending (handle w h j.message).result
      → Answered j c.deletion (replies w h s.send text_of (execute w h j p c).3)
  unfolding replies
  handled_lem j p c e = elim (Option-cases (handle w h j.message).result) [
    | inl silent ↦ inl (rw (e, silent) refl, inr (inr (inr silent)))
    | inr (r, sent) ↦
        let (q, parsed) = decoded j sent in
        inr (
          r,
          q,
          s.send r,
          sent,
          parsed,
          handle-Reports w h j.message parsed sent,
          rw (e, sent) refl,
          s.ends r,
        )
  ]

  -- The one call for a message that comes to the handler.
  pub one_reply :
      (fast : Bool) (j : Job) (p : Provider) (r : ActionResultPayload)
      → j.state ≡ initial
      → address j.message.attributes j.owner ≡ addressed
      → (handle w h j.message).result ≡ some r
      → (run_job w h s.send text_of fast none j p).1 ≡ s.send r ∷ []
  unfolding run_job replies
  one_reply fast j p r new named sent =
      let c : Chance = record {
        deletion = none;
        raced = raced_by w h s.send text_of fast (handle w h j.message).result;
      } in
      rw (proceeds j p c new refl named, sent) refl

  answers :
      (fast : Bool) (deletion : Option SqsError) (j : Job) (p : Provider)
      → Answered j deletion (run_job w h s.send text_of fast deletion j p).1
  unfolding run_job
  answers fast deletion j p =
      let c : Chance = record {
        deletion = deletion;
        raced = raced_by w h s.send text_of fast (handle w h j.message).result;
      } in
      elim (stopped j p c) [
        | inl (new, gone, named) ↦ handled_lem j p c (proceeds j p c new gone named)
        | inr (why, silent) ↦ inl (
          silent,
          elim why [
            | inl old ↦ inl old
            | inr (inl kept) ↦ inr (inl kept)
            | inr (inr other) ↦ inr (inr (inl other))
          ],
        )
      ]

module _ (w : World) (h : Handler) (text_of : SendError → String) (server : Request → Client)
    (documented : (r : Request) (n : ℕ) → IsDocumented ((server r).answer n))
    (api_key base_url : String) (marshal : ActionResultPayload → Result String)
    (url_error : String → Option String) where
  -- With a client that keeps to its documentation, and whether or not the goroutine that sends the
  -- result is faster than Execute: Execute leads to no call of SendResultToJsm, and then the job is
  -- not new, its message is not deleted or does not name this connector, or the handler has no result
  -- for it; or it leads to one, with a result that repeats the ids of the message's payload and is a
  -- failure unless one program ran, and that call ends with an error, or the last answer to the POST
  -- of this result was 202.
  pub job_answers :
      (fast : Bool) (deletion : Option SqsError) (j : Job) (p : Provider)
      → Answered w h
          (jsm_sender server documented api_key base_url marshal url_error)
          text_of
          j
          deletion
          (run_job w h
            (λ r. send_result_to_jsm server api_key marshal url_error r base_url)
            text_of
            fast
            deletion
            j
            p).1
  job_answers =
      answers w h (jsm_sender server documented api_key base_url marshal url_error) text_of
