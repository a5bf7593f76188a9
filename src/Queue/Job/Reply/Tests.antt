-- ===== src/Queue/Job/Reply/Tests.antt =====
-- A job whose result is accepted.
use jec.Prelude.{
  ℕ, arith, inl, err, lookup, ◌≡◌, refl, ◌⊎◌, List, String, true, false, [], ◌∷◌, Option, none,
  some, Result, ok,
}
use jec.Retryer.Backoff.{Client}
use jec.Retryer.Request.{Request}
use jec.Runbook.Types.{ActionResultPayload}
use jec.Runbook.Sender.{SendError, Sent, accepted, refused, send_result_to_jsm}
use jec.Runbook.Sender.Interface.{Took, jsm_sender}
use jec.Queue.Sqs.{owner_id}
use jec.Queue.Samples.{payload, action, message, provider, world, handler}
use jec.Queue.Job.{Job, initial, address}
use jec.Queue.Job.Reply.{run_job}
use jec.Queue.Message.{invocation, requested_action}
use jec.Queue.Message.Callback
use jec.Queue.Message.Callback.{Program}
use jec.Runbook.Executor.{copied}
use jec.Runbook.Callback.{buffer_size}
use jec.Queue.Job.Reply.Chain.{text_is_posted}
use jec.Queue.Job.Reply.Laws.{Answered, job_answers}

abbrev owned : Job
owned = record {
  queue_url = "q";
  message = message ((owner_id, "me") ∷ []);
  owner = "me";
  state = initial;
}

-- A server that accepts every request.
abbrev accepting : Request → Client
accepting r = record {
  seek_fails = λ n. false;
  answer = λ n.
      (some (record { status_code = 202; status = "202"; token_header = ""; body = none }), none);
}

abbrev marshal : ActionResultPayload → Result String
marshal r = ok r.request_id

abbrev valid_url : String → Option String
valid_url url = none

abbrev text_of : SendError → String
text_of e = "not sent"

job_answers_example :
    Answered
      (world "Create")
      handler
      (jsm_sender accepting (λ r n. tt) "key" "https://a" marshal valid_url)
      text_of
      owned
      none
      (run_job
        (world "Create")
        handler
        (λ r. send_result_to_jsm accepting "key" marshal valid_url r "https://a")
        text_of
        true
        none
        owned
        provider).1
job_answers_example =
    job_answers (world "Create") handler text_of accepting (λ r n. tt) "key" "https://a" marshal
      valid_url true none owned provider

abbrev written : List ℕ
written = b'o' ∷ b'k' ∷ []

-- A program that writes this text to its pipe.
abbrev writes : Program
writes c = record { output = ""; stderr = ""; error = none; moment = copied written }

abbrev as_posted : ActionResultPayload → Sent
as_posted r = send_result_to_jsm accepting "key" marshal valid_url r "https://a"

text_is_posted_example :
    (r : ActionResultPayload) × ((run_job
        (Callback.world writes
          (λ p. p)
          (λ p. ".sh")
          []
          (λ bytes. "ok")
          (λ s. ok (payload "Create"))
          (λ s. err "none"))
        handler
        as_posted
        text_of
        true
        none
        owned
        provider).1
      ≡ as_posted r ∷ [])
    × (r.is_successful ≡ true)
    × (r.callback_context ≡ "ok")
    × (r.request_id ≡ "1")
    × (((as_posted r ≡ accepted) × Took accepting (λ r n. tt) "key" "https://a" marshal valid_url r)
        ⊎ ((e : SendError) × (as_posted r ≡ refused e)))
unfolding lookup buffer_size requested_action address
text_is_posted_example =
    text_is_posted writes (λ p. p) (λ p. ".sh") [] (λ bytes. "ok") (λ s. ok (payload "Create"))
      (λ s. err "none") accepting (λ r n. tt) "key" "https://a" marshal valid_url text_of handler
      true owned provider (payload "Create") action (invocation handler action owned.message none)
      written refl refl refl refl (refl, refl) refl (inl (refl, refl)) refl refl
      (omega arith, (omega arith, tt)) (omega arith)
