-- ===== src/Runbook/Sender/Interface.antt =====
-- What queue/job.go relies on in the function SendResultToJsmFunc that it calls, and that
-- SendResultToJsm of runbook/sender.go fills it.
use jec.Prelude.{◌≡◌, ◌⊎◌, inl, inr, ℕ, String, Option, Result, ok}
use jec.Retryer.Backoff.{Client}
use jec.Retryer.Request.{Request}
use jec.Retryer.Outcome.{IsDocumented}
use jec.Runbook.Types.{ActionResultPayload}
use jec.Runbook.Sender.{SendError, Sent, accepted, refused, send_result_to_jsm}
use jec.Runbook.Sender.Laws.{IsAccepted, callback_request, send_result_to_jsm_ends}

-- A call ends with an error, or without: then the server holds the result.
pub record ResultSender : Type 1 where
  pub send : ActionResultPayload → Sent
  pub Held : ActionResultPayload → Type 0
  pub ends :
      (r : ActionResultPayload)
      → ((send r ≡ accepted) × Held r) ⊎ ((e : SendError) × (send r ≡ refused e))

module _ (server : Request → Client)
    (documented : (r : Request) (n : ℕ) → IsDocumented ((server r).answer n))
    (api_key base_url : String) (marshal : ActionResultPayload → Result String)
    (url_error : String → Option String) where
  -- The last answer to the POST of the marshalled result was 202.
  abbrev pub Took : ActionResultPayload → Type 0
  Took r =
      (text : String) × (marshal r ≡ ok text)
      × IsAccepted (server (callback_request api_key base_url text))

  pub jsm_ends :
      (r : ActionResultPayload)
      → ((send_result_to_jsm server api_key marshal url_error r base_url ≡ accepted) × Took r)
        ⊎ ((e : SendError) × (send_result_to_jsm server api_key marshal url_error r base_url
              ≡ refused e))
  jsm_ends r =
      elim (send_result_to_jsm_ends server documented api_key marshal url_error r base_url) [
        | inl (text, marshalled, sent, held) ↦ inl (sent, (text, marshalled, held))
        | inr bad ↦ inr bad
      ]

  abbrev pub jsm_sender : ResultSender
  jsm_sender = record {
    send = λ r. send_result_to_jsm server api_key marshal url_error r base_url;
    Held = Took;
    ends = jsm_ends;
  }
