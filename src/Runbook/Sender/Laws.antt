-- ===== src/Runbook/Sender/Laws.antt =====
-- How SendResultToJsm of runbook/sender.go ends.
use jec.Prelude.{
  ℕ, ◌≡◌, ◌⊎◌, ◌∙◌, ◌==◌, refl, inl, inr, String, List, [], Option, none, some, Result, ok, err,
  cat, true, arith, Bool-cases,
}
use jec.Retryer.Backoff.{
  Response, Client, Run, Error, Event, returns, panics, do_with_exponential_backoff,
}
use jec.Retryer.Backoff
use jec.Retryer.Request.{Request, seeker, send, new_request}
use jec.Retryer.Outcome.{IsDocumented}
use jec.Retryer.Settled.{settled, do_settles}
use jec.Runbook.Types.{ActionResultPayload}
use jec.Runbook.Sender.{
  SendError, not_sent, not_built, not_marshalled, Sent, accepted, refused, unexpected_status,
  headers, with_headers, read_status, read_answer, send_request, post, send_text,
  send_result_to_jsm, result_path,
}

-- The last answer to a request that has a body was 202.
abbrev pub IsAccepted : Client → Type 0
IsAccepted client =
    (events : List Event) × (r : Response) × (do_with_exponential_backoff client true
      ≡ some (events, returns (some r) none))
    × (r.status_code ≡ 202)

-- An answer of the retry loop that settles it is a response or an error.
answer-cases :
    (run : Run) (events : List Event) (x : Backoff.Result)
    → run ≡ some (events, x)
    → settled x ≡ true
    → ((r : Response) × (run ≡ some (events, returns (some r) none))
        × (read_answer run ≡ read_status r))
      ⊎ ((e : SendError) × (read_answer run ≡ refused e))
unfolding read_answer
answer-cases run events panics e s = absurd (ground (arith, s))
answer-cases run events (returns none none) e s = absurd (ground (arith, s))
answer-cases run events (returns none (some x)) e s = inr (not_sent x, rw (e, read_answer))
answer-cases run events (returns (some r) (some x)) e s = inr (not_sent x, rw (e, read_answer))
answer-cases run events (returns (some r) none) e s = inl (r, e, rw (e, read_answer))

status-cases :
    (r : Response)
    → ((read_status r ≡ accepted) × (r.status_code ≡ 202))
      ⊎ ((e : SendError) × (read_status r ≡ refused e))
unfolding read_status
status-cases r = elim (Bool-cases (r.status_code == 202)) [
  | inl accept ↦ inl (rw (accept, read_status), ground arith)
  | inr other ↦ inr (unexpected_status r.status_code r.body, rw (other, read_status))
]

-- The request that SendResultToJsm makes of a text.
abbrev pub callback_request : String → String → String → Request
callback_request api_key base_url text = record {
  method = "POST";
  url = cat base_url result_path;
  body = some text;
  headers = headers api_key;
  query = [];
}

module _ (server : Request → Client)
    (documented : (r : Request) (n : ℕ) → IsDocumented ((server r).answer n)) (api_key : String)
    (marshal : ActionResultPayload → Result String) (url_error : String → Option String) where
  -- A run that is accepted at most for the request of this text.
  abbrev Ends : String → String → Sent → Type 0
  Ends base_url text x =
      ((x ≡ accepted) × IsAccepted (server (callback_request api_key base_url text)))
      ⊎ ((e : SendError) × (x ≡ refused e))

  answer-Ends :
      (base_url text : String)
      → Ends base_url text (
          read_answer
            (do_with_exponential_backoff (server (callback_request api_key base_url text)) true))
  answer-Ends base_url text =
      let client = server (callback_request api_key base_url text) in
      let (events, x, e, s) = do_settles client true (documented _) in
      elim (answer-cases (do_with_exponential_backoff client true) events x e s) [
        | inl (r, run, same) ↦ elim (status-cases r) [
          | inl (sent, status) ↦ inl (same ∙ sent, (events, r, run, status))
          | inr (bad, refusal) ↦ inr (bad, same ∙ refusal)
        ]
        | inr (bad, refusal) ↦ inr (bad, refusal)
      ]

  request-Ends :
      (base_url text : String) (error : Option String)
      → Ends base_url text (
          send_request server api_key marshal url_error
            (new_request error "POST" (cat base_url result_path) (seeker text)))
  unfolding send_request new_request send with_headers
  request-Ends base_url text none = answer-Ends base_url text
  request-Ends base_url text (some e) = inr (not_built e, refl)

  abbrev Sends : ActionResultPayload → String → Sent → Type 0
  Sends payload base_url x =
      ((text : String) × (marshal payload ≡ ok text)
        × (x ≡ accepted)
        × IsAccepted (server (callback_request api_key base_url text)))
      ⊎ ((e : SendError) × (x ≡ refused e))

  text-Sends :
      (payload : ActionResultPayload) (base_url : String) (r : Result String)
      → marshal payload ≡ r
      → Sends payload base_url (send_text server api_key marshal url_error base_url r)
  unfolding send_text post
  text-Sends payload base_url (err e) m = inr (not_marshalled e, refl)
  text-Sends payload base_url (ok text) m =
      elim (request-Ends base_url text (url_error (cat base_url result_path))) [
        | inl (sent, held) ↦ inl (text, m, sent, held)
        | inr (bad, refusal) ↦ inr (bad, refusal)
      ]

  -- With a client that keeps to its documentation SendResultToJsm ends with an error; or it ends
  -- without, and then the last answer to the POST of the marshalled payload, with the key in its
  -- headers, was 202.
  pub send_result_to_jsm_ends :
      (payload : ActionResultPayload) (base_url : String)
      → ((text : String) × (marshal payload ≡ ok text)
          × (send_result_to_jsm server api_key marshal url_error payload base_url ≡ accepted)
          × IsAccepted (server (callback_request api_key base_url text)))
        ⊎ ((e : SendError) × (send_result_to_jsm server api_key marshal url_error payload base_url
              ≡ refused e))
  unfolding send_result_to_jsm
  send_result_to_jsm_ends payload base_url = text-Sends payload base_url (marshal payload) refl
