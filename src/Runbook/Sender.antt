-- ===== src/Runbook/Sender.antt =====
-- SendResultToJsm of runbook/sender.go. json.Marshal and http.NewRequest are parameters, as is the
-- HTTP client.
pub mod Laws
pub mod Interface
use jec.Prelude.{
  ◌++◌, ◌≡◌, ◌⊎◌, ◌==◌, refl, inl, inr, ℕ, String, List, [], ◌∷◌, Option, none, some, Result, ok,
  err, cat, if◌then◌else◌, true, arith, Bool-cases, Bool,
}
use jec.Retryer.Backoff.{
  Response, Client, Run, Error, Event, returns, panics, do_with_exponential_backoff,
}
use jec.Retryer.Request.{Request, seeker, new_request, send, has_body}
use jec.Retryer.Outcome.{IsDocumented}
use jec.Retryer.Settled.{settled, do_settles}
use jec.Runbook.Types.{ActionResultPayload}

pub data SendError : Type 0 where
  not_marshalled : String → SendError
  not_built : String → SendError
  not_sent : Error → SendError
  -- with the body of the response, none if it cannot be read
  unexpected_status : ℕ → Option String → SendError

-- `nil_response`: a nil response is dereferenced. `unfinished`: the fuel of the retry loop ran out.
pub data Sent : Type 0 where
  accepted : Sent
  refused : SendError → Sent
  nil_response unfinished : Sent

abbrev pub result_path : String
result_path = "/jsm/ops/jec/v1/callback"

-- The headers that are added to the request.
unfoldable pub headers : String → List (String × String)
headers api_key =
    ("Authorization", cat "GenieKey " api_key)
    ∷ ("Content-Type", "application/json; charset=UTF-8")
    ∷ []

-- 202 is http.StatusAccepted.
unfoldable pub read_status : Response → Sent
read_status r =
    if r.status_code == 202 then accepted else refused (unexpected_status r.status_code r.body)

unfoldable pub read_answer : Run → Sent
unfolding read_status
read_answer none = unfinished
read_answer (some (events, panics)) = nil_response
read_answer (some (events, returns r (some e))) = refused (not_sent e)
read_answer (some (events, returns none none)) = nil_response
read_answer (some (events, returns (some r) none)) = read_status r

unfoldable pub with_headers : String → Request → Request
unfolding headers
with_headers api_key r = record r { headers = r.headers ++ headers api_key }

module _ (server : Request → Client) (api_key : String)
    (marshal : ActionResultPayload → Result String) (url_error : String → Option String) where
  unfoldable pub send_request : Result Request → Sent
  unfolding read_answer send with_headers
  send_request (err e) = refused (not_built e)
  send_request (ok r) = read_answer (send server (with_headers api_key r))

  -- The request to `url` with this text.
  unfoldable pub post : String → String → Result Request
  unfolding new_request
  post url text = new_request (url_error url) "POST" url (seeker text)

  unfoldable pub send_text : String → Result String → Sent
  unfolding send_request post
  send_text base_url (err e) = refused (not_marshalled e)
  send_text base_url (ok text) = send_request (post (cat base_url result_path) text)

  unfoldable pub send_result_to_jsm : ActionResultPayload → String → Sent
  unfolding send_text
  send_result_to_jsm payload base_url = send_text base_url (marshal payload)
