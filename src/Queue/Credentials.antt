-- ===== src/Queue/Credentials.antt =====
-- receiveToken of queue/processor.go. http.NewRequest, the HTTP client, the JSON decoder and
-- strconv.FormatInt are parameters.
pub mod Laws
mod Tests
use jec.Prelude.{
  ◌==◌, ℕ, ℤ, String, List, [], ◌∷◌, ◌++◌, Option, none, some, Result, ok, err, cat, if◌then◌else◌,
}
use jec.Config.Types.{Configuration}
use jec.Retryer.Backoff.{Response, Client, Run, Error, returns, panics}
use jec.Retryer.Request.{Request, no_body, new_request, send}
use jec.Queue.Token.{Token, expire_time_millis, region}
use jec.Queue.Poller.{Poller}
use jec.Queue.Processor.{Pollers}

pub data TokenError : Type 0 where
  not_built : String → TokenError
  not_sent : Error → TokenError
  -- with the status line and the body, none if it cannot be read
  not_ok : String → Option String → TokenError
  not_decoded : String → TokenError

-- `nil_response`: a nil response is dereferenced. `unfinished`: the fuel of the retry loop ran out.
pub data Received : Type 0 where
  -- the token, which is nil (none) where the header holds the JSON null: Decode(&token) then sets the
  -- pointer to nil, and there is no error
  received : Option Token → Received
  refused : TokenError → Received
  nil_response unfinished : Received

abbrev pub token_path : String
token_path = "/jsm/ops/jec/v1/credentials"

unfoldable pub headers : Configuration → String → List (String × String)
headers c user_agent =
    ("Authorization", cat "GenieKey " c.api_key) ∷ ("X-JEC-Client-Info", user_agent) ∷ []

module _ (format_int : ℤ → String) (decode : String → Result (Option Token))
    (url_error : String → Option String) where
  -- The query: for each poller the region of its queue, and when its role expires.
  unfoldable pub query : Pollers → List (String × String)
  query [] = []
  query ((key, p) ∷ ps) =
      (
        region p.provider.queue_properties,
        format_int (expire_time_millis p.provider.queue_properties),
      )
      ∷ query ps

  unfoldable pub read_token : Result (Option Token) → Received
  read_token (err e) = refused (not_decoded e)
  read_token (ok t) = received t

  -- 200 is http.StatusOK.
  unfoldable pub read_response : Response → Received
  unfolding read_token
  read_response r =
      if r.status_code == 200
      then read_token (decode r.token_header)
      else refused (not_ok r.status r.body)

  unfoldable pub read_answer : Run → Received
  unfolding read_response
  read_answer none = unfinished
  read_answer (some (events, panics)) = nil_response
  read_answer (some (events, returns r (some e))) = refused (not_sent e)
  read_answer (some (events, returns none none)) = nil_response
  read_answer (some (events, returns (some r) none)) = read_response r

  -- The headers and the query that are added to the request.
  unfoldable pub fill_in : Configuration → String → Pollers → Request → Request
  unfolding headers query
  fill_in c user_agent ps r = record r {
    headers = r.headers ++ headers c user_agent;
    query = r.query ++ query ps;
  }

  module _ (server : Request → Client) (user_agent : String) where
    unfoldable pub send_request : Configuration → Pollers → Result Request → Received
    unfolding read_answer send fill_in
    send_request c ps (err e) = refused (not_built e)
    send_request c ps (ok r) = read_answer (send server (fill_in c user_agent ps r))

    unfoldable pub receive_token : Configuration → Pollers → Received
    unfolding send_request new_request
    receive_token c ps =
        let url = cat c.base_url token_path in
        send_request c ps (new_request (url_error url) "GET" url no_body)
