-- ===== src/Queue/Credentials/Laws.antt =====
-- How receiveToken of queue/processor.go ends.
use jec.Prelude.{
  ℕ, ℤ, [], ◌∷◌, ◌≡◌, ◌⊎◌, ◌∙◌, ◌==◌, refl, inl, inr, String, List, Option, none, some, Result, ok,
  err, cat, true, false, arith, Bool-cases,
}
use jec.Config.Types.{Configuration}
use jec.Retryer.Backoff
use jec.Retryer.Backoff.{Response, Client, Run, Event, returns, panics, do_with_exponential_backoff}
use jec.Retryer.Request.{Request, no_body, new_request, send}
use jec.Retryer.Outcome.{IsDocumented}
use jec.Retryer.Settled.{settled, do_settles}
use jec.Queue.Token.{Token}
use jec.Queue.Processor.{Pollers}
use jec.Queue.Credentials.{
  TokenError, not_built, not_sent, not_ok, not_decoded, Received, received, refused, read_token,
  read_response, read_answer, send_request, receive_token, token_path, headers, query, fill_in,
}

module _ (format_int : ℤ → String) (decode : String → Result (Option Token))
    (url_error : String → Option String) where
  -- The last answer to the request was 200, with this token, or null, in its header.
  abbrev pub Holds : Client → Option Token → Type 0
  Holds client t =
      (events : List Event) × (r : Response) × (do_with_exponential_backoff client false
        ≡ some (events, returns (some r) none))
      × (r.status_code ≡ 200)
      × (decode r.token_header ≡ ok t)

  abbrev pub Ends : Client → Received → Type 0
  Ends client x =
      ((t : Option Token) × (x ≡ received t) × Holds client t)
      ⊎ ((e : TokenError) × (x ≡ refused e))

  answer-cases :
      (run : Run) (events : List Event) (x : Backoff.Result)
      → run ≡ some (events, x)
      → settled x ≡ true
      → ((r : Response) × (run ≡ some (events, returns (some r) none))
          × (read_answer format_int decode url_error run
              ≡ read_response format_int decode url_error r))
        ⊎ ((e : TokenError) × (read_answer format_int decode url_error run ≡ refused e))
  unfolding read_answer
  answer-cases run events panics e s = absurd (ground (arith, s))
  answer-cases run events (returns none none) e s = absurd (ground (arith, s))
  answer-cases run events (returns none (some x)) e s = inr (not_sent x, rw (e, read_answer))
  answer-cases run events (returns (some r) (some x)) e s = inr (not_sent x, rw (e, read_answer))
  answer-cases run events (returns (some r) none) e s = inl (r, e, rw (e, read_answer))

  token-cases :
      (x : Result (Option Token))
      → ((t : Option Token) × (read_token format_int decode url_error x ≡ received t) × (x ≡ ok t))
        ⊎ ((e : TokenError) × (read_token format_int decode url_error x ≡ refused e))
  unfolding read_token
  token-cases (ok t) = inl (t, refl, refl)
  token-cases (err e) = inr (not_decoded e, refl)

  response-cases :
      (r : Response)
      → ((t : Option Token) × (read_response format_int decode url_error r ≡ received t)
          × (r.status_code ≡ 200)
          × (decode r.token_header ≡ ok t))
        ⊎ ((e : TokenError) × (read_response format_int decode url_error r ≡ refused e))
  unfolding read_response
  response-cases r = elim (Bool-cases (r.status_code == 200)) [
    | inl fine ↦ elim (token-cases (decode r.token_header)) [
      | inl (t, same, header) ↦ inl (t, rw (fine, read_response) same, ground arith, header)
      | inr (e, same) ↦ inr (e, rw (fine, read_response) same)
    ]
    | inr other ↦ inr (not_ok r.status r.body, rw (other, read_response))
  ]

  -- What the query says: the region of each poller's queue, with the time its role expires.
  abbrev pub asked : Pollers → List (String × String)
  asked [] = []
  asked ((key, p) ∷ ps) =
      (
        p.provider.queue_properties.configuration.region,
        format_int p.provider.queue_properties.assume_role_result.credentials.expire_time_millis,
      )
      ∷ asked ps

  query-asked : (ps : Pollers) → query format_int decode url_error ps ≡ asked ps
  unfolding query
  query-asked [] = refl
  query-asked ((key, p) ∷ ps) = rw (query-asked ps) refl

  -- The request for a token.
  abbrev pub token_request : Configuration → String → Pollers → Request
  token_request c user_agent ps = record {
    method = "GET";
    url = cat c.base_url "/jsm/ops/jec/v1/credentials";
    body = none;
    headers = ("Authorization", cat "GenieKey " c.api_key) ∷ ("X-JEC-Client-Info", user_agent) ∷ [];
    query = asked ps;
  }

  module _ (server : Request → Client)
      (documented : (r : Request) (n : ℕ) → IsDocumented ((server r).answer n))
      (user_agent : String) where
    answer-Ends :
        (r : Request)
        → Ends
            (server r)
            (read_answer format_int decode url_error (do_with_exponential_backoff (server r) false))
    answer-Ends r =
        let (events, x, e, s) = do_settles (server r) false (documented r) in
        elim (answer-cases (do_with_exponential_backoff (server r) false) events x e s) [
          | inl (r, run, same) ↦ elim (response-cases r) [
            | inl (t, got, status, header) ↦ inl (t, same ∙ got, (events, r, run, status, header))
            | inr (bad, refusal) ↦ inr (bad, same ∙ refusal)
          ]
          | inr (bad, refusal) ↦ inr (bad, refusal)
        ]

    request-Ends :
        (c : Configuration) (ps : Pollers) (error : Option String)
        → Ends (server (token_request c user_agent ps)) (
            send_request format_int decode url_error server user_agent c ps
              (new_request error "GET" (cat c.base_url token_path) no_body))
    unfolding send_request new_request send fill_in headers
    request-Ends c ps none = rw (query-asked ps) (answer-Ends (token_request c user_agent ps))
    request-Ends c ps (some e) = inr (not_built e, refl)

    -- With a client that keeps to its documentation receiveToken either returns an error, or the status
    -- of the last answer is 200 and it returns the token that the header of this answer holds, which is
    -- nil, without an error, if the header holds the JSON null. The request is the GET of the credentials
    -- with the API key as the GenieKey, the user agent, and for each poller its queue's region with the
    -- time at which its role expires.
    pub receive_token_ends :
        (c : Configuration) (ps : Pollers)
        → ((t : Option Token) × (receive_token format_int decode url_error server user_agent c ps
              ≡ received t)
            × Holds (server (token_request c user_agent ps)) t)
          ⊎ ((e : TokenError) × (receive_token format_int decode url_error server user_agent c ps
                ≡ refused e))
    unfolding receive_token
    receive_token_ends c ps = request-Ends c ps (url_error (cat c.base_url token_path))
