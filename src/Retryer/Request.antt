-- ===== src/Retryer/Request.antt =====
-- retryer/request.go: a request with a body that can be rewound.
use jec.Prelude.{List, [], String, Bool, true, false, Option, none, some, Result, ok, err}
use jec.Retryer.Backoff.{Client, Run, do_with_exponential_backoff}

-- The io.Reader that NewRequest is given: nil, one that is an io.ReadSeeker, or one that is first read
-- to its end, with what ioutil.ReadAll gives.
pub data Body : Type 0 where
  no_body : Body
  seeker : String → Body
  reader : Result String → Body

-- Request: the text of `body`, none if it is nil, beside what is read of the http.Request. `query` is
-- what is added to the query of the url.
pub record Request : Type 0 where
  pub method : String
  pub url : String
  pub body : Option String
  pub headers : List (String × String)
  pub query : List (String × String)

unfoldable pub rewindable : Body → Result (Option String)
rewindable no_body = ok none
rewindable (seeker text) = ok (some text)
rewindable (reader (err e)) = err e
rewindable (reader (ok text)) = ok (some text)

unfoldable pub build : Option String → String → String → Result (Option String) → Result Request
build error method url (err e) = err e
build (some e) method url (ok body) = err e
build none method url (ok body) =
    ok (record { method = method; url = url; body = body; headers = []; query = [] })

-- NewRequest; `error` is that of http.NewRequest.
unfoldable pub new_request : Option String → String → String → Body → Result Request
unfolding rewindable build
new_request error method url body = build error method url (rewindable body)

abbrev pub has_body : Option String → Bool
has_body none = false
has_body (some text) = true

-- Do; `server` is how the HTTP client answers each request.
unfoldable pub send : (Request → Client) → Request → Run
unfolding do_with_exponential_backoff
send server r = do_with_exponential_backoff (server r) (has_body r.body)
