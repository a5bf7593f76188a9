-- ===== src/Queue/Credentials/Tests.antt =====
-- A token that the server gives at once, to a processor with one poller.
use jec.Prelude.{◌≡◌, ◌⊎◌, ℤ, String, [], ◌∷◌, none, some, Option, Result, ok, false}
use jec.Retryer.Backoff.{Client}
use jec.Retryer.Request.{Request}
use jec.Queue.Token.{Token}
use jec.Queue.Poller.{Poller, new_poller}
use jec.Queue.Processor.{Pollers}
use jec.Queue.Credentials.{TokenError, received, refused, receive_token}
use jec.Queue.Credentials.Laws.{Holds, token_request, receive_token_ends}
use jec.Queue.Lifecycle.Samples.{configuration, queue, token}

abbrev giving : Request → Client
giving r = record {
  seek_fails = λ n. false;
  answer = λ n.
      (some (record { status_code = 200; status = "200"; token_header = "{}"; body = none }), none);
}

abbrev poller : Poller
poller =
    new_poller (record { queue_properties = queue; client = none; is_token_expired = false })
      configuration.poller_conf "o"

abbrev pollers : Pollers
pollers = ("q", poller) ∷ []

abbrev given_token : String → Result (Option Token)
given_token text = ok (some token)

abbrev digits : ℤ → String
digits z = "0"

abbrev valid_url : String → Option String
valid_url u = none

receive_token_ends_example :
    ((t : Option Token) × (receive_token digits given_token valid_url giving "jec" configuration
          pollers
        ≡ received t)
      × Holds digits given_token valid_url
          (giving (token_request digits given_token valid_url configuration "jec" pollers))
          t)
    ⊎ ((e : TokenError) × (receive_token digits given_token valid_url giving "jec" configuration
            pollers
          ≡ refused e))
receive_token_ends_example =
    receive_token_ends digits given_token valid_url giving (λ r n. tt) "jec" configuration pollers
