-- ===== src/Retryer/Tests.antt =====
-- The loop of retryer/retryer.go against clients that fail at first, or always.
use jec.Prelude.{
  ℕ, ◌≡◌, refl, true, false, [], ◌∷◌, none, some, pos, wrap, ◌*ℤ◌, ltb, if◌then◌else◌,
}
use jec.Retryer.Backoff.{
  Response, net_error, Client, last_status, returns, request, discard, sleep,
  do_with_exponential_backoff,
}
use jec.Retryer.Laws.{Bounded, do_with_exponential_backoff-Bounded}
use jec.Retryer.Outcome.{result_of}
use jec.Retryer.Reference.{decide, attempts, do_with_exponential_backoff-decide}

abbrev reply : ℕ → Response
reply code = record { status_code = code; status = ""; token_header = ""; body = none }

-- Two answers 503, then 200.
abbrev recovering : Client
recovering = record {
  seek_fails = λ n. false;
  answer = λ n. (some (reply (if ltb n 2 then 503 else 200)), none);
}

-- Every attempt times out.
abbrev silent : Client
silent = record { seek_fails = λ n. false; answer = λ n. (none, some (net_error true)) }

recovering_run :
    do_with_exponential_backoff recovering false
    ≡ some (
      request
          ∷ discard
          ∷ sleep (pos 100000000)
          ∷ request
          ∷ discard
          ∷ sleep (pos 200000000)
          ∷ request
          ∷ [],
      returns (some (reply 200)) none,
    )
unfolding do_with_exponential_backoff wrap ◌*ℤ◌
recovering_run = refl

do_with_exponential_backoff-Bounded_example :
    Bounded (do_with_exponential_backoff silent true) 5 1500000000
do_with_exponential_backoff-Bounded_example = do_with_exponential_backoff-Bounded silent true

do_with_exponential_backoff-decide_example :
    result_of (do_with_exponential_backoff recovering true)
    ≡ some (decide (last_status 0) (attempts recovering true 5 0))
do_with_exponential_backoff-decide_example =
    do_with_exponential_backoff-decide recovering true (last_status 0)
