-- ===== src/Retryer/Settled.antt =====
-- What a caller of retryer/retryer.go is left with, if the client keeps to its documentation.
use jec.Prelude.{
  ℕ, zero, suc, ◌≡◌, refl, ap, inl, inr, ◌∙◌, sym, Bool, true, false, ◌&&◌, List, Option, none,
  some, arith, Bool-cases,
}
use jec.Retryer.Backoff.{
  Response, ClientError, net_error, other_error, Result, returns, panics, Event, Client,
  should_retry, Verdict, again, final, judge, Run, next_round, conclude, round, loop,
  do_with_exponential_backoff,
}
use jec.Retryer.Outcome.{IsDocumented}
use jec.Retryer.Laws.{do_with_exponential_backoff-Bounded}

-- A response alone, or an error.
abbrev pub settled : Result → Bool
settled panics = false
settled (returns none none) = false
settled (returns none (some e)) = true
settled (returns (some r) e) = true

abbrev settles : Run → Bool
settles none = true
settles (some (events, r)) = settled r

settles_verdict : Verdict → Bool
settles_verdict (again more e) = true
settles_verdict (final r) = settled r

judge_settles :
    (a : Option Response × Option ClientError) → IsDocumented a → settles_verdict (judge a) ≡ true
unfolding judge should_retry settles_verdict
judge_settles (none, none) d = absurd d
judge_settles (none, some (net_error true)) d = refl
judge_settles (none, some (net_error false)) d = refl
judge_settles (none, some other_error) d = absurd d
judge_settles (some r, none) d = ground arith
judge_settles (some r, some (net_error true)) d = refl
judge_settles (some r, some (net_error false)) d = refl
judge_settles (some r, some other_error) d = ground arith

conclude-settles :
    (n : ℕ) (done : List Event) (v : Verdict) (rest : Run)
    → settles_verdict v ≡ true
    → settles rest ≡ true
    → settles (conclude n done v rest) ≡ true
unfolding conclude next_round settles_verdict
conclude-settles n done (final r) rest h k = h
conclude-settles n done (again more e) none h k = ground arith
conclude-settles n done (again more e) (some (events, r)) h k = ground arith

module _ (client : Client) (has_body : Bool)
    (documented : (n : ℕ) → IsDocumented (client.answer n)) where
  loop-settles : (fuel n : ℕ) → settles (loop client has_body fuel n) ≡ true
  unfolding loop round
  loop-settles zero n = refl
  loop-settles (suc fuel) n = elim (Bool-cases (has_body && client.seek_fails n)) [
    | inl stuck ↦ rw stuck refl
    | inr done ↦ rw done (
        conclude-settles n _ _ _ (judge_settles (client.answer n) (documented n))
          (loop-settles fuel (suc n)))
  ]

  -- The loop ends with a response and no error, or with an error.
  pub do_settles :
      (events : List Event) × (r : Result) × (do_with_exponential_backoff client has_body
        ≡ some (events, r))
      × (settled r ≡ true)
  unfolding do_with_exponential_backoff
  do_settles =
      let (events, r, e, few, brief) = do_with_exponential_backoff-Bounded client has_body in
      (events, r, e, sym (ap settles e) ∙ loop-settles 5 0)
