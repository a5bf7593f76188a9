-- ===== src/Retryer/Outcome.antt =====
-- Which of the client's answers the loop of retryer/retryer.go returns.
use jec.Prelude.{
  ℕ, zero, suc, ◌+◌, ◌<◌, ◌≡◌, ◌≢◌, refl, ap, ◌∙◌, Bool, false, ◌&&◌, List, Option, none, some,
  arith, Bool-cases, inl, inr,
}
use jec.Retryer.Backoff.{
  Response, ClientError, net_error, other_error, Error, Result, returns, panics, Event, Client,
  should_retry, Verdict, again, final, judge, Run, next_round, conclude, round, loop,
  do_with_exponential_backoff, max_retry_count,
}

abbrev pub result_of : Run → Option Result
result_of none = none
result_of (some (events, r)) = some r

-- The answer makes the loop go round again, with this error if it was the last round.
abbrev pub Repeats : Option Response × Option ClientError → Error → Type 0
Repeats a e = (more : List Event) × (judge a ≡ again more e)

-- The body can be rewound before every attempt.
abbrev pub Rewinds : Client → Bool → Type 0
Rewinds client has_body = (n : ℕ) → (has_body && client.seek_fails n) ≡ false

next_round-result :
    (n : ℕ) (done : List Event) (last : Error) (rest : Run)
    → n < 4
    → result_of (next_round n done last rest) ≡ result_of rest
unfolding next_round
next_round-result n done last none h = ground arith
next_round-result n done last (some (events, r)) h = ground arith

module _ (client : Client) (has_body : Bool) (rewinds : Rewinds client has_body) where
  round_again :
      (n : ℕ) {e : Error} (rest : Run)
      → n < 4
      → Repeats (client.answer n) e
      → result_of (round client has_body n rest) ≡ result_of rest
  unfolding round conclude
  round_again n {e} rest h (more, j) = rw (rewinds n, j) (next_round-result n _ e rest h)

  round_last :
      {e : Error} (rest : Run)
      → Repeats (client.answer 4) e
      → result_of (round client has_body 4 rest) ≡ some (returns none (some e))
  unfolding round conclude next_round
  round_last rest (more, j) = rw (rewinds 4, j)

  round_final :
      (n : ℕ) {r : Result} (rest : Run)
      → judge (client.answer n) ≡ final r
      → result_of (round client has_body n rest) ≡ some r
  unfolding round conclude
  round_final n rest j = rw (rewinds n, j)

  loop_final :
      (k fuel n : ℕ) {r : Result}
      → k < fuel
      → n + fuel ≡ 5
      → ((i : ℕ) → i < n + k → (e : Error) × Repeats (client.answer i) e)
      → judge (client.answer (n + k)) ≡ final r
      → result_of (loop client has_body fuel n) ≡ some r
  unfolding loop
  loop_final k zero n h s early j = absurd (omega arith)
  loop_final zero (suc fuel) n h s early j =
      round_final n _ (ap (λ m. judge (client.answer m)) (omega arith) ∙ j)
  loop_final (suc k) (suc fuel) n h s early j =
      round_again n _ (omega arith) (early n (omega arith)).1
      ∙ loop_final k fuel (suc n) (omega arith) (omega arith) (λ i lt. early i (omega arith))
          (ap (λ m. judge (client.answer m)) (omega arith) ∙ j)

  -- When the body can be rewound before every attempt, the loop returns the first answer that is not
  -- to be repeated, if there is one among five.
  pub first_final :
      (k : ℕ) {r : Result}
      → k < max_retry_count
      → ((i : ℕ) → i < k → (e : Error) × Repeats (client.answer i) e)
      → judge (client.answer k) ≡ final r
      → result_of (do_with_exponential_backoff client has_body) ≡ some r
  unfolding do_with_exponential_backoff
  first_final k h early j =
      loop_final k 5 0 h refl (λ i lt. early i (omega arith))
        (ap (λ m. judge (client.answer m)) (omega arith) ∙ j)

  -- When the body can be rewound before every attempt, five answers to be repeated end in the error that names the last of them.
  pub gives_up :
      {e : Error}
      → ((i : ℕ) → i < 4 → (e : Error) × Repeats (client.answer i) e)
      → Repeats (client.answer 4) e
      → result_of (do_with_exponential_backoff client has_body) ≡ some (returns none (some e))
  unfolding do_with_exponential_backoff loop
  gives_up early last =
      round_again 0 _ (omega arith) (early 0 (omega arith)).1
      ∙ (round_again 1 _ (omega arith) (early 1 (omega arith)).1
          ∙ (round_again 2 _ (omega arith) (early 2 (omega arith)).1
              ∙ (round_again 3 _ (omega arith) (early 3 (omega arith)).1 ∙ round_last none last)))

-- What the documentation of http.Client promises: an error that comes without a response is a
-- *url.Error, which is a net.Error.
abbrev pub IsDocumented : Option Response × Option ClientError → Type 0
IsDocumented (none, none) = ⊥
IsDocumented (none, some other_error) = ⊥
IsDocumented _ = Unit

judge-ne-panics :
    (a : Option Response × Option ClientError) → IsDocumented a → judge a ≢ final panics
unfolding judge should_retry
judge-ne-panics (none, none) d = absurd d
judge-ne-panics (none, some (net_error b)) d = ground arith
judge-ne-panics (none, some other_error) d = absurd d
judge-ne-panics (some r, none) d = ground arith
judge-ne-panics (some r, some (net_error b)) d = ground arith
judge-ne-panics (some r, some other_error) d = ground arith

conclude-ne-panics :
    (n : ℕ) (done : List Event) (v : Verdict) (rest : Run)
    → v ≢ final panics
    → result_of rest ≢ some panics
    → result_of (conclude n done v rest) ≢ some panics
unfolding conclude next_round
conclude-ne-panics n done (final r) rest h k = λ e. h (cc e)
conclude-ne-panics n done (again more e) none h k = ground arith
conclude-ne-panics n done (again more e) (some (events, r)) h k = ground arith

module _ (client : Client) (has_body : Bool)
    (documented : (n : ℕ) → IsDocumented (client.answer n)) where
  loop-ne-panics : (fuel n : ℕ) → result_of (loop client has_body fuel n) ≢ some panics
  unfolding loop round
  loop-ne-panics zero n = ground arith
  loop-ne-panics (suc fuel) n = elim (Bool-cases (has_body && client.seek_fails n)) [
    | inl stuck ↦ rw stuck (ground arith)
    | inr done ↦ rw done (
        conclude-ne-panics n _ _ _ (judge-ne-panics (client.answer n) (documented n))
          (loop-ne-panics fuel (suc n)))
  ]

  -- With a client that keeps to its documentation the loop dereferences no nil response.
  pub do_with_exponential_backoff-ne-panics :
      result_of (do_with_exponential_backoff client has_body) ≢ some panics
  unfolding do_with_exponential_backoff
  do_with_exponential_backoff-ne-panics = loop-ne-panics 5 0
