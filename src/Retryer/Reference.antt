-- ===== src/Retryer/Reference.antt =====
-- The loop of retryer/retryer.go without its counter, sleeps and effects: the first attempt with a
-- final verdict decides, and if there is none the last error.
use jec.Prelude.{
  ◌++◌, ◌⊎◌, ◌≢◌, inl, inr, ℕ, zero, suc, ◌+◌, ◌≡◌, refl, ap, Bool, ◌&&◌, if◌then◌else◌, List, [],
  ◌∷◌, none, some, arith, Bool-cases,
}
use jec.Retryer.Backoff.{
  Client, Error, Result, returns, seek_failed, Event, Verdict, again, final, judge, Run, next_round,
  conclude, round, loop, do_with_exponential_backoff, max_retry_count,
}
use jec.Retryer.Outcome.{result_of}

-- The result of these attempts; `last` is the error before them.
abbrev pub decide : Error → List Verdict → Result
decide last [] = returns none (some last)
decide last (final r ∷ vs) = r
decide last (again more e ∷ vs) = decide e vs

module _ (client : Client) (has_body : Bool) where
  abbrev pub attempt : ℕ → Verdict
  attempt n =
      if has_body && client.seek_fails n
      then final (returns none (some seek_failed))
      else judge (client.answer n)

  -- So many attempts, from number `n` on.
  abbrev pub attempts : ℕ → ℕ → List Verdict
  attempts zero n = []
  attempts (suc count) n = attempt n ∷ attempts count (suc n)

-- A round whose successors, if there are any, are decided like these verdicts.
abbrev Continues : ℕ → Run → List Verdict → Type 0
Continues n rest vs =
    ((suc n ≡ max_retry_count) × (vs ≡ []))
    ⊎ ((suc n ≢ max_retry_count) × ((e : Error) → result_of rest ≡ some (decide e vs)))

next_round-decide :
    (n : ℕ) (done : List Event) (e : Error) (rest : Run) (vs : List Verdict)
    → Continues n rest vs
    → result_of (next_round n done e rest) ≡ some (decide e vs)
unfolding next_round
next_round-decide n done e rest vs (inl (full, none_left)) = ground (arith, ap (decide e) none_left)
next_round-decide n done e none vs (inr (more, go)) = ground (arith, go e)
next_round-decide n done e (some (events, r)) vs (inr (more, go)) = ground (arith, go e)

conclude-decide :
    (n : ℕ) (done : List Event) (v : Verdict) (rest : Run) (vs : List Verdict) (last : Error)
    → Continues n rest vs
    → result_of (conclude n done v rest) ≡ some (decide last (v ∷ vs))
unfolding conclude
conclude-decide n done (final r) rest vs last c = refl
conclude-decide n done (again more e) rest vs last c =
    next_round-decide n (done ++ more) e rest vs c

module _ (client : Client) (has_body : Bool) where
  round-decide :
      (n : ℕ) (rest : Run) (vs : List Verdict) (last : Error)
      → Continues n rest vs
      → result_of (round client has_body n rest)
        ≡ some (decide last (attempt client has_body n ∷ vs))
  unfolding round
  round-decide n rest vs last c = elim (Bool-cases (has_body && client.seek_fails n)) [
    | inl stuck ↦ rw (stuck, round) refl
    | inr free ↦ rw (free, round) (conclude-decide n _ (judge (client.answer n)) rest vs last c)
  ]

  loop-decide :
      (fuel n : ℕ) (last : Error)
      → suc fuel + n ≡ max_retry_count
      → result_of (loop client has_body (suc fuel) n)
        ≡ some (decide last (attempts client has_body (suc fuel) n))
  unfolding loop
  loop-decide zero n last h = round-decide n _ [] last (inl (omega (arith, h), refl))
  loop-decide (suc fuel) n last h =
      round-decide n _ _ last
        (inr ((λ e. omega (arith, e, h)), λ e. loop-decide fuel (suc n) e (omega (arith, h))))

  -- DoWithExponentialBackoff returns what the first of five attempts with a final verdict returns, or
  -- the error of the fifth if there is none.
  pub do_with_exponential_backoff-decide :
      (last : Error)
      → result_of (do_with_exponential_backoff client has_body)
        ≡ some (decide last (attempts client has_body 5 0))
  unfolding do_with_exponential_backoff
  do_with_exponential_backoff-decide last = loop-decide 4 0 last refl
