-- ===== src/Retryer/Laws.antt =====
-- What the loop of retryer/retryer.go does, whatever the client answers.
use jec.Prelude.{
  ℕ, zero, suc, ◌+◌, ◌*◌, ◌^◌, ◌<◌, ◌≤◌, ◌≡◌, refl, ap, pos, pos_part, Bool, true, false, List, [],
  ◌∷◌, ◌++◌, Option, none, some, total, total-append, arith, Bool-cases, inl, inr, ◌*ℤ◌, wrap,
}
use jec.Retryer.Backoff.{
  Response, ClientError, net_error, other_error, Error, Result, returns, Event, seek, request,
  sleep, seek_failed, Client, get_wait_time, Verdict, again, final, judge, Run, next_round,
  conclude, round, loop, do_with_exponential_backoff,
}

abbrev pub requests : Event → ℕ
requests request = 1
requests _ = 0

-- nanoseconds slept
abbrev pub slept : Event → ℕ
slept (sleep d) = pos_part d
slept _ = 0

-- The waits double from 100 ms.
get_wait_time_lem : (n : ℕ) → n < 5 → get_wait_time n ≡ pos (2 ^ n * 100000000)
unfolding get_wait_time wrap ◌*ℤ◌
get_wait_time_lem zero h = refl
get_wait_time_lem (suc zero) h = refl
get_wait_time_lem (suc (suc zero)) h = refl
get_wait_time_lem (suc (suc (suc zero))) h = refl
get_wait_time_lem (suc (suc (suc (suc zero)))) h = refl
get_wait_time_lem (suc (suc (suc (suc (suc n))))) h = absurd (omega arith)

-- A result, with a bound on the requests and on the time slept.
abbrev pub Bounded : Run → ℕ → ℕ → Type 0
Bounded r n ns =
    (events : List Event) × (res : Result) × (r ≡ some (events, res))
    × (total requests events ≤ n)
    × (total slept events ≤ ns)

-- What a round does before the client answers: at most one request, and no sleep.
Quiet : List Event → Type 0
Quiet events = (total requests events ≤ 1) × (total slept events ≡ 0)

judge_quiet :
    (a : Option Response × Option ClientError) (more : List Event) (e : Error)
    → judge a ≡ again more e
    → (total requests more ≡ 0) × (total slept more ≡ 0)
unfolding judge
judge_quiet (none, none) more e h = cc
judge_quiet (none, some (net_error true)) more e h = ground arith
judge_quiet (none, some (net_error false)) more e h = cc
judge_quiet (none, some other_error) more e h = cc
judge_quiet (some r, none) more e h = ground arith
judge_quiet (some r, some (net_error true)) more e h = ground arith
judge_quiet (some r, some (net_error false)) more e h = cc
judge_quiet (some r, some other_error) more e h = ground arith

next_round_lem :
    (n : ℕ) (done : List Event) (last : Error) (events : List Event) (res : Result)
    → n < 4
    → next_round n done last (some (events, res))
      ≡ some ((done ++ sleep (get_wait_time n) ∷ []) ++ events, res)
unfolding next_round
next_round_lem n done last events res h = ground arith

module _ (n : ℕ) (done : List Event) (one : total requests done ≤ 1)
    (none_slept : total slept done ≡ 0) where
  conclude_last :
      (v : Verdict) (rest : Run)
      → n ≡ 4
      → ((more : List Event) (e : Error)
          → v ≡ again more e
          → (total requests more ≡ 0) × (total slept more ≡ 0))
      → Bounded (conclude n done v rest) 1 0
  unfolding conclude next_round
  conclude_last (final r) rest h q = (done, r, refl, one, omega arith)
  conclude_last (again more last) rest h q =
      let (a, b) = q more last refl in
      (
        done ++ more,
        returns none (some last),
        ground arith,
        omega (arith, total-append requests done more),
        omega (arith, total-append slept done more),
      )

  conclude_bound :
      (v : Verdict) (m ns : ℕ) (rest : Run)
      → n < 4
      → ((more : List Event) (e : Error)
          → v ≡ again more e
          → (total requests more ≡ 0) × (total slept more ≡ 0))
      → Bounded rest m ns
      → Bounded (conclude n done v rest) (m + 1) (ns + 2 ^ n * 100000000)
  unfolding conclude
  conclude_bound (final r) m ns rest h q b = (done, r, refl, omega arith, omega arith)
  conclude_bound (again more last) m ns rest h q (events, res, e, some_requests, some_sleep) =
      let (a, b) = q more last refl in
      let waited = sleep (get_wait_time n) ∷ [] in
      (
        ((done ++ more) ++ waited) ++ events,
        res,
        rw e (next_round_lem n (done ++ more) last events res h),
        omega (
          arith,
          total-append requests done more,
          total-append requests (done ++ more) waited,
          total-append requests ((done ++ more) ++ waited) events,
        ),
        omega (
          arith,
          ap pos_part (get_wait_time_lem n (omega arith)),
          total-append slept done more,
          total-append slept (done ++ more) waited,
          total-append slept ((done ++ more) ++ waited) events,
        ),
      )

module _ (client : Client) where
  round_last : (has_body : Bool) (rest : Run) → Bounded (round client has_body 4 rest) 1 0
  unfolding round
  round_last false rest =
      conclude_last 4 (request ∷ []) (omega arith) refl (judge (client.answer 4)) rest refl
        (judge_quiet (client.answer 4))
  round_last true rest = elim (Bool-cases (client.seek_fails 4)) [
    | inl stuck ↦
        rw stuck (seek ∷ [], returns none (some seek_failed), refl, omega arith, omega arith)
    | inr done ↦ rw done (
        conclude_last 4 (seek ∷ request ∷ []) (omega arith) refl (judge (client.answer 4)) rest refl
          (judge_quiet (client.answer 4)))
  ]

  round_bound :
      (has_body : Bool) (n m ns : ℕ) (rest : Run)
      → n < 4
      → Bounded rest m ns
      → Bounded (round client has_body n rest) (m + 1) (ns + 2 ^ n * 100000000)
  unfolding round
  round_bound false n m ns rest h b =
      conclude_bound n (request ∷ []) (omega arith) refl (judge (client.answer n)) m ns rest h
        (judge_quiet (client.answer n)) b
  round_bound true n m ns rest h b = elim (Bool-cases (client.seek_fails n)) [
    | inl stuck ↦
        rw stuck (seek ∷ [], returns none (some seek_failed), refl, omega arith, omega arith)
    | inr done ↦ rw done (
        conclude_bound n (seek ∷ request ∷ []) (omega arith) refl (judge (client.answer n)) m ns
          rest h (judge_quiet (client.answer n)) b)
  ]

  -- The loop always comes to a result, after at most five requests and at most one and a half
  -- seconds of sleep.
  pub do_with_exponential_backoff-Bounded :
      (has_body : Bool) → Bounded (do_with_exponential_backoff client has_body) 5 1500000000
  unfolding do_with_exponential_backoff loop
  do_with_exponential_backoff-Bounded b = round_bound b 0 4 1400000000 _ (omega arith) (
      round_bound b 1 3 1200000000 _ (omega arith) (
        round_bound b 2 2 800000000 _ (omega arith)
          (round_bound b 3 1 0 _ (omega arith) (round_last b none))))
