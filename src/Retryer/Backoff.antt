-- ===== src/Retryer/Backoff.antt =====
-- retryer/retryer.go. The HTTP client, which stands outside the repository, is what it answers to
-- each attempt; what the loop does is the list of its effects.
--
-- math.Pow(2, n) is exact in float64 for the exponents 0 to 3 that the loop passes, so it is a power
-- of two here. The loop has at most five rounds, the fuel that `do_with_exponential_backoff` gives.
use jec.Prelude.{
  ℕ, zero, suc, ◌*◌, ◌^◌, ℤ, pos, mul64, leb, ◌==◌, Bool, true, false, ◌&&◌, ◌||◌, if◌then◌else◌,
  List, [], ◌∷◌, ◌++◌, Option, none, some, String,
}

pub record Response : Type 0 where
  pub status_code : ℕ
  pub status : String
  pub token_header : String
  -- none when reading the body fails
  pub body : Option String

-- What client.Do returns as its error: a net.Error, with its Timeout(), or another error.
pub data ClientError : Type 0 where
  net_error : (timeout : Bool) → ClientError
  other_error : ClientError

pub data Error : Type 0 where
  seek_failed : Error
  client_failed : ClientError → Error
  -- the two messages of "maximum retry count is exceeded"
  last_error : ClientError → Error
  last_status : ℕ → Error

-- `panics`: a nil pointer is dereferenced.
pub data Result : Type 0 where
  returns : Option Response → Option Error → Result
  panics : Result

pub data Event : Type 0 where
  seek request discard : Event
  sleep : ℤ → Event

-- The answers of the world to attempt 0, 1, ...: whether the body can be rewound, and what the
-- client returns.
pub record Client : Type 0 where
  pub seek_fails : ℕ → Bool
  pub answer : ℕ → Option Response × Option ClientError

abbrev pub max_retry_count : ℕ
max_retry_count = 5

-- time.Millisecond, in nanoseconds
abbrev pub millisecond : ℤ
millisecond = pos 1000000

unfoldable pub should_retry : ℕ → Bool
should_retry status = leb 500 status && leb status 599 || status == 429

unfoldable pub get_wait_time : ℕ → ℤ
get_wait_time retry_count = mul64 (pos (2 ^ retry_count * 100)) millisecond

-- What one answer leads to: another round, with what is done first, or the end.
pub data Verdict : Type 0 where
  again : List Event → Error → Verdict
  final : Result → Verdict

abbrev last_of : Response → Option ClientError → Error
last_of r none = last_status r.status_code
last_of r (some e) = last_error e

abbrev client_error : Option ClientError → Option Error
client_error none = none
client_error (some e) = some (client_failed e)

judge_response : Option Response → Option ClientError → Verdict
unfolding should_retry
judge_response none e = final panics
judge_response (some r) e =
    if should_retry r.status_code
    then again (discard ∷ []) (last_of r e)
    else final (returns (some r) (client_error e))

-- The chain of ifs after client.Do; `err.(net.Error)` holds of a net error alone.
unfoldable pub judge : Option Response × Option ClientError → Verdict
unfolding judge_response
judge (r, some (net_error true)) = again [] (last_error (net_error true))
judge (r, some (net_error false)) = final (returns none (some (client_failed (net_error false))))
judge (r, some other_error) = judge_response r (some other_error)
judge (r, none) = judge_response r none

abbrev pub Run : Type 0
Run = Option (List Event × Result)

abbrev after : List Event → Run → Run
after before none = none
after before (some (events, r)) = some (before ++ events, r)

-- The end of a round that is to be repeated: `retryCount++`, the test, and the sleep. `rest` is
-- what the next rounds do.
unfoldable pub next_round : ℕ → List Event → Error → Run → Run
unfolding get_wait_time
next_round retry_count done last rest =
    if suc retry_count == max_retry_count
    then some (done, returns none (some last))
    else after (done ++ sleep (get_wait_time retry_count) ∷ []) rest

-- One round of the loop, once the body is rewound.
unfoldable pub conclude : ℕ → List Event → Verdict → Run → Run
unfolding next_round
conclude retry_count done (final r) rest = some (done, r)
conclude retry_count done (again more last) rest = next_round retry_count (done ++ more) last rest

module _ (client : Client) (has_body : Bool) where
  abbrev rewind : List Event
  rewind = if has_body then seek ∷ [] else []

  -- One round of the loop; `rest` is what the next rounds do.
  unfoldable pub round : ℕ → Run → Run
  unfolding judge conclude
  round retry_count rest =
      if has_body && client.seek_fails retry_count
      then some (rewind, returns none (some seek_failed))
      else conclude retry_count (rewind ++ request ∷ []) (judge (client.answer retry_count)) rest

  -- The loop, `retry_count` rounds of it done; none when the fuel runs out.
  unfoldable pub loop : ℕ → ℕ → Run
  unfolding round
  loop zero retry_count = none
  loop (suc fuel) retry_count = round retry_count (loop fuel (suc retry_count))

  unfoldable pub do_with_exponential_backoff : Run
  unfolding loop
  do_with_exponential_backoff = loop max_retry_count 0
