-- ===== src/Queue/Poller/Goroutine/Tests.antt =====
-- A poller that is stopped while it waits for its interval.
use jec.Prelude.{ℕ, ◌≡◌, ◌≤◌, ◌+◌, ◌*◌, refl, pos, false, [], none, length}
use jec.Config.Types.{PollerConf}
use jec.Queue.Sqs.{messages, send_receive}
use jec.Queue.Samples.{provider}
use jec.Queue.Poller
use jec.Queue.Poller.{submitted, new_poller, poll}
use jec.Queue.Poller.Goroutine.{
  Machine, new_machine, start, stop, starts, stops, polls, poll_returns, Reach, fresh, later,
  Promptly,
}
use jec.Queue.Poller.Goroutine.Laws.{stop_can_return_soon}
use jec.Util.{min}

abbrev conf : PollerConf
conf = record {
  polling_wait_interval_in_millis = pos 100;
  visibility_timeout_in_seconds = pos 30;
  max_number_of_messages = pos 5;
}

-- No message is there.
abbrev chance : Poller.Chance
chance = record {
  available = pos 1;
  answer = messages [];
  submits = λ i. submitted;
  terminations = λ i. none;
}

stopping_machine : (m : Machine) × Reach provider conf "me" m
unfolding new_machine new_poller start stop poll send_receive min
stopping_machine =
    let r0 : Reach provider conf "me" _ = fresh in
    let r1 = later r0 refl (starts refl) in
    let r2 = later r1 refl (polls [] [] refl refl refl) in
    let r3 = later r2 refl (poll_returns [] [] chance refl) in (_, later r3 refl (stops refl))

stop_can_return_soon_example :
    (k : ℕ) × (n : Machine) × Promptly stopping_machine.0 k n
    × (k ≤ 3 * length stopping_machine.0.goroutines + 1)
    × (n.stopping ≡ false)
    × (n.poller.is_running ≡ false)
    × (n.goroutines ≡ [])
unfolding stopping_machine
stop_can_return_soon_example = stop_can_return_soon chance stopping_machine.1 refl refl
