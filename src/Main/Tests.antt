-- ===== src/Main/Tests.antt =====
-- A process that starts its processor, gets a signal and exits.
use jec.Prelude.{wrap, ◌*ℤ◌, ◌≡◌, refl, ℕ, String, Bool, false, some, ok, arith, insert}
use jec.Queue.Sqs.{new_sqs_provider}
use jec.Queue.Processor.{good_periods}
use jec.Queue.Poller
use jec.Queue.Poller.{new_poller}
use jec.Queue.Lifecycle
use jec.Queue.Lifecycle.{start, stop, finish, end_loop, end_pulling}
use jec.Queue.Lifecycle.Step.{loop_ends, pulling_ends}
use jec.Queue.Lifecycle.Samples.{configuration, answers}
use jec.Main.{
  Process, Reach, booted, later, boot, calls_start, receives_signal, calls_stop, stop_returns,
  works, call_start, call_stop, return_stop, exit_on,
}
use jec.Main.Exit.{Clean, exits-Clean}
use jec.Main.Liveness.{Runs, can_exit}

abbrev none_fails : String → Bool
none_fails path = false

abbrev one_each : String → ℕ
one_each path = 1

-- Start has returned, and the signal is there.
signalled_process : (p : Process) × Reach none_fails (ok configuration) p
unfolding boot Lifecycle.new start call_start exit_on insert wrap ◌*ℤ◌
signalled_process =
    let r0 : Reach none_fails (ok configuration) _ = booted refl in
    let r1 = later r0 refl refl (calls_start answers refl refl) in
    (_, later r1 refl refl (receives_signal refl))

exited_process : (p : Process) × Reach none_fails (ok configuration) p
unfolding signalled_process stop call_stop return_stop finish end_loop end_pulling insert
    new_sqs_provider Poller.start new_poller
exited_process =
    let r1 = later signalled_process.1 refl refl (calls_stop refl refl refl) in
    let r2 = later r1 refl refl (works (loop_ends (omega arith) refl) refl) in
    let r3 = later r2 refl refl (works (pulling_ends (omega arith) refl) refl) in
    (_, later r3 refl refl (stop_returns refl refl))

exits-Clean_example : Clean one_each exited_process.0
unfolding exited_process return_stop
exits-Clean_example = exits-Clean one_each (λ path. refl) exited_process.1 refl

can_exit_example : (q : Process) × Runs none_fails q signalled_process.0 × (q.exit ≡ some 0)
unfolding signalled_process good_periods
can_exit_example = can_exit none_fails signalled_process.0 signalled_process.1 refl refl refl refl
