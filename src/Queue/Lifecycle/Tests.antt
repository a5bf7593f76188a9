-- ===== src/Queue/Lifecycle/Tests.antt =====
-- A processor of queue/processor.go run by hand: one queue and one repository, stopped.
use jec.Prelude.{
  ◌+◌, wrap, ◌*ℤ◌, ℕ, ◌≡◌, refl, String, Bool, true, false, none, insert, total, arith,
}
use jec.Config.Validate.{add_repository_path_to_git_action_filepaths}
use jec.Git.Leftovers.{left_by}
use jec.Git.Laws.{made_by, removed_by}
use jec.Queue.Sqs.{new_sqs_provider}
use jec.Queue.Processor.{good_periods}
use jec.Queue.Poller
use jec.Queue.Poller.{Poller, new_poller}
use jec.Queue.Lifecycle.{System, start, stop, finish, end_loop, end_pulling, new}
use jec.Queue.Lifecycle.Live.{IsStopped, Each}
use jec.Queue.Lifecycle.Step.{Reach, fresh, later, starts, stops, loop_ends, pulling_ends}
use jec.Queue.Lifecycle.Safety.{processor-no_panic, stop_cleans, processor_restart_panics}
use jec.Queue.Lifecycle.Samples.{configuration, token, answers}

-- Start has returned.
started_system : (s : System) × Reach configuration s
unfolding new start wrap ◌*ℤ◌
started_system =
    let r0 : Reach configuration (new configuration) = fresh in
    (_, later r0 refl (starts answers refl))

-- Stop waits no longer.
halted_system : (s : System) × Reach configuration s
unfolding started_system wrap ◌*ℤ◌ stop end_loop end_pulling insert new_sqs_provider Poller.start
    new_poller
halted_system =
    let r1 = later started_system.1 refl (stops refl) in
    let r2 = later r1 refl (loop_ends (omega arith) refl) in
    (_, later r2 refl (pulling_ends (omega arith) refl))

abbrev one_each : String → ℕ
one_each path = 1

abbrev none_fails : String → Bool
none_fails path = false

processor-no_panic_example : halted_system.0.panicked ≡ false
unfolding halted_system good_periods
processor-no_panic_example = processor-no_panic halted_system.1 (omega arith) refl

stop_cleans_example :
    ((finish none_fails halted_system.0).loops ≡ 0)
    × ((finish none_fails halted_system.0).pulls ≡ 0)
    × Each IsStopped (finish none_fails halted_system.0).processor.pollers
    × ((finish none_fails halted_system.0).pool_running ≡ false)
    × (total (made_by one_each) (finish none_fails halted_system.0).disk
        ≡ total (removed_by one_each) (finish none_fails halted_system.0).disk
          + total (left_by one_each) halted_system.0.disk)
unfolding halted_system good_periods
stop_cleans_example = stop_cleans one_each none_fails halted_system.1 refl refl refl (λ path. refl)

-- Stop has returned.
stopped_system : System
unfolding halted_system good_periods
stopped_system = finish none_fails halted_system.0

processor_restart_panics_example :
    ((start answers stopped_system).1 ≡ none)
    × ((stop (start answers stopped_system).0).0.panicked ≡ true)
unfolding stopped_system finish add_repository_path_to_git_action_filepaths
processor_restart_panics_example =
    processor_restart_panics answers token stopped_system refl refl refl refl
