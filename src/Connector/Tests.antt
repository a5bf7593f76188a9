-- ===== src/Connector/Tests.antt =====
-- A connector that starts, polls two messages, executes the job of one
-- and asks that the other be visible again, gets a signal and exits.
use jec.Prelude.{
  ℕ, zero, suc, ◌≡◌, ◌+◌, refl, pos, wrap, ◌+ℤ◌, ◌*ℤ◌, String, Bool, false, [], ◌∷◌, none, total,
  length, arith, insert, lookup,
}
use jec.Queue.Sqs.{
  Provider, messages, send_delete, change_message_visibility, send_receive, new_sqs_provider,
}
use jec.Queue.Poller
use jec.Queue.Poller.{submitted, refused, poll, turn, submit_from, terminate_from, new_poller}
use jec.Queue.Job
use jec.Queue.Job.{execute, new_job}
use jec.Queue.Lifecycle
use jec.Queue.Lifecycle.{start, stop, finish, end_loop, end_pulling}
use jec.Queue.Lifecycle.Samples.{configuration, answers}
use jec.Queue.Samples.{message, queue, provider, world, handler}
use jec.Util.{min}
use jec.WorkerPool.New.{new_conf}
use jec.WorkerPool.Counters.{
  number_of_available_worker, add_number_of_current_and_idle_worker, add_number_of_idle_worker,
}
use jec.WorkerPool.State
use jec.WorkerPool.State.{close_queue, new, add_initial_workers, admit}
use jec.WorkerPool.Step
use jec.Queue.Delivery.{
  fresh_flow, from_queue, taken, asks, submits, returns, finishes, executes, works,
}
use jec.Queue.Poller.Laws.{shows}
use jec.Queue.Delivery.Sound.{by_handle, deletes}
use jec.Main.{boot, call_start, call_stop, return_stop, exit_on}
use jec.Connector.{
  Connector, Reach, booted, later, fresh_connector, start_pool, stop_pool, starts, receives_signal,
  stops, stops_pool, exits, loop_ends, pulling_ends, polls, flows,
}
use jec.Connector.Laws.{exit_delivers}

abbrev none_fails : String → Bool
none_fails path = false

abbrev one_each : String → String → ℕ
one_each queue_url handle = 1

-- The pool takes the first message only.
abbrev chance : Poller.Chance
chance = record {
  available = pos 2;
  answer = messages (message [] ∷ message [] ∷ []);
  submits = λ i. elim i [ zero ↦ submitted | suc j ↦ refused ];
  terminations = λ i. none;
}

-- The provider of the queue that is polled.
abbrev own_provider : Provider
own_provider = record provider { queue_properties = queue "q" }

abbrev calm : Job.Chance
calm = record { deletion = none; raced = none }

started : (x : Connector) × Reach none_fails configuration x
unfolding boot Lifecycle.new start call_start exit_on insert fresh_connector fresh_flow new new_conf
    ◌*ℤ◌ start_pool State.start add_initial_workers wrap ◌+ℤ◌ add_number_of_current_and_idle_worker
    add_number_of_idle_worker
started =
    let r0 : Reach none_fails configuration _ = booted refl in
    let r1 = later r0 refl refl refl (starts answers refl refl refl refl) in
    (
      _,
      later r1 refl refl refl
          (flows (works (Step.moves [] [] refl Step.begin_idle) refl refl) refl),
    )

polled : (x : Connector) × Reach none_fails configuration x
unfolding started insert lookup number_of_available_worker turn poll new_sqs_provider new_poller
    submit_from terminate_from send_receive min change_message_visibility new_job from_queue taken
    admit execute send_delete Lifecycle.set_pollers Poller.start
polled =
    let j = new_job "q" (message []) "me" in
    let r1 = later started.1 refl refl refl (polls "q" _ chance refl refl refl tt refl) in
    let r2 = later r1 refl refl refl (flows (asks _ _ _ [] [] refl refl) refl) in
    let r3 = later r2 refl refl refl (flows (works (Step.submits j refl refl) refl refl) refl) in
    let r4 = later r3 refl refl refl (
      flows
        (submits _ _ _ [] [] refl refl
          (Step.returns [] [] refl (Step.send_handover [] [] refl refl refl)) refl refl)
        refl) in
    let r5 =
      later (later r4 refl refl refl (flows (returns _ _ _ _ [] [] refl refl) refl)) refl refl refl
        (flows (finishes _ [] [] refl refl) refl) in
    let r6 =
      later r5 refl refl refl
        (flows (works (Step.moves [] [] refl Step.take_idle) refl refl) refl) in
    (
      _,
      later r6 refl refl refl (
          flows
            (executes j (world "Create") handler own_provider calm refl
              (Step.moves [] [] refl Step.execute) refl refl)
            refl),
    )

-- A signal, and Stop up to the end of run.
ended : (x : Connector) × Reach none_fails configuration x
unfolding polled stop call_stop end_loop end_pulling Poller.start
ended =
    let r1 = later polled.1 refl refl refl (receives_signal refl) in
    let r2 = later r1 refl refl refl (stops refl refl refl) in
    let r3 = later r2 refl refl refl (pulling_ends (omega arith) refl) in
    (_, later r3 refl refl refl (loop_ends (omega arith) refl refl))

exited : (x : Connector) × Reach none_fails configuration x
unfolding ended stop_pool State.stop close_queue Step.done return_stop finish
exited =
    let r1 = later ended.1 refl refl refl (stops_pool refl refl refl refl refl) in
    let r2 =
      later r1 refl refl refl (flows (works (Step.closes (omega arith) refl) refl refl) refl) in
    let r3 =
      later r2 refl refl refl
        (flows (works (Step.moves [] [] refl Step.put_idle) refl refl) refl) in
    let r4 =
      later r3 refl refl refl
        (flows (works (Step.moves [] [] refl (Step.see_closed refl refl)) refl refl) refl) in
    let r5 =
      later r4 refl refl refl
        (flows (works (Step.moves [] [] refl Step.count_out) refl refl) refl) in
    let r6 = later r5 refl refl refl (flows (works (Step.leaves [] [] refl) refl refl) refl) in
    let r7 = later r6 refl refl refl (flows (works (Step.stop_returns refl refl) refl refl) refl) in
    (_, later r7 refl refl refl (exits refl refl refl refl))

exit_delivers_example :
    (total (by_handle one_each) exited.0.flow.arrived
      ≡ total (deletes one_each) exited.0.flow.effects
        + total (shows one_each) exited.0.flow.returned)
    × (length exited.0.flow.pool.workers ≡ 0)
    × (exited.0.flow.pending ≡ [])
unfolding exited new_conf
exit_delivers_example = exit_delivers one_each (omega arith) (omega arith) exited.1 refl
