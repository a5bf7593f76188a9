-- ===== src/Queue/Lifecycle/Step.antt =====
-- One step of the processor of queue/processor.go: of a caller of Start or Stop, of run, of
-- startPullingRepositories, or of one of the pollers.
--
-- startStopMu is held by Start, which has no wait for another step inside, and by Stop until it
-- returns. run makes its first ticker within the step of the Start that begins it: where the period is
-- not positive it panics, and what others do before it does so is left out. The pull of the repositories on the second goroutine's ticks changes none of this state.
use jec.Prelude.{Option, ◌<◌, ◌≡◌, true, false, some, String, Bool, Result, lookup, insert}
use jec.Config.Types.{Configuration}
use jec.Queue.Token.{Token}
use jec.Queue.Sqs.{Client}
use jec.Queue.Poller
use jec.Queue.Poller.{Poller, turn}
use jec.Queue.Lifecycle.{
  System, Answers, start, stop, finish, end_loop, end_pulling, tick, set_pollers, new,
}

pub data Step (s : System) : System → Type 0 where
  starts : (a : Answers) → s.stopping ≡ false → Step s (start a s).0
  stops : s.stopping ≡ false → Step s (stop s).0
  stop_returns :
      (fails : String → Bool) → s.stopping ≡ true → s.running_wg ≡ 0 → Step s (finish fails s)
  -- the two cases of the `select` of run; when both are ready, either is taken
  loop_ends : 0 < s.loops → s.quit_closed ≡ true → Step s (end_loop s)
  loop_ticks :
      (connects : Client → Bool) (r : Result (Option Token))
      → 0 < s.loops
      → Step s (tick connects r s)
  pulling_ends : 0 < s.pulls → s.quit_closed ≡ true → Step s (end_pulling s)
  polls :
      (url : String) (p : Poller) (c : Poller.Chance)
      → lookup url s.processor.pollers ≡ some p
      → Step s (set_pollers (insert url (turn p c).0 s.processor.pollers) s)

-- What a processor made by NewProcessor may come to. A panic ends the process.
pub data Reach (c : Configuration) : System → Type 0 where
  fresh : Reach c (new c)
  later : {s t : System} → Reach c s → s.panicked ≡ false → Step s t → Reach c t
