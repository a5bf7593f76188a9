-- ===== src/Runbook/Windows.antt =====
-- runbook/callback_context_handler_windows.go: the life of a named pipe around a run of a script, with
-- the panics of its nil interfaces.
--
-- go-winio stands outside: an answer of ListenPipe or DialPipe is whether it is an interface other than
-- nil. A panic ends the process, and is none here.
use jec.Prelude.{
  ℕ, ◌≡◌, Bool, true, false, not, ◌&&◌, ◌||◌, String, List, [], Option, none, some, Result, ok, err,
  if◌then◌else◌, arith,
}
use jec.Runbook.Callback.{Handler, read_on_windows, open_pipe, fill, new_on_windows, default_text}

pub record PipeHandler : Type 0 where
  pub handler : Handler
  -- pipeListener is not nil
  pub pipe_listener : Bool

-- What go-winio answers to one handler: ListenPipe, Accept with Read, and DialPipe.
pub record Winio : Type 0 where
  pub listens : Bool
  pub accepted : Result (List ℕ)
  pub dials : Bool

-- CreatePipe: the listener is kept whether there is an error or not.
unfoldable pub create_pipe : Winio → Handler → PipeHandler
create_pipe w h = record { handler = h; pipe_listener = w.listens }

-- Read: `defer pipeListener.Close()` looks up Close before anything is accepted.
unfoldable pub read_pipe : Winio → PipeHandler → Option PipeHandler
read_pipe w h =
    if h.pipe_listener
    then some (record h { handler = read_on_windows w.accepted h.handler })
    else none

-- ClosePipe, with what it writes: `defer pipe.Close()` looks up Close of what DialPipe gave.
unfoldable pub close_dialled : Winio → PipeHandler → Option (PipeHandler × List ℕ)
close_dialled w h =
    if not h.handler.pipe_opened_by_script
    then (if w.dials then some (h, default_text) else none)
    else some (h, [])

abbrev both :
    Option PipeHandler
    → (PipeHandler → Option (PipeHandler × List ℕ))
    → Option (PipeHandler × List ℕ)
both none k = none
both (some h) k = k h

abbrev then_read : Winio → Option (PipeHandler × List ℕ) → Option (PipeHandler × List ℕ)
then_read w none = none
then_read w (some (h, bytes)) = elim (read_pipe w h) [ none ↦ none | some h' ↦ some (h', bytes) ]

-- Execute makes the pipe, starts Read on a goroutine, runs the script and closes the pipe. The script
-- opens the pipe early, before it ends, or Read waits until ClosePipe dials.
unfoldable pub life : Winio → Bool → String → Option (PipeHandler × List ℕ)
unfolding create_pipe read_pipe close_dialled new_on_windows
life w early execution_id =
    let h = create_pipe w (new_on_windows execution_id) in
    if early then both (read_pipe w h) (close_dialled w) else then_read w (close_dialled w h)

abbrev pub is_none : Option (PipeHandler × List ℕ) → Bool
is_none none = true
is_none (some x) = false

abbrev pub is_ok : Result (List ℕ) → Bool
is_ok (ok bytes) = true
is_ok (err e) = false

-- The handling of one run of a script panics exactly if the pipe cannot be made, or if ClosePipe dials,
-- which it does unless a script's connection was accepted before, and cannot.
pub life_panics :
    (w : Winio) (early : Bool) (execution_id : String)
    → is_none (life w early execution_id)
      ≡ (not w.listens || (not (early && is_ok w.accepted) && not w.dials))
unfolding life create_pipe read_pipe close_dialled new_on_windows read_on_windows open_pipe fill
life_panics w early execution_id = ground arith
