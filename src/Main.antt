-- ===== src/Main.antt =====
-- main/main.go: the connector as a process. The configuration is read, Start of the processor is called
-- on a goroutine, and a signal makes main call Stop and exit.
--
-- The goroutines of the processor are those of Queue.Lifecycle. `fails` says which directories cannot be
-- removed.
pub mod Sound
pub mod Startup
pub mod Leftovers
pub mod Exit
pub mod Liveness
mod Tests
use jec.Prelude.{ℕ, Bool, true, false, ◌≡◌, String, Option, none, some, Result, ok, err}
use jec.Config.Types.{Configuration}
use jec.Queue.Lifecycle.{System, Error, Answers, new, start, stop, finish}
use jec.Queue.Lifecycle.Step

pub record Process : Type 0 where
  pub system : System
  pub start_called : Bool
  pub signalled : Bool
  pub stop_called : Bool
  -- the status of os.Exit, once it is called
  pub exit : Option ℕ

-- main up to its `select`: without a configuration logrus.Fatalf ends the process.
unfoldable pub boot : Result Configuration → Option Process
boot (err e) = none
boot (ok c) = some (record {
  system = new c;
  start_called = false;
  signalled = false;
  stop_called = false;
  exit = none;
})

-- `if err != nil { logrus.Fatalln(err) }`
unfoldable pub exit_on : Option Error → Process → Process
exit_on none p = p
exit_on (some e) p = record p { exit = some 1 }

unfoldable pub call_start : Answers → Process → Process
unfolding exit_on
call_start a p =
    exit_on (start a p.system).1 (record p { system = (start a p.system).0; start_called = true })

-- Stop up to its wait for the goroutines.
unfoldable pub call_stop : Process → Process
unfolding exit_on
call_stop p =
    exit_on (stop p.system).1 (record p { system = (stop p.system).0; stop_called = true })

unfoldable pub return_stop : (String → Bool) → Process → Process
return_stop fails p = record p { system = finish fails p.system; exit = some 0 }

-- A step of the processor that neither Start nor Stop makes.
abbrev pub by_goroutine : {s t : System} → Step.Step s t → Bool
by_goroutine (Step.starts a free) = false
by_goroutine (Step.stops free) = false
by_goroutine (Step.stop_returns fails waits done) = false
by_goroutine (Step.loop_ends some_loop quit) = true
by_goroutine (Step.loop_ticks connects r some_loop) = true
by_goroutine (Step.pulling_ends some_pull quit) = true
by_goroutine (Step.polls url p c there) = true

pub data Moves (fails : String → Bool) (p : Process) : Process → Type 0 where
  calls_start :
      (a : Answers)
      → p.start_called ≡ false
      → p.system.stopping ≡ false
      → Moves fails p (call_start a p)
  receives_signal : p.signalled ≡ false → Moves fails p (record p { signalled = true })
  calls_stop :
      p.signalled ≡ true
      → p.stop_called ≡ false
      → p.system.stopping ≡ false
      → Moves fails p (call_stop p)
  stop_returns :
      p.system.stopping ≡ true → p.system.running_wg ≡ 0 → Moves fails p (return_stop fails p)
  works :
      {t : System} (st : Step.Step p.system t)
      → by_goroutine st ≡ true
      → Moves fails p (record p { system = t })

-- What the process may come to; an exit or a panic ends it.
pub data Reach (fails : String → Bool) (r : Result Configuration) : Process → Type 0 where
  booted : {p : Process} → boot r ≡ some p → Reach fails r p
  later :
      {p q : Process}
      → Reach fails r p
      → p.exit ≡ none
      → p.system.panicked ≡ false
      → Moves fails p q
      → Reach fails r q
