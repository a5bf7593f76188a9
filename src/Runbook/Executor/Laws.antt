-- ===== src/Runbook/Executor/Laws.antt =====
-- What Execute of runbook/executor.go runs, and which callback context it returns.
use jec.Prelude.{ℕ, ◌≡◌, ◌≤◌, ◌∙◌, ap, String, List, [], Option, none, length, arith}
use jec.Runbook.Types.{ExecFailure}
use jec.Runbook.Callback.{new_on_unix, buffer_size, default_text}
use jec.Runbook.Callback.Laws.{NoZero, trim-copy, take_all, trim_zeros}
use jec.Runbook.Executor.{copied, opened, default_copied, default_late, execute}

abbrev returned : List ℕ → List ℕ × Option ExecFailure
returned bytes = (bytes, none)

default_fits : length default_text ≤ buffer_size
unfolding buffer_size
default_fits = omega arith

-- A text that a script writes to the pipe, without the byte 0 and no longer than the buffer, is the
-- callback context that Execute returns, if the program succeeds and the reader has copied it in time.
pub callback_roundtrip :
    (clean : String → String) (id stderr : String) (text : List ℕ)
    → NoZero text
    → length text ≤ buffer_size
    → execute (new_on_unix clean id) (copied text) none stderr ≡ (text, none)
unfolding execute new_on_unix
callback_roundtrip clean id stderr text no_zero fits =
    ap returned (trim-copy buffer_size text no_zero ∙ take_all buffer_size text fits)

-- The callback context of a program that succeeds depends on the reader of the pipe: of a script that
-- has written its text it is empty if the reader has yet to copy it, and of a script that never opens
-- the pipe it is empty or the connector's own "Execution Finished!".
pub callback_race :
    (clean : String → String) (id stderr : String)
    → (execute (new_on_unix clean id) opened none stderr ≡ ([], none))
      × (execute (new_on_unix clean id) default_late none stderr ≡ ([], none))
      × (execute (new_on_unix clean id) default_copied none stderr ≡ (default_text, none))
unfolding execute new_on_unix
callback_race clean id stderr = (
  ap returned (trim_zeros buffer_size),
  ap returned (trim_zeros buffer_size),
  ap returned (
      trim-copy buffer_size default_text (omega arith)
      ∙ take_all buffer_size default_text default_fits),
)
