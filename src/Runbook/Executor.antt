-- ===== src/Runbook/Executor.antt =====
-- Execute of runbook/executor.go: the command that runs an executable, and what comes back of it.
--
-- exec.Cmd, filepath.Ext and the environment of the process are parameters. The reader of the pipe is
-- a goroutine: `Moment` says how far it is when Execute looks.
pub mod Laws
use jec.Prelude.{ℕ, String, List, [], ◌∷◌, ◌++◌, Option, none, some, lookup, Result, ok, err}
use jec.Runbook.Types.{Writer, buffer, Invocation, ExecFailure, exec_error}
use jec.Runbook.Callback.{Handler, open_pipe, fill, close_pipe, trim}

-- The programs that run a file, by its extension, with their own arguments.
abbrev pub executables : List (String × (String × List String))
executables =
    (".bat", ("cmd", "/C" ∷ []))
    ∷ (".cmd", ("cmd", "/C" ∷ []))
    ∷ (".ps1", ("powershell", "-File" ∷ []))
    ∷ (".sh", ("sh", []))
    ∷ (".py", ("python", []))
    ∷ (".groovy", ("groovy", []))
    ∷ (".go", ("go", "run" ∷ []))
    ∷ []

pub record Command : Type 0 where
  pub name : String
  pub args : List String
  pub env : List String
  pub stdout : List Writer
  pub stderr : List Writer

abbrev with_pipe : List String → String → List String
with_pipe args pipe_path = args ++ ("--jecNamedPipe" ∷ pipe_path ∷ [])

-- The name and the arguments of exec.Command.
unfoldable pub command_line :
    Option (String × List String) → String → List String → String × List String
command_line none executable_path args = (executable_path, args)
command_line (some (name, own)) executable_path args = (name, (own ++ executable_path ∷ []) ++ args)

-- `ext` is filepath.Ext of the path in lower case, `environ` os.Environ().
unfoldable pub command : (String → String) → List String → Handler → Invocation → Command
unfolding command_line
command ext environ h i =
    let (name, args) =
      command_line (lookup (ext i.executable_path) executables) i.executable_path
        (with_pipe i.args h.pipe_path) in
    record {
      name = name;
      args = args;
      env = environ ++ i.environment_vars;
      stdout = i.stdout;
      stderr = i.stderr ++ buffer ∷ [];
    }

-- How far the goroutine Read is. The script has opened the pipe before it ended, and Read has copied
-- these bytes before Execute reads the buffer, or has yet to copy them; or the script has not opened
-- the pipe, and Read has copied what ClosePipe writes, or has yet to.
pub data Moment : Type 0 where
  copied : List ℕ → Moment
  opened : Moment
  default_copied default_late : Moment

abbrev copy_default : Option (List ℕ) → Handler → Handler
copy_default none h = h
copy_default (some bytes) h = fill bytes (open_pipe h)

-- The handler as Execute finds it after ClosePipe.
unfoldable pub after_close : Moment → Handler → Handler
unfolding fill open_pipe close_pipe
after_close (copied bytes) h = fill bytes (open_pipe h)
after_close opened h = open_pipe h
after_close default_copied h = copy_default (close_pipe h) h
after_close default_late h = h

-- What Execute returns: the callback context, and the error of the run with the text of stderr.
unfoldable pub execute : Handler → Moment → Option String → String → List ℕ × Option ExecFailure
unfolding after_close trim
execute h moment (some error) stderr = ([], some (exec_error error stderr))
execute h moment none stderr = (trim (after_close moment h).callback_context_buffer, none)
