-- ===== src/WindowsService.antt =====
-- windows_service/main/jecService.go: the Windows service that runs the connector as a child process.
--
-- The service manager (kardianos/service), the process, the files and kernel32.dll stand outside: what
-- they answer is an argument. A nil pointer that is dereferenced is a panic.
pub mod Laws
mod Tests
use jec.Prelude.{
  ℕ, ◌-◌, ◌==◌, Bool, true, false, not, ◌&&◌, String, List, [], ◌∷◌, ◌++◌, Option, none, some,
  Result, ok, err, if◌then◌else◌, cat, str_eq, length, take,
}

pub record Config : Type 0 where
  pub name : String
  pub display_name : String
  pub description : String
  pub jec_path : String
  pub args : List String
  pub env : List String
  pub stderr : String
  pub stdout : String

-- exec.Cmd as far as it is read: Process is nil before the process has started, and ProcessState is set
-- when it has ended.
pub data Process : Type 0 where
  unstarted : Process
  running : (pid : ℕ) → Process
  ended : Process

pub record Command : Type 0 where
  pub name : String
  pub args : List String
  pub env : List String

-- Start: the command that `run` runs on its own goroutine.
unfoldable pub start : Config → List String → Command
start c environ = record { name = "cmd"; args = "/C" ∷ c.jec_path ∷ c.args; env = environ ++ c.env }

pub data Effect : Type 0 where
  opens : (file : String) → Effect
  runs : Effect
  asks_stop : Effect

-- What the world answers to `run`: the files that cannot be opened, and what becomes of the process.
pub record Chance : Type 0 where
  pub open_fails : String → Bool
  pub outcome : Process

-- What `run` leaves: the process, and what was done.
abbrev pub Ran : Type 0
Ran = Process × List Effect

-- A file that is named is opened; if it cannot be, the service is asked to stop, and `run` returns.
unfoldable pub open_then : Chance → String → Ran → Ran
open_then c file rest =
    if str_eq file ""
    then rest
    else if c.open_fails file
    then (unstarted, opens file ∷ asks_stop ∷ [])
    else (rest.0, opens file ∷ rest.1)

unfoldable pub run : Chance → Config → Ran
unfolding open_then
run c conf = open_then c conf.stderr (open_then c conf.stdout (c.outcome, runs ∷ asks_stop ∷ []))

-- The procedures of kernel32.dll that sendCtrlCEvent calls, in its order.
abbrev pub procedures : List String
procedures =
    "FreeConsole" ∷ "AttachConsole" ∷ "SetConsoleCtrlHandler" ∷ "GenerateConsoleCtrlEvent" ∷ []

pub record Kernel : Type 0 where
  pub load_fails : Bool
  pub missing : String → Bool
  pub call_fails : String → Bool

-- The errType of each message about a failure, the procedures called, and whether it panicked.
pub record Signal : Type 0 where
  pub messages : List String
  pub called : List String
  pub panicked : Bool

abbrev note : String → Signal → Signal
note message s = record s { messages = message ∷ s.messages }

abbrev call : String → Signal → Signal
call name s = record s { called = name ∷ s.called }

-- A procedure that is not found is a nil pointer, and the call of it that follows panics.
unfoldable pub call_all : Kernel → List String → Signal
call_all k [] = record { messages = []; called = []; panicked = false }
call_all k (p ∷ ps) =
    let rest = call_all k ps in
    if k.missing p
    then record { messages = cat (cat "FindProc[" p) "]" ∷ []; called = []; panicked = true }
    else call p (if k.call_fails p then note p rest else rest)

-- A library that is not loaded is a nil pointer as well.
unfoldable pub send_ctrl_c_event : Kernel → Signal
unfolding call_all
send_ctrl_c_event k =
    if k.load_fails
    then record { messages = "LoadDLL" ∷ []; called = []; panicked = true }
    else call_all k procedures

pub data Stopped : Type 0 where
  returns : Option Signal → Stopped
  panics : Stopped

-- Stop: a process that has ended needs no signal.
unfoldable pub stop : Kernel → Process → Stopped
unfolding send_ctrl_c_event
stop k ended = returns none
stop k (running pid) = returns (some (send_ctrl_c_event k))
stop k unstarted = panics

-- getConfigPath: the name of the executable without its extension, and ".json". A path is the list of
-- its bytes; `ext` is filepath.Ext.
unfoldable pub get_config_path : (List ℕ → List ℕ) → List ℕ → List ℕ
get_config_path ext path =
    take (length path - length (ext path)) path ++ (b'.' ∷ b'j' ∷ b's' ∷ b'o' ∷ b'n' ∷ [])

-- validateConfig: the file that log.Fatalf names, if it is called.
unfoldable pub validate_config : (String → Bool) → (String → Bool) → Config → Option String
validate_config open_fails stat_fails c =
    if not (str_eq c.stderr "") && open_fails c.stderr
    then some c.stderr
    else if not (str_eq c.stdout "") && open_fails c.stdout
    then some c.stdout
    else if stat_fails c.jec_path
    then some c.jec_path
    else none

-- How main ends for the arguments of the process.
pub data Exit : Type 0 where
  fatal : Exit
  controlled : (action message : String) → Exit
  served : Exit

-- main with an action: "start" checks the configuration first. `control` is the error of service.Control.
unfoldable pub control :
    (String → Bool) → (String → Bool) → (String → Bool) → Config → String → Exit
unfolding validate_config
control open_fails stat_fails control_fails c action =
    let checked : Option String =
      if str_eq action "start" then validate_config open_fails stat_fails c else none in
    elim checked [
      | some file ↦ fatal
      | none ↦
          if control_fails action
          then fatal
          else if str_eq action "stop"
          then controlled action "JEC service stopped successfully."
          else controlled action (cat (cat "JEC service " action) "ed successfully.")
    ]

-- What the world answers to main: os.Executable, getConfig, service.New and the Logger of the service,
-- and the files that fail.
pub record Answers : Type 0 where
  pub executable : Result (List ℕ)
  pub get_config : List ℕ → Result Config
  pub service_error : Option String
  pub logger_error : Option String
  pub open_fails : String → Bool
  pub stat_fails : String → Bool
  pub control_fails : String → Bool

-- The arguments of the process, after its name.
unfoldable pub serve : Answers → Config → List String → Exit
unfolding control
serve a c [] = served
serve a c (action ∷ args) = control a.open_fails a.stat_fails a.control_fails c action

unfoldable pub with_config : Answers → List String → Result Config → Exit
unfolding serve
with_config a args (err e) = fatal
with_config a args (ok c) = elim a.service_error [
  | some e ↦ fatal
  | none ↦ elim a.logger_error [ some e ↦ fatal | none ↦ serve a c args ]
]

unfoldable pub with_path : (List ℕ → List ℕ) → Answers → List String → Result (List ℕ) → Exit
unfolding with_config get_config_path
with_path ext a args (err e) = fatal
with_path ext a args (ok path) = with_config a args (a.get_config (get_config_path ext path))

unfoldable pub main : (List ℕ → List ℕ) → Answers → List String → Exit
unfolding with_path
main ext a args = with_path ext a args a.executable
