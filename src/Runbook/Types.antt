-- ===== src/Runbook/Types.antt =====
-- The structs of runbook/sender.go, and what a run of an executable is and gives
-- (`ExecuteFunc` of runbook/executor.go, as the message handler calls it).
use jec.Prelude.{String, Bool, ℤ, List, Option}

pub record HttpResponse : Type 0 where
  pub headers : List (String × String)
  pub body : String
  pub status_code : ℤ

pub record ActionResultPayload : Type 0 where
  pub request_id : String
  pub is_successful : Bool
  pub entity_id : String
  pub entity_type : String
  pub action : String
  pub action_type : String
  pub failure_message : String
  pub callback_context : String
  pub http_response : Option HttpResponse

-- An io.Writer that an action's output goes to: the buffer of the handler, or the logger of a file.
pub data Writer : Type 0 where
  buffer : Writer
  logger : String → Writer

-- The arguments of ExecuteFunc. `locked` is the repository whose read lock is held meanwhile.
pub record Invocation : Type 0 where
  pub execution_id : String
  pub executable_path : String
  pub args : List String
  pub environment_vars : List String
  pub stdout : List Writer
  pub stderr : List Writer
  pub locked : Option String

-- *ExecError with its two texts, or another error.
pub data ExecFailure : Type 0 where
  exec_error : (message stderr : String) → ExecFailure
  other_failure : String → ExecFailure

-- What ExecuteFunc returns, and what the program wrote to its standard output.
pub record Execution : Type 0 where
  pub output : String
  pub callback_context : String
  pub failure : Option ExecFailure
