-- ===== src/Queue/Message.antt =====
-- queue/message.go: what a message of the queue makes the connector do.
--
-- The JSON decoder and the executable are parameters. Loggers are known by their file names, and a
-- name without a logger is a nil writer. The log lines and the time measured for them are left out.
pub mod Laws
pub mod Callback
pub mod Ready
pub mod Loggers
mod Tests
use jec.Prelude.{
  String, Bool, true, false, ◌&&◌, not, List, [], ◌∷◌, ◌++◌, Option, none, some, if◌then◌else◌,
  Result, ok, err, lookup, cat, str_eq,
}
use jec.Config.Types.{Flags, MappedAction, ActionSpecifications}
use jec.Git.Repositories.{Repositories, get}
use jec.Runbook.Types.{
  HttpResponse, ActionResultPayload, Writer, buffer, logger, Invocation, ExecFailure, exec_error,
  other_failure, Execution,
}
use jec.Queue.Token.{Payload, http_action_type}
use jec.Queue.Sqs.{Message}

pub record Handler : Type 0 where
  pub repositories : Option Repositories
  pub action_specs : ActionSpecifications
  -- the file names in actionLoggers
  pub action_loggers : List String

-- What stands outside: json.Unmarshal into the two structs, and ExecuteFunc.
pub record World : Type 0 where
  pub parse_payload : String → Result Payload
  pub parse_http : String → Result HttpResponse
  pub run : Invocation → Execution

-- Flags.Args: the loop over the map.
unfoldable pub flag_args : Flags → List String
flag_args [] = []
flag_args ((name, value) ∷ f) = cat "-" name ∷ value ∷ flag_args f

not_configured : String → String
not_configured action =
    cat (cat "No mapped action is configured for requested action[" action)
      "]. The request will be ignored."

not_compatible : String → String → String → String
not_compatible type action requested =
    cat
      (cat
        (cat (cat (cat (cat "The type[" type) "] of the mapped action[") action)
          "] is not compatible with requested type[")
        requested)
      "]. The request will be ignored."

unfoldable pub resolve_mapped_action : Handler → String → String → Result MappedAction
unfolding lookup not_configured not_compatible
resolve_mapped_action h action action_type = elim (lookup action h.action_specs.action_mappings) [
  | none ↦ err (not_configured action)
  | some mapped ↦
      if str_eq mapped.type action_type
      then ok mapped
      else err (not_compatible mapped.type action action_type)
]

abbrev pub has : String → List String → Bool
has k [] = false
has k (j ∷ js) = if str_eq j k then true else has k js

-- `mh.actionLoggers[name]`, nil if there is none
abbrev pub logger_of : Handler → String → List Writer
logger_of h name = if has name h.action_loggers then logger name ∷ [] else []

-- Only an HTTP action's output is kept for the result.
abbrev stdout_of : Handler → MappedAction → List Writer
stdout_of h a =
    if str_eq a.type http_action_type then buffer ∷ logger_of h a.stdout else logger_of h a.stdout

unfoldable pub invocation : Handler → MappedAction → Message → Option String → Invocation
unfolding flag_args
invocation h a m locked = record {
  execution_id = m.message_id;
  executable_path = a.filepath;
  args =
      flag_args h.action_specs.global_flags
      ++ (flag_args a.flags ++ ("-payload" ∷ m.body ∷ (h.action_specs.global_args ++ a.args)));
  environment_vars = h.action_specs.global_env ++ a.env;
  stdout = stdout_of h a;
  stderr = logger_of h a.stderr;
  locked = locked;
}

-- The output that is returned, the callback context, and the error.
pub record Outcome : Type 0 where
  pub buffered : String
  pub callback : String
  pub error : Option ExecFailure
  -- the runs that were made
  pub invocations : List Invocation

abbrev refused : String → Outcome
refused e = record {
  buffered = "";
  callback = "";
  error = some (other_failure e);
  invocations = [];
}

run_action : World → MappedAction → Invocation → Outcome
run_action w a i =
    let x = w.run i in
    record {
      buffered = if str_eq a.type http_action_type then x.output else "";
      callback = x.callback_context;
      error = x.failure;
      invocations = i ∷ [];
    }

-- The case of a git action, which falls through to the local one with the repository locked.
run_git : World → Handler → MappedAction → Message → Outcome
unfolding run_action invocation get
run_git w h a m = elim h.repositories [
  | none ↦ refused "Repositories should be provided."
  | some rs ↦ elim (get a.git_options.url rs) [
    | err e ↦ refused e
    | ok _ ↦ run_action w a (invocation h a m (some a.git_options.url))
  ]
]

unfoldable pub execute : World → Handler → MappedAction → Message → Outcome
unfolding run_git
execute w h a m =
    if str_eq a.source_type "git"
    then run_git w h a m
    else if str_eq a.source_type "local"
    then run_action w a (invocation h a m none)
    else refused (cat (cat "Unknown action sourceType[" a.source_type) "].")

-- What Handle returns, and the runs that it made.
pub record Handled : Type 0 where
  pub result : Option ActionResultPayload
  pub error : Option String
  pub invocations : List Invocation

abbrev without_result : String → List Invocation → Handled
without_result e is = record { result = none; error = some e; invocations = is }

-- The action asked for: the mapped one's name, or else the plain one.
unfoldable pub requested_action : Payload → String
requested_action p = if str_eq p.mapped_action.name "" then p.action else p.mapped_action.name

abbrev blank_result : Payload → String → ActionResultPayload
blank_result p action = record {
  request_id = p.request_id;
  is_successful = false;
  entity_id = p.entity.id;
  entity_type = p.entity.type;
  action = action;
  action_type = p.action_type;
  failure_message = "";
  callback_context = "";
  http_response = none;
}

-- The success case: an HTTP action's output is read as a response, unless that is not wanted.
succeed : World → Payload → ActionResultPayload → String → ActionResultPayload
succeed w p r output =
    if not p.discard_script_response && str_eq p.action_type http_action_type
    then elim (w.parse_http output) [
      | err e ↦ record r {
        is_successful = false;
        failure_message = cat "Could not parse http response fields: " output;
      }
      | ok response ↦ record r { is_successful = true; http_response = some response }
    ]
    else record r { is_successful = true }

-- The type switch over the error of `execute`.
finish : World → Payload → ActionResultPayload → Outcome → Option ExecFailure → Handled
unfolding succeed
finish w p r o (some (exec_error e stderr)) = record {
  result = some (record r {
    is_successful = false;
    failure_message = cat (cat (cat "Err: " e) ", Stderr: ") stderr;
    callback_context = o.callback;
  });
  error = none;
  invocations = o.invocations;
}
finish w p r o none = record {
  result = some (succeed w p (record r { callback_context = o.callback }) o.buffered);
  error = none;
  invocations = o.invocations;
}
finish w p r o (some (other_failure e)) = without_result e o.invocations

perform : World → Handler → Message → Payload → String → Handled
unfolding resolve_mapped_action execute finish
perform w h m p action = elim (resolve_mapped_action h action p.action_type) [
  | err e ↦ record {
    result = some (record (blank_result p action) { is_successful = false; failure_message = e });
    error = some e;
    invocations = [];
  }
  | ok mapped ↦ let o = execute w h mapped m in finish w p (blank_result p action) o o.error
]

handle_payload : World → Handler → Message → Payload → Handled
unfolding perform requested_action
handle_payload w h m p =
    if str_eq (requested_action p) ""
    then without_result "SQS message does not contain action property." []
    else perform w h m p (requested_action p)

unfoldable pub handle : World → Handler → Message → Handled
unfolding handle_payload
handle w h m = elim (w.parse_payload m.body) [
  | err e ↦ without_result e []
  | ok p ↦ handle_payload w h m p
]
