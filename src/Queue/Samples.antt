-- ===== src/Queue/Samples.antt =====
-- A message, a queue, a configured action and what the world answers to its handler.
use Prim.Native.String.{String}
use jec.Prelude.{pos, false, List, [], ◌∷◌, none, some, ok, err}
use jec.Config.Types.{MappedAction}
use jec.Queue.Token.{AssumeRoleResult, Properties, Payload}
use jec.Queue.Sqs.{Message, Provider}
use jec.Queue.Message.{World, Handler}

abbrev pub message : List (String × String) → Message
message attrs = record {
  message_id = "m1";
  receipt_handle = "r1";
  body = "{}";
  attributes = some attrs;
}

abbrev pub role : String → AssumeRoleResult
role key = record {
  credentials = record {
    access_key_id = key;
    secret_access_key = "s";
    session_token = "t";
    expire_time_millis = pos 9;
  };
  assume_role = record { id = "i"; arn = "a" };
}

abbrev pub queue : String → Properties
queue u = record {
  assume_role_result = role "k";
  configuration = record {
    success_refresh_period_in_seconds = pos 60;
    error_refresh_period_in_seconds = pos 30;
    region = "us-west-2";
    url = u;
  };
}

abbrev pub provider : Provider
provider = record {
  queue_properties = queue "q1";
  client =
      some (record { client_region = "us-west-2"; client_credentials = (role "k").credentials });
  is_token_expired = false;
}

abbrev pub action : MappedAction
action = record {
  type = "custom";
  source_type = "local";
  git_options = record { url = ""; private_key_filepath = ""; passphrase = "" };
  filepath = "/scripts/create.sh";
  flags = [];
  args = [];
  env = [];
  stdout = "";
  stderr = "";
}

abbrev pub handler : Handler
handler = record {
  repositories = some [];
  action_specs = record {
    action_mappings = ("Create", action) ∷ [];
    global_flags = [];
    global_args = [];
    global_env = [];
  };
  action_loggers = [];
}

abbrev pub payload : String → Payload
payload name = record {
  request_id = "1";
  entity = record { id = "e"; type = "alert" };
  action = name;
  mapped_action = record { name = ""; extra_field = "" };
  action_type = "custom";
  discard_script_response = false;
}

-- Every message asks for the action of this name, and every program succeeds.
abbrev pub world : String → World
world name = record {
  parse_payload = λ s. ok (payload name);
  parse_http = λ s. err "no JSON";
  run = λ i. record { output = ""; callback_context = ""; failure = none };
}
