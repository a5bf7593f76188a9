-- ===== src/Queue/Lifecycle/Samples.antt =====
-- A configuration with one git action, a token with one queue, and what the world answers to Start.
use jec.Prelude.{false, some, pos, true, [], ◌∷◌, none, ok, cat}
use jec.Config.Types.{Options, MappedAction, Configuration}
use jec.Queue.Token.{Token, AssumeRoleResult, Properties}
use jec.Queue.Lifecycle.{Answers}

abbrev pub options : Options
options = record { url = "u"; private_key_filepath = ""; passphrase = "" }

abbrev pub action : MappedAction
action = record {
  type = "custom";
  source_type = "git";
  git_options = options;
  filepath = "create.sh";
  flags = [];
  args = [];
  env = [];
  stdout = "";
  stderr = "";
}

abbrev pub configuration : Configuration
configuration = record {
  action_specifications = record {
    action_mappings = ("Create", action) ∷ [];
    global_flags = [];
    global_args = [];
    global_env = [];
  };
  app_name = "jec";
  api_key = "k";
  base_url = "";
  poller_conf = record {
    polling_wait_interval_in_millis = pos 100;
    visibility_timeout_in_seconds = pos 30;
    max_number_of_messages = pos 10;
  };
  pool_conf = record {
    max_number_of_worker = pos 2;
    min_number_of_worker = pos 1;
    queue_size = pos 0;
    keep_alive_time_in_millis = pos 5;
    monitoring_period_in_millis = pos 5;
  };
  log_level = "info";
  logrus_level = "info";
}

abbrev pub role : AssumeRoleResult
role = record {
  credentials = record {
    access_key_id = "k";
    secret_access_key = "s";
    session_token = "t";
    expire_time_millis = pos 0;
  };
  assume_role = record { id = "i"; arn = "a" };
}

abbrev pub queue : Properties
queue = record {
  assume_role_result = role;
  configuration = record {
    success_refresh_period_in_seconds = pos 60;
    error_refresh_period_in_seconds = pos 30;
    region = "us-west-2";
    url = "q";
  };
}

abbrev pub token : Token
token = record { owner_id = "me"; queue_properties_list = queue ∷ [] }

abbrev pub answers : Answers
answers = record {
  token = ok (some token);
  disk_of = λ i. record {
    temp_dir = ok "/tmp/a";
    clone_fails = λ dir o. none;
    remove_fails = λ dir. false;
  };
  connects = λ c. true;
  join = cat;
}
