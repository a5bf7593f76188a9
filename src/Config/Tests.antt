-- ===== src/Config/Tests.antt =====
-- Read of the package conf at a concrete configuration.
use text.Mathlib.TextEquality.{eq_iff}
use jec.Prelude.{
  ◌⊎◌, true, arith, insert, ◌≡◌, ◌≢◌, refl, pos, [], ◌∷◌, none, if◌then◌else◌, ok, lookup, str_eq,
}
use jec.Config.Types.{MappedAction, Configuration}
use jec.Config.Reader.{Os}
use jec.Config.Http.{HttpFields, Decoder, is_method, unmarshal}
use jec.Config.Http.Laws.{unmarshal_flags}
use jec.Config.Validate.{read}
use jec.Config.Laws.{IsSourced, read-IsSourced}

abbrev action : MappedAction
action = record {
  type = "custom";
  source_type = "local";
  git_options = record { url = ""; private_key_filepath = ""; passphrase = "" };
  filepath = "/scripts/create.sh";
  flags = [];
  args = [];
  env = [];
  stdout = "";
  stderr = "";
}

abbrev file : Configuration
file = record {
  action_specifications = record {
    action_mappings = ("Create", action) ∷ [];
    global_flags = [];
    global_args = [];
    global_env = [];
  };
  app_name = "jec";
  api_key = "k";
  base_url = "";
  poller_conf = record {
    polling_wait_interval_in_millis = pos 0;
    visibility_timeout_in_seconds = pos 0;
    max_number_of_messages = pos 0;
  };
  pool_conf = record {
    max_number_of_worker = pos 2;
    min_number_of_worker = pos 1;
    queue_size = pos 0;
    keep_alive_time_in_millis = pos 5;
    monitoring_period_in_millis = pos 5;
  };
  log_level = "loud";
  logrus_level = "";
}

abbrev os : Os
os = record {
  goos = "linux";
  getenv = λ name. if str_eq name "JEC_CONF_SOURCE_TYPE" then "local" else "";
  to_lower = λ s. s;
  to_upper = λ s. s;
  after_tilde = λ s. none;
  join = λ a b. b;
  clean = λ s. s;
  ext = λ s. ".json";
  read_bytes = λ s. ok "{}";
  json = λ s. ok file;
  yaml = λ s. ok file;
  clone = λ a b c. ok "/tmp/a";
  parse_level = λ s. none;
  info_level = "info";
}

read_file_result : (c : Configuration) × (read os ≡ ok c)
unfolding read
read_file_result = (
  record file {
    base_url = "https://api.atlassian.com";
    log_level = "info";
    logrus_level = "info";
    action_specifications = record file.action_specifications {
      global_args =
          "-apiKey" ∷ "k" ∷ "-jsmUrl" ∷ "https://api.atlassian.com" ∷ "-logLevel" ∷ "info" ∷ [];
    };
  },
  refl,
)

read-IsSourced_example :
    (read_file_result.0.api_key ≢ "") × (read_file_result.0.base_url ≢ "") × IsSourced action
unfolding read_file_result lookup
read-IsSourced_example =
    read-IsSourced os "Create" read_file_result.0 action read_file_result.1 refl

abbrev http_action : MappedAction
http_action = record action { type = "http"; flags = ("verbose", "1") ∷ [] }

abbrev fields : HttpFields
fields = record { url = "https://a.b"; headers = []; params = []; method = "GET" }

abbrev decoder : Decoder
decoder = record {
  action = λ b. ok http_action;
  fields = λ b. ok fields;
  marshal = λ f. ok "{}";
  parse_url = λ u. none;
  to_upper = λ s. s;
}

abbrev decoded : MappedAction
decoded = record http_action { flags = ("url", "https://a.b") ∷ ("method", "GET") ∷ [] }

unmarshal_flags_example :
    (lookup "verbose" decoded.flags ≡ none)
    × ((fields.method ≡ "") ⊎ (is_method fields.method ≡ true))
unfolding unmarshal insert
unmarshal_flags_example =
    unmarshal_flags decoder "{}" http_action decoded fields "verbose" refl refl refl refl
      (ground (arith, eq_iff "verbose" "params")) (ground (arith, eq_iff "verbose" "headers"))
