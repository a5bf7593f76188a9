-- ===== src/Queue/Message/Tests.antt =====
-- A git action made ready and executed, at concrete values.
use jec.Prelude.{
  false, ◌≡◌, refl, String, [], ◌∷◌, List, none, some, ok, err, cat, lookup, insert, length,
}
use jec.Config.Types.{Options, MappedAction, ActionMappings}
use jec.Config.Validate.{check_actions, git_actions, add_repository_path_to_git_action_filepaths}
use jec.Git.Repositories.{Disk, download_all, new_repositories}
use jec.Queue.Sqs.{Message}
use jec.Queue.Message.{World, Handler, execute}
use jec.Queue.Message.Ready.{execute_ready}

abbrev options : Options
options = record { url = "u"; private_key_filepath = ""; passphrase = "" }

abbrev from_repository : String → MappedAction
from_repository filepath = record {
  type = "custom";
  source_type = "git";
  git_options = options;
  filepath = filepath;
  flags = [];
  args = [];
  env = [];
  stdout = "";
  stderr = "";
}

abbrev mappings : ActionMappings
mappings = ("Create", from_repository "create.sh") ∷ []

abbrev downloads : List (Disk × Options)
downloads =
    (
      record { temp_dir = ok "/tmp/a/"; clone_fails = λ dir o. none; remove_fails = λ dir. false },
      options,
    )
    ∷ []

abbrev handler : Handler
handler = record {
  repositories = some (download_all downloads new_repositories).0;
  action_specs = record {
    action_mappings =
        add_repository_path_to_git_action_filepaths cat (download_all downloads new_repositories).0
          mappings;
    global_flags = [];
    global_args = [];
    global_env = [];
  };
  action_loggers = [];
}

abbrev world : World
world = record {
  parse_payload = λ s. err "no JSON";
  parse_http = λ s. err "no JSON";
  run = λ i. record { output = ""; callback_context = ""; failure = none };
}

abbrev message : Message
message = record { message_id = "1"; receipt_handle = "r"; body = "{}"; attributes = none }

execute_ready_example :
    length (execute world handler (from_repository "/tmp/a/create.sh") message).invocations ≡ 1
unfolding check_actions git_actions add_repository_path_to_git_action_filepaths download_all lookup
    insert
execute_ready_example =
    execute_ready world handler message "Create" (from_repository "/tmp/a/create.sh") mappings
      downloads cat refl refl refl refl refl refl
