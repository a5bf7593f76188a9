-- ===== src/Config/Validate.antt =====
-- validate, addDefaultFlags and Read of conf/reader.go, with what Read does to the action mappings
-- (conf/util.go), AddRepositoryPathToGitActionFilepaths, and GitActions of conf/configuration.go.
--
-- An action mapping is gone through in the order of its list. The chmod of the local scripts is in
-- Config.Startup, as it only warns when it fails.
use jec.Prelude.{
  String, Bool, true, false, not, ◌&&◌, List, [], ◌∷◌, ◌++◌, Option, none, some, if◌then◌else◌,
  Result, ok, err, cat, str_eq,
}
use jec.Config.Types.{Options, MappedAction, ActionMappings, Configuration}
use jec.Git.Repositories.{Repository, Repositories, get}
use jec.Config.Reader.{Os, add_home_dir_prefix, read_file_from_source}

-- `options == (git.Options{})`
abbrev pub is_empty : Options → Bool
is_empty o = str_eq o.url "" && str_eq o.private_key_filepath "" && str_eq o.passphrase ""

unfoldable pub git_actions : ActionMappings → List Options
git_actions [] = []
git_actions ((name, a) ∷ m) =
    let rest = git_actions m in if is_empty a.git_options then rest else a.git_options ∷ rest

abbrev about_action : String → String → String → String
about_action before name after = cat (cat before name) after

-- The tests on one action.
unfoldable pub check_action : String → MappedAction → Option String
check_action name a =
    if not (str_eq a.source_type "local") && not (str_eq a.source_type "git")
    then some (about_action "Action source type of action[" name "] should be either local or git.")
    else if str_eq a.filepath ""
    then some (about_action "Filepath of action[" name "] is empty.")
    else if str_eq a.source_type "git" && is_empty a.git_options
    then some (about_action "Git options of action[" name "] is empty.")
    else none

unfoldable pub check_actions : ActionMappings → Option String
unfolding check_action
check_actions [] = none
check_actions ((name, a) ∷ m) = elim (check_action name a) [
  | some e ↦ some e
  | none ↦ check_actions m
]

unfoldable pub default_base_url : Configuration → Configuration
default_base_url c =
    if str_eq c.base_url "" then record c { base_url = "https://api.atlassian.com" } else c

unfoldable pub set_level : Os → Configuration → Configuration
set_level os c = elim (os.parse_level c.log_level) [
  | none ↦ record c { logrus_level = os.info_level; log_level = "info" }
  | some level ↦ record c { logrus_level = level }
]

abbrev pub no_actions : ActionMappings → Bool
no_actions [] = true
no_actions (a ∷ m) = false

unfoldable pub validate_mappings : Os → Configuration → Configuration × Option String
unfolding check_actions set_level
validate_mappings os c =
    if no_actions c.action_specifications.action_mappings
    then (c, some "Action mappings configuration is not found in the configuration file.")
    else elim (check_actions c.action_specifications.action_mappings) [
      | some e ↦ (c, some e)
      | none ↦ (set_level os c, none)
    ]

-- The configuration as it is left, and the error.
unfoldable pub validate : Os → Configuration → Configuration × Option String
unfolding default_base_url validate_mappings
validate os c =
    if str_eq c.api_key ""
    then (c, some "ApiKey is not found in the configuration file.")
    else validate_mappings os (default_base_url c)

abbrev prefix_options : Os → MappedAction → Options
prefix_options os a = record a.git_options {
  private_key_filepath = add_home_dir_prefix os a.git_options.private_key_filepath;
}

unfoldable pub prefix_action : Os → MappedAction → MappedAction
prefix_action os a = record a {
  filepath = if str_eq a.source_type "local" then add_home_dir_prefix os a.filepath else a.filepath;
  git_options = if str_eq a.source_type "git" then prefix_options os a else a.git_options;
  stdout = add_home_dir_prefix os a.stdout;
  stderr = add_home_dir_prefix os a.stderr;
}

unfoldable pub add_home_dir_prefix_to_action_mappings : Os → ActionMappings → ActionMappings
unfolding prefix_action
add_home_dir_prefix_to_action_mappings os [] = []
add_home_dir_prefix_to_action_mappings os ((name, a) ∷ m) =
    (name, prefix_action os a) ∷ add_home_dir_prefix_to_action_mappings os m

unfoldable pub add_default_flags : Os → Configuration → Configuration
add_default_flags os c = record c {
  action_specifications = record c.action_specifications {
    global_args =
        ("-apiKey"
          ∷ c.api_key
          ∷ "-jsmUrl"
          ∷ c.base_url
          ∷ "-logLevel"
          ∷ os.to_upper c.log_level
          ∷ [])
        ++ c.action_specifications.global_args;
  };
}

unfoldable pub prefix_mappings : Os → Configuration → Configuration
unfolding add_home_dir_prefix_to_action_mappings
prefix_mappings os c = record c {
  action_specifications = record c.action_specifications {
    action_mappings =
        add_home_dir_prefix_to_action_mappings os c.action_specifications.action_mappings;
  };
}

unfoldable pub override_key : Os → Configuration → Configuration
override_key os c =
    if str_eq (os.getenv "JEC_API_KEY") ""
    then c
    else record c { api_key = os.getenv "JEC_API_KEY" }

unfoldable pub complete : Os → Configuration × Option String → Result Configuration
unfolding prefix_mappings add_default_flags
complete os (c, some e) = err e
complete os (c, none) = ok (add_default_flags os (prefix_mappings os c))

unfoldable pub complete_source : Os → Result Configuration → Result Configuration
unfolding override_key validate complete
complete_source os (err e) = err e
complete_source os (ok c) = complete os (validate os (override_key os c))

unfoldable pub read : Os → Result Configuration
unfolding complete_source read_file_from_source
read os =
    complete_source os (read_file_from_source os (os.to_lower (os.getenv "JEC_CONF_SOURCE_TYPE")))

unfoldable pub repository_action :
    (String → String → String) → MappedAction → Result Repository → MappedAction
repository_action join a (err e) = a
repository_action join a (ok r) = record a { filepath = join r.path a.filepath }

-- An action of an unknown repository is left as it is. `join` is filepath.Join.
unfoldable pub add_repository_path :
    (String → String → String) → Repositories → MappedAction → MappedAction
unfolding repository_action get
add_repository_path join rs a =
    if str_eq a.source_type "git" then repository_action join a (get a.git_options.url rs) else a

unfoldable pub add_repository_path_to_git_action_filepaths :
    (String → String → String) → Repositories → ActionMappings → ActionMappings
unfolding add_repository_path
add_repository_path_to_git_action_filepaths join rs [] = []
add_repository_path_to_git_action_filepaths join rs ((name, a) ∷ m) =
    (name, add_repository_path join rs a) ∷ add_repository_path_to_git_action_filepaths join rs m
