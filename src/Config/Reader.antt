-- ===== src/Config/Reader.antt =====
-- conf/reader.go, conf/util.go, conf/git_reader.go, conf/local_reader.go: where the configuration
-- is read from.
--
-- The environment, package strings, package path/filepath, the decoders, the disk and git stand
-- outside, and are the record Os. A *Configuration is never nil where it comes without an error, and
-- the comparison of `conf` with a new pointer in `validate` is always false, so it has no entry.
use jec.Prelude.{
  String, Bool, true, Option, none, some, if◌then◌else◌, Result, ok, err, cat, str_eq,
}
use jec.Config.Types.{Configuration}

pub record Os : Type 0 where
  pub goos : String
  pub getenv : String → String
  pub to_lower : String → String
  pub to_upper : String → String
  -- strings.HasPrefix of "~/", and what strings.TrimPrefix leaves
  pub after_tilde : String → Option String
  pub join : String → String → String
  pub clean : String → String
  pub ext : String → String
  pub read_bytes : String → Result String
  -- json.Unmarshal and yaml.Unmarshal into a new Configuration, with the decoder of each action
  pub json : String → Result Configuration
  pub yaml : String → Result Configuration
  -- git.CloneMaster: the directory of the clone
  pub clone : String → String → String → Result String
  -- logrus.ParseLevel, and logrus.InfoLevel
  pub parse_level : String → Option String
  pub info_level : String

unknown_extension : String → String
unknown_extension extension =
    cat (cat "Unknown configuration file extension[" extension)
      "]. Only \".json\" and \".yml(.yaml)\" types are allowed."

unfoldable pub home_dir : Os → String
home_dir os = if str_eq os.goos "windows" then os.getenv "USERPROFILE" else os.getenv "HOME"

unfoldable pub add_home_dir_prefix : Os → String → String
unfolding home_dir
add_home_dir_prefix os filepath =
    if str_eq filepath "" then filepath else elim (os.after_tilde filepath) [
      | some rest ↦ os.join (home_dir os) rest
      | none ↦ os.clean filepath
    ]

abbrev is_extension : String → Bool
is_extension e =
    if str_eq e ".json" then true else if str_eq e ".yml" then true else str_eq e ".yaml"

unfoldable pub check_file_extension : Os → String → Option String
unfolding unknown_extension
check_file_extension os filepath =
    let extension = os.ext (os.to_lower filepath) in
    if is_extension extension then none else some (unknown_extension extension)

decode : Os → String → String → Result Configuration
unfolding unknown_extension
decode os extension file =
    if str_eq extension ".json"
    then os.json file
    else if is_extension extension
    then os.yaml file
    else err (unknown_extension extension)

unfoldable pub read_file : Os → String → Result Configuration
unfolding decode
read_file os filepath = elim (os.read_bytes filepath) [
  | err e ↦ err e
  | ok file ↦ decode os (os.ext (os.to_lower filepath)) file
]

unfoldable pub read_file_from_local : Os → String → Result Configuration
unfolding check_file_extension read_file
read_file_from_local os filepath = elim (check_file_extension os filepath) [
  | some e ↦ err e
  | none ↦ read_file os filepath
]

-- The clone is removed once the file is read.
unfoldable pub read_file_from_git : Os → String → String → String → String → Result Configuration
unfolding check_file_extension read_file
read_file_from_git os url key passphrase filepath = elim (check_file_extension os filepath) [
  | some e ↦ err e
  | none ↦ elim (os.clone url key passphrase) [
    | err e ↦ err e
    | ok dir ↦ read_file os (os.join dir filepath)
  ]
]

from_git : Os → Result Configuration
unfolding read_file_from_git add_home_dir_prefix
from_git os =
    if str_eq (os.getenv "JEC_CONF_GIT_FILEPATH") ""
    then err "Git configuration filepath could not be empty."
    else read_file_from_git os (os.getenv "JEC_CONF_GIT_URL")
        (add_home_dir_prefix os (os.getenv "JEC_CONF_GIT_PRIVATE_KEY_FILEPATH"))
        (os.getenv "JEC_CONF_GIT_PASSPHRASE") (os.getenv "JEC_CONF_GIT_FILEPATH")

from_local : Os → Result Configuration
unfolding read_file_from_local add_home_dir_prefix
from_local os =
    let filepath = os.getenv "JEC_CONF_LOCAL_FILEPATH" in
    read_file_from_local os (
      add_home_dir_prefix os
        (if str_eq filepath "" then os.join "~" (os.join "jec" "config.json") else filepath))

unfoldable pub read_file_from_source : Os → String → Result Configuration
unfolding from_git from_local
read_file_from_source os source =
    if str_eq source "git"
    then from_git os
    else if str_eq source "local"
    then from_local os
    else if str_eq source ""
    then err "JEC_CONF_SOURCE_TYPE should be set as \"local\" or \"git\"."
    else err (
        cat (cat "Unknown configuration source type[" source)
          "], valid types are \"local\" and \"git\".")
