-- ===== src/Config/Types.antt =====
-- The structs of conf/configuration.go and git.Options of git/repository.go. A map is an
-- association list in the order in which the runtime happens to iterate over it; a time.Duration
-- is the signed 64-bit integer that it is.
use jec.Prelude.{List, String, ℤ}

pub record Options : Type 0 where
  pub url : String
  pub private_key_filepath : String
  pub passphrase : String

abbrev pub Flags : Type 0
Flags = List (String × String)

pub record MappedAction : Type 0 where
  pub type : String
  pub source_type : String
  pub git_options : Options
  pub filepath : String
  pub flags : Flags
  pub args : List String
  pub env : List String
  pub stdout : String
  pub stderr : String

abbrev pub ActionMappings : Type 0
ActionMappings = List (String × MappedAction)

pub record ActionSpecifications : Type 0 where
  pub action_mappings : ActionMappings
  pub global_flags : Flags
  pub global_args : List String
  pub global_env : List String

pub record PollerConf : Type 0 where
  pub polling_wait_interval_in_millis : ℤ
  pub visibility_timeout_in_seconds : ℤ
  pub max_number_of_messages : ℤ

pub record PoolConf : Type 0 where
  pub max_number_of_worker : ℤ
  pub min_number_of_worker : ℤ
  pub queue_size : ℤ
  pub keep_alive_time_in_millis : ℤ
  pub monitoring_period_in_millis : ℤ

pub record Configuration : Type 0 where
  pub action_specifications : ActionSpecifications
  pub app_name : String
  pub api_key : String
  pub base_url : String
  pub poller_conf : PollerConf
  pub pool_conf : PoolConf
  pub log_level : String
  pub logrus_level : String
