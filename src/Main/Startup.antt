-- ===== src/Main/Startup.antt =====
-- main of main/main.go up to its processor, and the loggers that the parts make.
--
-- `clean` is filepath.Clean, by which filepath.Join ends. The metrics server of a library is known by
-- its address.
use jec.Prelude.{
  ℕ, ◌≡◌, ◌≢◌, ◌⊎◌, String, true, List, [], ◌∷◌, Option, none, Result, ok, err, pos, cat, total,
  arith,
}
use jec.Util.{Logger}
use jec.Config.Types.{Configuration}
use jec.Config.Startup.{Formatter, prepare_log_format}
use jec.Main.{Process, boot}

abbrev in_log_dir : (String → String) → String → String
in_log_dir clean name = clean (cat "/var/log/jec/" name)

-- The logger of main; `pid` is the number of the process.
unfoldable pub default_logger : (String → String) → String → Logger
default_logger clean pid = record {
  filename = in_log_dir clean (cat (cat "jec" pid) ".log");
  max_size = pos 10;
  max_age = pos 10;
  local_time = true;
}

-- newQueueMessageLogrus of queue/poller.go: the file of the messages of a region.
unfoldable pub new_queue_message_logger : (String → String) → String → String → Logger
new_queue_message_logger clean region pid = record {
  filename = in_log_dir clean (cat (cat (cat (cat "jecQueueMessages-" region) "-") pid) ".log");
  max_size = pos 3;
  max_age = pos 10;
  local_time = true;
}

-- newLogger of queue/processor.go: a file of an action.
unfoldable pub new_logger : String → Logger
new_logger filename = record {
  filename = filename;
  max_size = pos 3;
  max_age = pos 1;
  local_time = true;
}

-- What main meets.
pub record Environment : Type 0 where
  pub log_format : String
  pub pid : String
  pub configuration : Result Configuration
  pub metric_addr : String
  -- JECVersion, JECCommitVersion, and Version, GOOS and GOARCH of the package runtime
  pub version : String
  pub commit_version : String
  pub go_version : String
  pub go_os : String
  pub go_arch : String

pub data Action : Type 0 where
  formats : Formatter → Action
  -- the mode of the directory of the logs, whose error only warns
  chmods : String → Action
  logs_to : Logger → Action
  -- the goroutine of CheckLogFile
  checks : Logger → Action
  sets_level : String → Action
  -- the goroutine of the metrics server
  serves : String → Action
  makes_processor : Configuration → Action
  sends_as : String → Action

-- The header User-Agent.
unfoldable pub user_agent : Environment → String
user_agent e =
    cat
      (cat
        (cat
          (cat (cat (cat (cat (cat (cat e.version "/") e.commit_version) " ") e.go_version) " (")
            e.go_os)
          "/")
        e.go_arch)
      ")"

abbrev pub configured : Environment → Result Configuration → List Action
configured e (err x) = []
configured e (ok c) =
    sets_level c.logrus_level
    ∷ serves e.metric_addr
    ∷ makes_processor c
    ∷ sends_as (user_agent e)
    ∷ []

-- What main does in order, and the process that it comes to; without a configuration it ends.
unfoldable pub prologue : (String → String) → Environment → List Action × Option Process
unfolding default_logger user_agent boot prepare_log_format
prologue clean e =
    let logger = default_logger clean e.pid in
    (
      formats (prepare_log_format e.log_format)
          ∷ chmods (clean "/var/log/jec")
          ∷ logs_to logger
          ∷ checks logger
          ∷ configured e e.configuration,
      boot e.configuration,
    )

abbrev processors : Action → ℕ
processors (makes_processor c) = 1
processors _ = 0

abbrev servers : Action → ℕ
servers (serves a) = 1
servers _ = 0

-- main makes one processor and serves the metrics, or it ends and does neither.
prologue_lem :
    (clean : String → String) (e : Environment)
    → (((prologue clean e).1 ≢ none)
        × (total processors (prologue clean e).0 ≡ 1)
        × (total servers (prologue clean e).0 ≡ 1))
      ⊎ (((prologue clean e).1 ≡ none)
          × (total processors (prologue clean e).0 ≡ 0)
          × (total servers (prologue clean e).0 ≡ 0))
unfolding prologue boot
prologue_lem clean e = ground arith
