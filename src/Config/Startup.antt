-- ===== src/Config/Startup.antt =====
-- PrepareLogFormat and chmodLocalActions of conf/util.go. A mode that cannot be set only warns.
use jec.Prelude.{String, Bool, true, false, List, [], ◌∷◌, if◌then◌else◌, str_eq}
use jec.Config.Types.{ActionMappings}

-- The formatters of logrus; the format of the time is RFC3339Nano in each.
pub data Formatter : Type 0 where
  json_formatter : Formatter
  text_formatter :
      (disable_colors force_colors full_timestamp disable_level_truncation : Bool) → Formatter

-- `format_type` is JEC_LOG_FORMAT_TYPE in lower case.
unfoldable pub prepare_log_format : String → Formatter
prepare_log_format format_type =
    if str_eq format_type "text"
    then text_formatter true false true false
    else if str_eq format_type "json"
    then json_formatter
    else text_formatter false true true true

-- The files whose mode Read sets.
unfoldable pub chmod_local_actions : ActionMappings → List String
chmod_local_actions [] = []
chmod_local_actions ((name, a) ∷ m) =
    let rest = chmod_local_actions m in
    if str_eq a.source_type "local" then a.filepath ∷ rest else rest
