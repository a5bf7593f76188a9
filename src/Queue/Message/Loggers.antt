-- ===== src/Queue/Message/Loggers.antt =====
-- newActionLoggers of queue/processor.go: the files that the actions' output goes to. A logger is known
-- by its file name.
use jec.Prelude.{
  ◌≡◌, refl, ◌∙◌, String, Bool, true, false, ◌||◌, List, [], ◌∷◌, some, if◌then◌else◌, lookup,
  str_eq, arith,
}
use text.Mathlib.TextEquality.{eq_iff}
use jec.Config.Types.{MappedAction, ActionMappings}
use jec.Runbook.Types.{logger}
use jec.Queue.Message.{Handler, has, logger_of}

unfoldable pub add_logger : String → List String → List String
add_logger file loggers =
    if str_eq file "" then loggers else if has file loggers then loggers else file ∷ loggers

-- The loop over the mappings, with the loggers that there are already.
unfoldable pub add_loggers : ActionMappings → List String → List String
unfolding add_logger
add_loggers [] loggers = loggers
add_loggers ((name, a) ∷ m) loggers =
    add_loggers m (add_logger a.stderr (add_logger a.stdout loggers))

unfoldable pub new_action_loggers : ActionMappings → List String
unfolding add_loggers
new_action_loggers m = add_loggers m []

-- Some action's output, or its errors, go to this file.
abbrev pub named : String → ActionMappings → Bool
named file [] = false
named file ((name, a) ∷ m) = str_eq a.stdout file || (str_eq a.stderr file || named file m)

has-add_logger :
    (f file : String) (loggers : List String)
    → str_eq f "" ≡ false
    → has f (add_logger file loggers) ≡ (str_eq file f || has f loggers)
unfolding add_logger
has-add_logger f file loggers real = ground (arith, eq_iff file "", eq_iff f "", eq_iff file f)

has-add_loggers :
    (f : String) (m : ActionMappings) (loggers : List String)
    → str_eq f "" ≡ false
    → has f (add_loggers m loggers) ≡ (named f m || has f loggers)
unfolding add_loggers
has-add_loggers f [] loggers real = refl
has-add_loggers f ((name, a) ∷ m) loggers real =
    has-add_loggers f m (add_logger a.stderr (add_logger a.stdout loggers)) real
    ∙ ground (
      arith,
      has-add_logger f a.stderr (add_logger a.stdout loggers),
      has-add_logger f a.stdout loggers,
    )

named_lem :
    (name : String) (m : ActionMappings) (a : MappedAction)
    → lookup name m ≡ some a
    → (named a.stdout m ≡ true) × (named a.stderr m ≡ true)
unfolding lookup
named_lem name [] a found = ground arith
named_lem name ((n, b) ∷ m) a found =
    ground (arith, named_lem name m a, eq_iff a.stdout a.stdout, eq_iff a.stderr a.stderr)

-- A handler with the loggers of newActionLoggers gives each file that a configured action names, for its
-- output or for its errors, its logger, and never a nil writer.
pub configured_loggers :
    (h : Handler) (m : ActionMappings) (name : String) (a : MappedAction)
    → h.action_loggers ≡ new_action_loggers m
    → lookup name m ≡ some a
    → str_eq a.stdout "" ≡ false
    → str_eq a.stderr "" ≡ false
    → (logger_of h a.stdout ≡ logger a.stdout ∷ []) × (logger_of h a.stderr ≡ logger a.stderr ∷ [])
unfolding new_action_loggers
configured_loggers h m name a made found out errors =
    let (stdout, stderr) = named_lem name m a found in
    (
      rw (made, has-add_loggers a.stdout m [] out, stdout) refl,
      rw (made, has-add_loggers a.stderr m [] errors, stderr) refl,
    )
