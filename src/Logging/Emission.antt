-- ===== src/Logging/Emission.antt =====
-- What becomes of a record of a logger (thinking-feature-flag-service/app/logging_config.py): whether
-- the root's level lets it pass, and what each handler writes on stdout.
use thinking_feature_flag_se.Common.{
  ℕ, ◌≡◌, refl, true, ◌∷◌, zero, suc, String, ◌<>◌, Option, none, some, List, [], map, leb, ◌==◌,
  string_eq, if◌then◌else◌,
}
use thinking_feature_flag_se.Common.Texts.{codes, ends_with}
use thinking_feature_flag_se.Services.{Settings}
use thinking_feature_flag_se.Logging.{
  Payload, LogRecord, format, Formatter, plain_text, cloud_logging, Loggers, handlers_of,
}

-- A line: a text, or the payload that `json.dumps` prints.
pub data LogLine (V : Type 0) : Type 0 where
  plain : String → LogLine V
  structured : Payload V → LogLine V

-- `%(…)-8s`: blanks behind a text that is shorter
pub padded : ℕ → String → String
padded zero s = s
padded (suc n) String.[] = " " <> padded n ""
padded (suc n) (String.◌∷◌ c s) = String.◌∷◌ c (padded n s)

-- The text of an exception follows on a line of its own.
abbrev with_exception : Option String → String → String
with_exception none line = line
with_exception (some trace) line =
    if ends_with (codes line) (codes "\n") then line <> trace else line <> "\n" <> trace

-- The numbers of the standard library's levels
unfoldable pub level_number : String → ℕ
level_number levelname =
    if levelname == "DEBUG"
    then 10
    else if levelname == "INFO"
    then 20
    else if levelname == "WARNING"
    then 30
    else if levelname == "ERROR"
    then 40
    else if levelname == "CRITICAL"
    then 50
    else 0

module _ {V : Type 0} where
  -- `logging.Formatter("%(levelname)-8s %(name)s: %(message)s")`
  abbrev plain_line : LogRecord V → String
  plain_line logged =
      with_exception logged.exception
        (padded 8 logged.levelname <> " " <> logged.name <> ": " <> logged.message)

  unfoldable pub formatted :
      Formatter → Settings → Option String → Option String → LogRecord V → LogLine V
  unfolding format padded
  formatted plain_text settings request_id trace_id logged = plain (plain_line logged)
  formatted cloud_logging settings request_id trace_id logged =
      structured (format settings request_id trace_id logged)

  -- The lines of a record of a logger, which comes first with its ancestors behind it and has no level
  -- of its own.
  unfoldable pub emitted :
      Loggers
      → List String
      → Settings
      → Option String
      → Option String
      → LogRecord V
      → List (LogLine V)
  unfolding level_number formatted handlers_of
  emitted loggers path settings request_id trace_id logged =
      if leb (level_number loggers.root_level) (level_number logged.levelname)
      then map (λ formatter. formatted formatter settings request_id trace_id logged)
          (handlers_of loggers path)
      else []

  -- A record that the level lets pass gives one line if one handler sees it.
  pub emitted-one :
      (loggers : Loggers) (path : List String) (settings : Settings)
      (request_id trace_id : Option String) (logged : LogRecord V) (formatter : Formatter)
      → handlers_of loggers path ≡ formatter ∷ []
      → leb (level_number loggers.root_level) (level_number logged.levelname) ≡ true
      → emitted loggers path settings request_id trace_id logged
        ≡ formatted formatter settings request_id trace_id logged ∷ []
  unfolding emitted
  emitted-one loggers path settings request_id trace_id logged formatter one passes =
      rw (passes, one) refl
