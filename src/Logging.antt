-- ===== src/Logging.antt =====
-- Structured logging (thinking-feature-flag-service/app/logging_config.py): the payload of a log line
-- before `json.dumps`, and the loggers that `configure_logging` sets up. The value of an attribute and
-- the text of an exception are what the caller gives.
pub mod Emission
pub mod Fields
pub mod Handlers
use thinking_feature_flag_se.Common.{
  ℕ, String, ◌<>◌, Bool, true, false, not, ◌&&◌, Option, none, some, List, [], ◌∷◌, ◌++◌, ◌==◌,
  nat_eq, string_eq, member, if◌then◌else◌,
}
use Prim.Native.Char.{code}
use thinking_feature_flag_se.Common.Texts.{codes, starts_with}
use thinking_feature_flag_se.Services.{Settings, AppEnv, local}

-- `_STDLIB_ATTRS`
abbrev pub stdlib_attrs : List String
stdlib_attrs =
    "args" ∷ "asctime" ∷ "created" ∷ "exc_info" ∷ "exc_text" ∷ "filename" ∷ "funcName" ∷ "levelname"
    ∷ "levelno" ∷ "lineno" ∷ "module" ∷ "msecs" ∷ "msg" ∷ "message" ∷ "name" ∷ "pathname"
    ∷ "process" ∷ "processName" ∷ "relativeCreated" ∷ "stack_info" ∷ "thread" ∷ "threadName"
    ∷ "taskName" ∷ []

-- `_SEVERITY`, whose values are its keys
abbrev severities : List String
severities = "DEBUG" ∷ "INFO" ∷ "WARNING" ∷ "ERROR" ∷ "CRITICAL" ∷ []

-- `_SEVERITY.get(levelname, "DEFAULT")`
unfoldable pub severity : String → String
severity levelname = if member levelname severities then levelname else "DEFAULT"

-- A value of the payload: a text of the formatter, or what came with the record.
pub data LogField (V : Type 0) : Type 0 where
  text : String → LogField V
  extra : V → LogField V

abbrev pub Payload : Type 0 → Type 0
Payload V = List (String × LogField V)

-- `attributes` are the entries of `record.__dict__`, `exception` is the text of `exc_info`.
pub record LogRecord (V : Type 0) : Type 0 where
  pub levelname : String
  pub message : String
  pub name : String
  pub attributes : List (String × V)
  pub exception : Option String

-- `key not in _STDLIB_ATTRS and not key.startswith("_")`
abbrev pub is_extra : String → Bool
is_extra key = not (member key stdlib_attrs) && not (starts_with (codes key) (codes "_"))

module _ {V : Type 0} where
  -- `payload[key] = value`
  unfoldable pub put : String → LogField V → Payload V → Payload V
  put key value [] = (key, value) ∷ []
  put key value ((k, v) ∷ payload) =
      if k == key then (k, value) ∷ payload else (k, v) ∷ put key value payload

  -- `payload.get(key)`
  unfoldable pub lookup : String → Payload V → Option (LogField V)
  lookup key [] = none
  lookup key ((k, v) ∷ payload) = if k == key then some v else lookup key payload

  -- `if text:`
  abbrev pub put_text : String → Option String → Payload V → Payload V
  put_text key none payload = payload
  put_text key (some s) payload = if s == "" then payload else put key (text s) payload

  -- `if trace_id and settings.gcp_project_id:`
  abbrev pub put_trace : Settings → Option String → Payload V → Payload V
  put_trace settings none payload = payload
  put_trace settings (some trace_id) payload =
      if not (trace_id == "") && not (settings.gcp_project_id == "")
      then put "logging.googleapis.com/trace"
          (text ("projects/" <> settings.gcp_project_id <> "/traces/" <> trace_id)) payload
      else payload

  -- The loop over `record.__dict__.items()`.
  unfoldable pub put_extras : List (String × V) → Payload V → Payload V
  unfolding put
  put_extras [] payload = payload
  put_extras ((key, value) ∷ attributes) payload =
      put_extras attributes (if is_extra key then put key (extra value) payload else payload)

  abbrev pub put_exception : Option String → Payload V → Payload V
  put_exception none payload = payload
  put_exception (some trace) payload = put "exception" (text trace) payload

  -- What `format` puts in itself, under the values of the two context variables.
  unfoldable pub heading : Settings → Option String → Option String → LogRecord V → Payload V
  unfolding severity put
  heading settings request_id trace_id logged = put_trace settings trace_id (
      put_text "request_id" request_id (
        ("severity", text (severity logged.levelname))
        ∷ ("message", text logged.message)
        ∷ ("logger", text logged.name)
        ∷ []))

  -- `CloudLoggingFormatter.format`
  unfoldable pub format : Settings → Option String → Option String → LogRecord V → Payload V
  unfolding heading put_extras
  format settings request_id trace_id logged =
      put_exception logged.exception
        (put_extras logged.attributes (heading settings request_id trace_id logged))

-- `cloud_trace.split("/")[0]`
unfoldable pub before_slash : String → String
before_slash String.[] = ""
before_slash (String.◌∷◌ c s) =
    let rest = before_slash s in if code c == b'/' then "" else String.◌∷◌ c rest

-- A formatter of a handler on stdout.
pub data Formatter : Type 0 where
  plain_text cloud_logging : Formatter

-- A logger of the standard library, apart from the root.
pub record Logger : Type 0 where
  pub handlers : List Formatter
  pub propagate : Bool

pub record Loggers : Type 0 where
  pub root_handlers : List Formatter
  pub root_level : String
  pub named : String → Logger

-- `settings.app_env == "local"`
abbrev pub formatter_for : AppEnv → Formatter
formatter_for local = plain_text
formatter_for _ = cloud_logging

abbrev pub uvicorn_loggers : List String
uvicorn_loggers = "uvicorn" ∷ "uvicorn.access" ∷ "uvicorn.error" ∷ []

unfoldable pub configure_logging : Settings → Loggers → Loggers
configure_logging settings loggers = record {
  root_handlers = formatter_for settings.app_env ∷ [];
  root_level = settings.log_level;
  named = λ name.
      if member name uvicorn_loggers
      then record { handlers = []; propagate = true }
      else loggers.named name;
}

-- The handlers that see a record of a logger, which comes first with its ancestors behind it.
unfoldable pub handlers_of : Loggers → List String → List Formatter
handlers_of loggers [] = loggers.root_handlers
handlers_of loggers (name ∷ ancestors) =
    let rest = handlers_of loggers ancestors in
    (loggers.named name).handlers ++ (if (loggers.named name).propagate then rest else [])
