-- ===== src/Http/Lines.antt =====
-- The fields of the line `request_completed` (app/middleware.py, through app/logging_config.py).
use thinking_feature_flag_se.Common.{ℕ, ◌≡◌, String, true, some, List, [], All, member, string_eq}
use thinking_feature_flag_se.Services.{Services}
use thinking_feature_flag_se.Logging.{stdlib_attrs, LogRecord, Payload, format, Logger}
use thinking_feature_flag_se.Logging.Fields.{Distinct}
use thinking_feature_flag_se.Http.{Request, Scope}
use thinking_feature_flag_se.Http.Correlation.{request_id, trace_id, completed_record, LogValue}

-- Attributes of the standard library, no two of one name.
abbrev pub Standard : List (String × LogValue) → Type 0
Standard others =
    Distinct others × All (λ (a : String × LogValue). member a.0 stdlib_attrs ≡ true) others

-- A logger as `logging.getLogger` makes it: no handler of its own, and its records go to its parent.
abbrev pub bare_logger : Logger
bare_logger = record { handlers = []; propagate = true }

module _ (services : Services) (others : List (String × LogValue)) (request : Request)
    (scope : Scope) (status_code duration_ms : ℕ) where
  abbrev logged : LogRecord LogValue
  logged = completed_record others services.round3 request scope status_code duration_ms

  abbrev payload : Payload LogValue
  payload = format services.settings (some (request_id request)) (trace_id request) logged
