-- ===== src/Http/Root.antt =====
-- The operations endpoints (thinking-feature-flag-service/app/main.py).
use thinking_feature_flag_se.Common.{
  String, ◌<>◌, Bool, true, false, none, some, [], ◌∷◌, if◌then◌else◌,
}
use thinking_feature_flag_se.Models.{Instant}
use thinking_feature_flag_se.Cache.{CacheStats}
use thinking_feature_flag_se.Metrics.{Metrics, snapshot}
use thinking_feature_flag_se.Services.{Services}
use thinking_feature_flag_se.Http.{Probe, Response, status_ok, readiness}
use thinking_feature_flag_se.Http

unfoldable pub livez : Response
livez = record { status_code = 200; headers = []; content = status_ok }

-- `checks["database"]` and `healthy`
abbrev database_check : Probe → String × Bool
database_check none = ("ok", true)
database_check (some exc) = ("error: " <> exc, false)

-- `checks["cache"]`
abbrev cache_check : Probe → String
cache_check none = "ok"
cache_check (some exc) = "degraded: " <> exc

unfoldable pub readyz : Probe → Probe → Response
readyz database ping =
    let (checked, healthy) = database_check database in
    record {
      status_code = if healthy then 200 else 503;
      headers = [];
      content =
          readiness (if healthy then "ready" else "not_ready")
            (("database", checked) ∷ ("cache", cache_check ping) ∷ []);
    }

unfoldable pub get_metrics : Services → Instant → CacheStats → Metrics → Response
get_metrics services now stats m = record {
  status_code = 200;
  headers = [];
  content = Http.metrics (
      snapshot services.round3 (services.rank 50) (services.rank 95) (services.rank 99) now stats
        m);
}
