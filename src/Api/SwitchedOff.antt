-- ===== src/Api/SwitchedOff.antt =====
-- Turning a flag off, from the PUT to the evaluations behind it (app/routers/flags.py,
-- app/routers/evaluate.py, through app/cache.py).
use thinking_feature_flag_se.Common.{◌≡◌, String, false, Option, some}
use thinking_feature_flag_se.Values.{Environment}
use thinking_feature_flag_se.Evaluation.{Context, FlagSnapshot, evaluate}
use thinking_feature_flag_se.Models.{Uuid, Instant, ApiKey, Database}
use thinking_feature_flag_se.Outcome.{Outcome}
use thinking_feature_flag_se.Schemas.{FlagUpdate, sent, value_of}
use thinking_feature_flag_se.Services.{Services, ServiceLaws}
use thinking_feature_flag_se.World.{World}
use thinking_feature_flag_se.Routers.Flags.Update.Switched.{KeyOff}
use thinking_feature_flag_se.Api.{put_flag, handle}

module _ (services : Services) (payload : FlagUpdate) (k : ApiKey) (flag_key : String)
    (now : Instant) (environment : Environment)
    (given : value_of payload.environment ≡ some environment)
    (off : payload.enabled ≡ sent (some false)) where
  abbrev OffIn : Database → Type 0
  OffIn = KeyOff services payload k now environment given off flag_key

module _ (services : Services) (laws : ServiceLaws services) (x_api_key : Option String)
    (tenant_id : Uuid) (flag_key : String) (payload : FlagUpdate) (now : Instant)
    (w : World services.redis) (k : ApiKey) (environment : Environment) where
  abbrev after_put : World services.redis
  after_put = (handle services x_api_key (put_flag tenant_id flag_key payload now) w).1

  -- A snapshot that serves its default to everyone, if it is the flag's.
  abbrev pub ServesDefault : FlagSnapshot → Type 0
  ServesDefault s =
      s.key ≡ flag_key
      → (user_id : String) (context : Context)
      → (evaluate services.platform s user_id context).value ≡ some s.default_value
