-- ===== src/Http/RateLimit.antt =====
-- `RateLimitMiddleware` (thinking-feature-flag-service/app/middleware.py).
pub mod Charged
pub mod Keys
pub mod Windows
pub mod Open
pub mod Counters
pub mod Throttled
pub mod Quota
use thinking_feature_flag_se.Common.{
  ℕ, ◌-◌, ◌*◌, ◌/◌, ◌%◌, ◌<>◌, String, Bool, true, false, not, ◌||◌, Option, none, some, List, [],
  ◌∷◌, ◌==◌, nat_eq, string_eq, ltb, member, if◌then◌else◌, zero, suc,
}
use thinking_feature_flag_se.Common.Texts.Numbers.{number_text}
use thinking_feature_flag_se.Models.{Instant}
use thinking_feature_flag_se.Outcome.{Outcome, ok, raised}
use thinking_feature_flag_se.Services.{Services, Reply, replied, failed}
use thinking_feature_flag_se.Security.{hash_api_key}
use thinking_feature_flag_se.World.{World}
use thinking_feature_flag_se.Http.{
  Request, non_empty, detail, Response, with_header, Scope, untouched, App,
}

-- `_EXEMPT`
abbrev pub exempt : List String
exempt = "/livez" ∷ "/readyz" ∷ "/metrics" ∷ "/docs" ∷ "/redoc" ∷ "/openapi.json" ∷ []

-- `text[:n]`
pub prefix : ℕ → String → String
prefix zero s = ""
prefix (suc n) String.[] = ""
prefix (suc n) (String.◌∷◌ c s) = String.◌∷◌ c (prefix n s)

-- A second, in microseconds
abbrev pub second : ℕ
second = 1000000

-- `int(time.time() // 60)`
abbrev pub window_of : Instant → ℕ
window_of now = now / (60 * second)

-- `60 - int(time.time() % 60)`
abbrev pub seconds_left : Instant → ℕ
seconds_left now = 60 - now % (60 * second) / second

abbrev pub retry_after : Instant → String
retry_after now = number_text (seconds_left now)

module _ (services : Services) where
  open services use {settings, platform, redis}

  -- `identity`, the first 16 digits of the hash
  abbrev pub identity : String → String
  identity api_key = prefix 16 (hash_api_key platform api_key)

  unfoldable pub limit_key : String → Instant → String
  limit_key api_key now = "ratelimit:" <> identity api_key <> ":" <> number_text (window_of now)

  -- What the `try` leaves: a count, or nothing if INCR or EXPIRE raised.
  unfoldable pub after_expire : ℕ → Reply (Unit {0}) × redis.Server → Option ℕ × redis.Server
  after_expire n (replied u, server) = (some n, server)
  after_expire n (failed, server) = (none, server)

  unfoldable pub after_incr : String → Reply ℕ × redis.Server → Option ℕ × redis.Server
  unfolding after_expire
  after_incr key (failed, server) = (none, server)
  after_incr key (replied n, server) =
      if n == 1 then after_expire n (redis.expire server key 120) else (some n, server)

  unfoldable pub count_request : String → redis.Server → Option ℕ × redis.Server
  unfolding after_incr
  count_request key server = after_incr key (redis.incr server key)

  unfoldable pub too_many : Instant → Response
  too_many later = record {
    status_code = 429;
    headers =
        ("retry-after", retry_after later)
        ∷ ("x-ratelimit-limit", number_text settings.rate_limit_per_minute)
        ∷ [];
    content = detail "Rate limit exceeded";
  }

  unfoldable pub with_remaining : ℕ → Response → Response
  with_remaining n response =
      with_header "x-ratelimit-remaining" (number_text (settings.rate_limit_per_minute - n))
        (with_header "x-ratelimit-limit" (number_text settings.rate_limit_per_minute) response)

  abbrev pub map_response :
      (Response → Response)
      → (Outcome Response × Scope) × World redis
      → (Outcome Response × Scope) × World redis
  map_response f ((ok response, scope), w) = ((ok (f response), scope), w)
  map_response f ((raised e, scope), w) = ((raised e, scope), w)

  -- The code after the `try`.
  unfoldable pub judged : Option ℕ → App redis → App redis
  unfolding too_many with_remaining
  judged none call_next request w = call_next request w
  judged (some n) call_next request w =
      if ltb settings.rate_limit_per_minute n
      then ((ok (too_many request.later), untouched), w)
      else map_response (with_remaining n) (call_next request w)

  unfoldable pub counted : Option String → App redis → App redis
  unfolding judged count_request limit_key
  counted none call_next request w = call_next request w
  counted (some api_key) call_next request w =
      let (count, server) = count_request (limit_key api_key request.now) w.server in
      judged count call_next request (record w { server = server })

  -- `dispatch`
  unfoldable pub limited : App redis → App redis
  unfolding counted
  limited call_next request w =
      if not settings.rate_limit_enabled || member request.path exempt
      then call_next request w
      else counted (non_empty request.x_api_key) call_next request w
