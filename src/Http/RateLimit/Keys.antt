-- ===== src/Http/RateLimit/Keys.antt =====
-- The keys of the limiter beside the keys of the cache (app/middleware.py, app/cache.py).
use thinking_feature_flag_se.Common.{
  ℕ, ◌≡◌, ◌≢◌, sym, ap, ◌∙◌, ◌<>◌, String, List, [], ◌∷◌, nat_eq, string_eq, arith,
}
use thinking_feature_flag_se.Common.Texts.{codes, codes-append}
use thinking_feature_flag_se.Values.{Environment}
use thinking_feature_flag_se.Models.{Uuid, Instant}
use thinking_feature_flag_se.Services.{Services}
use thinking_feature_flag_se.Cache.{cache_key}
use thinking_feature_flag_se.Http.RateLimit.{limit_key}

first_code : List ℕ → ℕ
first_code [] = 0
first_code (c ∷ s) = c

prefixes_differ : (s t : String) → "ratelimit:" <> s ≢ "flags:" <> t
unfolding first_code
prefixes_differ s t same =
    let heads = sym (codes-append "ratelimit:" s) ∙ ap codes same ∙ codes-append "flags:" t in
    let differ : ◌≡◌ {A = ℕ} b'r' b'f' = ap first_code heads in omega arith

-- No cache key is a key of the limiter.
pub cache_key-ne-limit_key :
    (services : Services) (t : Uuid) (e : Environment) (api_key : String) (now : Instant)
    → limit_key services api_key now ≢ cache_key services t e
unfolding limit_key
cache_key-ne-limit_key services t e api_key now same = prefixes_differ _ _ same
