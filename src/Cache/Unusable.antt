-- ===== src/Cache/Unusable.antt =====
-- What a read gives while Redis cannot be reached or holds an entry that does not decode
-- (`get_flag_set` of app/cache.py).
use thinking_feature_flag_se.Common.{
  ◌≡◌, refl, ap, ◌∙◌, true, Option, none, some, List, if◌then◌else◌, if-either,
}
use thinking_feature_flag_se.Values.{Environment}
use thinking_feature_flag_se.Evaluation.{FlagSnapshot}
use thinking_feature_flag_se.Models.{Uuid}
use thinking_feature_flag_se.Services.{Services, Reply, replied, failed}
use thinking_feature_flag_se.Cache.{
  CacheStats, hit, miss, cache_key, decode, decoded, read_reply, get_flag_set,
}

module _ (services : Services) (tenant_id : Uuid) (environment : Environment) where
  abbrev read : services.redis.Server → Reply (Option services.redis.Value)
  read server = services.redis.get server (cache_key services tenant_id environment)

  pub data Unusable (server : services.redis.Server) : Type 0 where
    unreachable : read server ≡ failed → Unusable server
    poisoned :
        (raw : services.redis.Value)
        → read server ≡ replied (some raw)
        → decode services raw ≡ none
        → Unusable server

  read_reply-poisoned :
      (raw : services.redis.Value) (stats : CacheStats)
      → decode services raw ≡ none
      → read_reply services (replied (some raw)) stats ≡ (none, miss (hit stats))
  unfolding read_reply decoded
  read_reply-poisoned raw stats e = ap (λ d. decoded services d (hit stats)) e

  -- With the cache on, an entry that does not decode is one read, but counts as a hit and as a miss.
  get_flag_set-poisoned :
      (server : services.redis.Server) (stats : CacheStats) (raw : services.redis.Value)
      → services.settings.cache_enabled ≡ true
      → read server ≡ replied (some raw)
      → decode services raw ≡ none
      → get_flag_set services tenant_id environment server stats ≡ (none, miss (hit stats))
  unfolding get_flag_set
  get_flag_set-poisoned server stats raw on found broken =
      ap (λ enabled. if enabled then read_reply services (read server) stats else (none, stats)) on
      ∙ ap (λ reply. read_reply services reply stats) found
      ∙ read_reply-poisoned raw stats broken

  read-none :
      (server : services.redis.Server) (stats : CacheStats)
      → Unusable server
      → (read_reply services (read server) stats).0 ≡ none
  unfolding read_reply
  read-none server stats (unreachable e) = ap (λ reply. (read_reply services reply stats).0) e
  read-none server stats (poisoned raw e broken) =
      ap (λ reply. (read_reply services reply stats).0) e
      ∙ ap (λ (o : Option (List FlagSnapshot) × CacheStats). o.0)
          (read_reply-poisoned raw stats broken)

  -- Such a read is a miss, whether the cache is on or off.
  pub get_flag_set-Unusable :
      (server : services.redis.Server) (stats : CacheStats)
      → Unusable server
      → (get_flag_set services tenant_id environment server stats).0 ≡ none
  unfolding get_flag_set
  get_flag_set-Unusable server stats h =
      if-either (λ (o : Option (List FlagSnapshot) × CacheStats). o.0 ≡ none)
        services.settings.cache_enabled (read-none server stats h) refl
