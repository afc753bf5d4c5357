-- ===== src/Cache.antt =====
-- The cache of compiled flag sets (thinking-feature-flag-service/app/cache.py). The module's two
-- counters are the record `CacheStats`; the connection of `get_client` belongs to the Redis client.
pub mod Connection
pub mod Reads
pub mod Unusable
pub mod Keys
use thinking_feature_flag_se.Common.{
  ℕ, ◌+◌, ◌<>◌, String, Bool, true, false, Option, none, some, List, [], ◌∷◌, map, if◌then◌else◌,
}
use thinking_feature_flag_se.Values.{Environment, environments, environment_value}
use thinking_feature_flag_se.Evaluation.{FlagSnapshot}
use thinking_feature_flag_se.Models.{Uuid}
use thinking_feature_flag_se.Payload.{Item, to_item, from_items}
use thinking_feature_flag_se.Services.{Services, Reply, replied, failed}

pub record CacheStats : Type 0 where
  pub hits : ℕ
  pub misses : ℕ

abbrev hit : CacheStats → CacheStats
hit stats = record stats { hits = stats.hits + 1 }

abbrev miss : CacheStats → CacheStats
miss stats = record stats { misses = stats.misses + 1 }

-- The ratio of `cache_stats` is kept as the hits of the total.
pub record CacheReport : Type 0 where
  pub hits : ℕ
  pub misses : ℕ
  pub total : ℕ

unfoldable pub cache_stats : CacheStats → CacheReport
cache_stats stats = record {
  hits = stats.hits;
  misses = stats.misses;
  total = stats.hits + stats.misses;
}

-- `[environment] if environment else list(Environment)`
abbrev pub invalidated : Option Environment → List Environment
invalidated none = environments
invalidated (some environment) = environment ∷ []

module _ (services : Services) where
  open services use {settings, redis, dumps, loads, uuid_text}

  -- `_key`
  abbrev pub cache_key : Uuid → Environment → String
  cache_key tenant_id environment =
      "flags:" <> uuid_text tenant_id <> ":" <> environment_value environment

  -- `json.loads` and the comprehension; `none` is a `JSONDecodeError` or a `TypeError`.
  unfoldable pub decode : redis.Value → Option (List FlagSnapshot)
  unfolding from_items
  decode raw = elim (loads raw) [ none ↦ none | some items ↦ from_items items ]

  abbrev pub encode : List FlagSnapshot → redis.Value
  encode snapshots = dumps (map to_item snapshots)

  -- The code after a hit has been counted.
  decoded : Option (List FlagSnapshot) → CacheStats → Option (List FlagSnapshot) × CacheStats
  decoded none stats = (none, miss stats)
  decoded (some snapshots) stats = (some snapshots, stats)

  -- The code after the client's call.
  read_reply : Reply (Option redis.Value) → CacheStats → Option (List FlagSnapshot) × CacheStats
  unfolding decoded decode
  read_reply failed stats = (none, stats)
  read_reply (replied none) stats = (none, miss stats)
  read_reply (replied (some raw)) stats = decoded (decode raw) (hit stats)

  unfoldable pub get_flag_set :
      Uuid → Environment → redis.Server → CacheStats → Option (List FlagSnapshot) × CacheStats
  unfolding read_reply
  get_flag_set tenant_id environment server stats =
      if settings.cache_enabled
      then read_reply (redis.get server (cache_key tenant_id environment)) stats
      else (none, stats)

  unfoldable pub set_flag_set : Uuid → Environment → List FlagSnapshot → redis.Server → redis.Server
  set_flag_set tenant_id environment snapshots server =
      if settings.cache_enabled
      then (redis.set server (cache_key tenant_id environment) (encode snapshots)
          settings.cache_ttl_seconds).1
      else server

  unfoldable pub invalidate : Uuid → Option Environment → redis.Server → redis.Server
  invalidate tenant_id environment server =
      if settings.cache_enabled
      then (redis.delete server (map (cache_key tenant_id) (invalidated environment))).1
      else server
