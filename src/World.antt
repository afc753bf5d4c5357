-- ===== src/World.antt =====
-- All the state that a request can read or change: the committed database, the Redis server, the
-- counters of the cache and the metrics.
use thinking_feature_flag_se.Models.{Database}
use thinking_feature_flag_se.Services.{Redis}
use thinking_feature_flag_se.Cache.{CacheStats}
use thinking_feature_flag_se.Metrics.{Metrics}
use thinking_feature_flag_se.Outcome.{Outcome}

pub record World (redis : Redis) : Type 0 where
  pub database : Database
  pub server : redis.Server
  pub stats : CacheStats
  pub metrics : Metrics

-- A request that raises comes back with the world too: what Redis was told stays.
abbrev pub Handler {ℓ} : Redis → Type ℓ → Type ℓ
Handler redis A = World redis → Outcome A × World redis
