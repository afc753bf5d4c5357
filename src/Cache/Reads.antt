-- ===== src/Cache/Reads.antt =====
-- What the server holds after the writes of app/cache.py, and what its reads return and count.
use thinking_feature_flag_se.Common.{
  ◌≡◌, ◌⊎◌, inl, inr, refl, ap, ◌∙◌, true, String, Option, none, some, List, map, string_eq, member,
  Bool-cases,
}
use thinking_feature_flag_se.Values.{Environment}
use thinking_feature_flag_se.Evaluation.{FlagSnapshot}
use thinking_feature_flag_se.Models.{Uuid}
use thinking_feature_flag_se.Payload.{to_item, from_items, from_items-to_items}
use thinking_feature_flag_se.Services.{Services, ServiceLaws, Reply, replied, failed}
use thinking_feature_flag_se.Cache.{
  CacheStats, hit, cache_key, encode, decode, decoded, read_reply, get_flag_set, set_flag_set,
  invalidate, invalidated,
}

module _ (services : Services) (laws : ServiceLaws services) where
  abbrev pub held : services.redis.Server → String → Option services.redis.Value
  held = laws.redis_laws.stored

  -- A write to the cache adds its own entry at most.
  pub set_flag_set-held :
      (t : Uuid) (e : Environment) (snapshots : List FlagSnapshot) (server : services.redis.Server)
      (j : String) (text : services.redis.Value)
      → held (set_flag_set services t e snapshots server) j ≡ some text
      → ((j ≡ cache_key services t e) × (text ≡ encode services snapshots))
        ⊎ (held server j ≡ some text)
  unfolding set_flag_set
  set_flag_set-held t e snapshots server j text h =
      elim (Bool-cases services.settings.cache_enabled) [
        | inl on ↦
            laws.redis_laws.set_stores server (cache_key services t e) (encode services snapshots)
              services.settings.cache_ttl_seconds j text (rw on at h)
        | inr off ↦ inr (rw off at h)
      ]

  -- An invalidation adds nothing.
  pub invalidate-keeps :
      (t : Uuid) (scope : Option Environment) (server : services.redis.Server) (j : String)
      (text : services.redis.Value)
      → held (invalidate services t scope server) j ≡ some text
      → held server j ≡ some text
  unfolding invalidate
  invalidate-keeps t scope server j text h = elim (Bool-cases services.settings.cache_enabled) [
    | inl on ↦
        laws.redis_laws.delete_keeps server (map (cache_key services t) (invalidated scope)) j text
          (rw on at h)
    | inr off ↦ rw off at h
  ]

  -- The server answers a DEL.
  abbrev pub AcceptsDeletes : services.redis.Server → Type 0
  AcceptsDeletes server = (ks : List String) → (services.redis.delete server ks).0 ≡ replied tt

  -- The entry of an environment in the scope of an invalidation is gone, if the DEL got through.
  pub invalidate-drops :
      (t : Uuid) (scope : Option Environment) (server : services.redis.Server) (e : Environment)
      → services.settings.cache_enabled ≡ true
      → AcceptsDeletes server
      → member (cache_key services t e) (map (cache_key services t) (invalidated scope)) ≡ true
      → held (invalidate services t scope server) (cache_key services t e) ≡ none
  unfolding invalidate
  invalidate-drops t scope server e on accepts m = rw on (
      laws.redis_laws.delete_drops server (map (cache_key services t) (invalidated scope))
        (cache_key services t e) (accepts _) m)

  -- The text of a flag set decodes to the set.
  pub decode-encode :
      (snapshots : List FlagSnapshot) → decode services (encode services snapshots) ≡ some snapshots
  unfolding decode
  decode-encode snapshots =
      ap (λ parsed. elim parsed [ none ↦ none | some items ↦ from_items items ])
        (laws.loads_dumps (map to_item snapshots))
      ∙ from_items-to_items snapshots

  decoded-some :
      (parsed : Option (List FlagSnapshot)) (stats : CacheStats) {snapshots : List FlagSnapshot}
      → (decoded services parsed stats).0 ≡ some snapshots
      → parsed ≡ some snapshots
  unfolding decoded
  decoded-some none stats r = cc
  decoded-some (some found) stats r = r

  -- A set that a read returns is what the text decodes to that the server holds under the key.
  pub get_flag_set-held :
      (t : Uuid) (e : Environment) (server : services.redis.Server) (stats : CacheStats)
      {snapshots : List FlagSnapshot}
      → (get_flag_set services t e server stats).0 ≡ some snapshots
      → (text : services.redis.Value) × (held server (cache_key services t e) ≡ some text)
        × (decode services text ≡ some snapshots)
  unfolding get_flag_set read_reply
  get_flag_set-held t e server stats {snapshots} h =
      elim (Bool-cases services.settings.cache_enabled) [
        | inr off ↦ let missed : none ≡ some snapshots = rw off at h in absurd (cc)
        | inl on ↦ from_reply (services.redis.get server (cache_key services t e)) refl (rw on at h)
      ]
    where
      from_reply :
          (reply : Reply (Option services.redis.Value))
          → services.redis.get server (cache_key services t e) ≡ reply
          → (read_reply services reply stats).0 ≡ some snapshots
          → (text : services.redis.Value) × (held server (cache_key services t e) ≡ some text)
            × (decode services text ≡ some snapshots)
      from_reply failed got r = cc
      from_reply (replied none) got r = cc
      from_reply (replied (some text)) got r = (
        text,
        laws.redis_laws.get_reads server (cache_key services t e) text got,
        decoded-some (decode services text) (hit stats) r,
      )
