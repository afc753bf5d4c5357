-- ===== src/Api/Coherence/Race.antt =====
-- An evaluation that misses the cache while a write runs: `_load_flag_set` of app/routers/evaluate.py
-- between the commit and the `invalidate` of app/routers/flags.py.
use thinking_feature_flag_se.Common.{
  ℕ, ◌≡◌, ◌≢◌, sym, ap, ◌∙◌, String, true, Option, some, List, if◌then◌else◌,
}
use thinking_feature_flag_se.Values.{Environment}
use thinking_feature_flag_se.Evaluation.{FlagSnapshot}
use thinking_feature_flag_se.Models.{Uuid, Database}
use thinking_feature_flag_se.Services.{Services, ServiceLaws}
use thinking_feature_flag_se.Cache.{cache_key, encode, decode, set_flag_set, invalidate}
use thinking_feature_flag_se.Cache.Reads.{held, decode-encode}
use thinking_feature_flag_se.Routers.Evaluate.{compile}
use thinking_feature_flag_se.Api.Coherence.{IsCoherent, some-injective, held_is_current}

module _ (services : Services) (laws : ServiceLaws services) where
  -- A SET gets through.
  abbrev pub AcceptsSets : services.redis.Server → Type 0
  AcceptsSets server =
      (key : String) (value : services.redis.Value) (ttl : ℕ)
      → held services laws (services.redis.set server key value ttl).1 key ≡ some value

  encode-injective : (a b : List FlagSnapshot) → encode services a ≡ encode services b → a ≡ b
  encode-injective a b e =
      some-injective (
        sym (decode-encode services laws a)
        ∙ ap (decode services) e
        ∙ decode-encode services laws b)

  -- A reader that has missed and compiled the tables before a commit, and whose SET comes after the
  -- writer's DEL, leaves the old set in the cache: if the commit changes what the environment compiles
  -- to, the cache is not coherent any more.
  pub late_fill-stale :
      (before after : Database) (server : services.redis.Server) (tenant_id : Uuid)
      (environment : Environment) (scope : Option Environment)
      → services.settings.cache_enabled ≡ true
      → ((s : services.redis.Server) → AcceptsSets s)
      → compile before tenant_id environment ≢ compile after tenant_id environment
      → let invalidated = invalidate services tenant_id scope server in
        let filled =
          set_flag_set services tenant_id environment
            (compile before tenant_id environment)
            invalidated in
        ¬ IsCoherent services laws after filled
  unfolding set_flag_set
  late_fill-stale before after server tenant_id environment scope on accepts differ coherent =
      let invalidated = invalidate services tenant_id scope server in
      let old = compile before tenant_id environment in
      let filled = set_flag_set services tenant_id environment old invalidated in
      let stale : held services laws filled (cache_key services tenant_id environment)
          ≡ some (encode services old) =
        let key = cache_key services tenant_id environment in
        let ttl = services.settings.cache_ttl_seconds in
        ap
          (λ enabled.
            held services laws
              (if enabled
                then (services.redis.set invalidated key (encode services old) ttl).1
                else invalidated)
              key)
          on
        ∙ accepts invalidated key (encode services old) ttl in
      differ (
        encode-injective old (compile after tenant_id environment)
          (held_is_current services laws tenant_id environment coherent stale))
