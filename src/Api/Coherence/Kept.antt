-- ===== src/Api/Coherence/Kept.antt =====
-- The steps of the service and the coherence of its cache (app/cache.py under the handlers of
-- app/routers).
use thinking_feature_flag_se.Common.{
  ◌≡◌, ◌≢◌, inl, inr, refl, sym, ap, subst, ◌∙◌, true, String, Option, none, some, List, [], ◌∷◌,
  arith, ◌==◌, nat_eq, string_eq, Bool-cases, eq_of_test, In,
}
use thinking_feature_flag_se.Values.{Environment, environment_eq}
use thinking_feature_flag_se.Models.{Uuid, Instant, ApiKey, Flag, Database, FlagChange, add_audit}
use thinking_feature_flag_se.Evaluation.{FlagSnapshot}
use thinking_feature_flag_se.Schemas.{FlagUpdate, value_of}
use thinking_feature_flag_se.Models.Integrity.{
  IsSound, OwnsId, DistinctIds-OwnsId, find_flag-In, find_config-In,
}
use thinking_feature_flag_se.Services.{Services, ServiceLaws}
use thinking_feature_flag_se.Cache.{cache_key, decode, get_flag_set, invalidate}
use thinking_feature_flag_se.Cache.Reads.{held, AcceptsDeletes, decode-encode, get_flag_set-held}
use thinking_feature_flag_se.World.{World}
use thinking_feature_flag_se.Routers.Evaluate.{compile, join, load_on_miss, load_flag_set}
use thinking_feature_flag_se.Routers.Evaluate.Compiled.{join-update_config_row}
use thinking_feature_flag_se.Routers.Flags.Changes.Typed.{assign_config_all-keeps}
use thinking_feature_flag_se.Routers.Flags.Update.{
  write_flag, with_config_fields, changed_config, invalidation_scope,
}
use thinking_feature_flag_se.Routers.Flags.Update.Steps.{
  ConfigStep, no_environment, no_change, changed, SessionSteps, update_session-steps,
}
use thinking_feature_flag_se.Api.Sound.{serve-IsSound}
use thinking_feature_flag_se.Api.Isolation.Writes.{SameFor}
use thinking_feature_flag_se.Api.Isolation.{Effect-SameFor}
use thinking_feature_flag_se.Api.{Call, handle, serve}
use thinking_feature_flag_se.Api.Effect.{
  Effect, reads, fills, creates, updates, archives, Step, refused, tenant_made, under, handle-Step,
}
use thinking_feature_flag_se.Api.Coherence.{
  IsCoherent, some-injective, held_is_current, fill-IsCoherent, invalidate-IsCoherent, drops_all,
  drops_one,
}

module _ (services : Services) (laws : ServiceLaws services) where
  module _ (k : ApiKey) (db : Database) (server : services.redis.Server) (sound : IsSound db)
      (on : services.settings.cache_enabled ≡ true) (accepts : AcceptsDeletes services laws server)
      (coherent : IsCoherent services laws db server) where
    -- A change of the key's tenant alone, with an invalidation of all its sets.
    all_dropped :
        (db' : Database)
        → ((other : Uuid) → other ≢ k.tenant_id → SameFor other db db')
        → IsCoherent services laws db' (invalidate services k.tenant_id none server)
    all_dropped db' isolated =
        invalidate-IsCoherent services laws db db' server k.tenant_id none coherent (λ t e.
          elim (Bool-cases (t == k.tenant_id)) [
            | inl own ↦ inl (
                subst
                  (λ u.
                    held services laws (invalidate services k.tenant_id none server)
                      (cache_key services u e)
                    ≡ none)
                  (sym (eq_of_test t k.tenant_id own))
                  (drops_all services laws server k.tenant_id e on accepts))
            | inr foreign ↦ inr ((isolated t (λ same. ground arith)).compiled e)
          ])

    -- A change of one config, with an invalidation of its environment.
    one_dropped :
        (db' : Database) (environment : Environment)
        → ((other : Uuid) → other ≢ k.tenant_id → SameFor other db db')
        → ((e : Environment)
            → e ≢ environment
            → compile db' k.tenant_id e ≡ compile db k.tenant_id e)
        → IsCoherent services laws db' (invalidate services k.tenant_id (some environment) server)
    one_dropped db' environment isolated elsewhere =
        invalidate-IsCoherent services laws db db' server k.tenant_id (some environment) coherent
          (λ t e. elim (Bool-cases (t == k.tenant_id)) [
            | inr foreign ↦ inr ((isolated t (λ same. ground arith)).compiled e)
            | inl own ↦ elim (Bool-cases (e == environment)) [
              | inl here_ ↦ inl (
                  cc (
                    drops_one services laws server k.tenant_id environment on accepts,
                    eq_of_test t k.tenant_id own,
                    eq_of_test e environment here_,
                  ))
              | inr other ↦ inr (
                  subst (λ u. compile db' u e ≡ compile db u e) (sym (eq_of_test t k.tenant_id own))
                    (elsewhere e (λ same. ground arith)))
            ]
          ])

    -- An update of a config leaves the tenant's sets of the other environments.
    ConfigStep-elsewhere :
        (payload : FlagUpdate) (now : Instant) {flag : Flag} {db' : Database}
        (environment e : Environment)
        → In flag db.flags
        → flag.tenant_id ≡ k.tenant_id
        → ConfigStep services payload k now flag db db'
        → value_of payload.environment ≡ some environment
        → e ≢ environment
        → compile db' k.tenant_id e ≡ compile db k.tenant_id e
    unfolding compile with_config_fields add_audit
    ConfigStep-elsewhere payload now environment e place owned (no_environment n same) given other =
        rw same
    ConfigStep-elsewhere payload now environment e place owned
          (no_change environment' config n found same) given other =
        rw same
    ConfigStep-elsewhere payload now {flag} environment e place owned
          (changed environment' config fields n found some_field typed differ fits same) given
          other =
        let (config_place, config_id, config_environment) =
          find_config-In flag.id environment' db found in
        let keeps = assign_config_all-keeps flag.type config fields typed in
        let new = changed_config config fields now in
        let id_same : new.flag_id ≡ flag.id = keeps.same_flag ∙ config_id in
        let owns =
          subst (λ t. OwnsId t new.flag_id db.flags) owned
            (subst (λ id. OwnsId flag.tenant_id id db.flags) (sym id_same)
              (DistinctIds-OwnsId sound.distinct_ids place)) in
        let environments_same : environment' ≡ environment = cc (n, given) in
        subst
          (λ (d : Database).
            join k.tenant_id e d.configs d.flags ≡ join k.tenant_id e db.configs db.flags)
          (sym same)
          (join-update_config_row k.tenant_id k.tenant_id e new db.configs db.flags
            (inr (λ e_same.
              other (e_same ∙ keeps.same_environment ∙ config_environment ∙ environments_same)))
            owns)

    update-IsCoherent :
        (payload : FlagUpdate) (flag_key : String) (now : Instant) {db' : Database} {flag' : Flag}
        (changes : List FlagChange) (environment : Option Environment)
        → value_of payload.environment ≡ environment
        → SessionSteps services payload k now flag_key db db' flag' changes
        → ((other : Uuid) → other ≢ k.tenant_id → SameFor other db db')
        → IsCoherent services laws db'
            (invalidate services k.tenant_id (invalidation_scope changes environment) server)
    unfolding write_flag
    update-IsCoherent payload flag_key now {db'} (change ∷ changes) environment given steps
          isolated =
        all_dropped db' isolated
    update-IsCoherent payload flag_key now {db'} [] none given steps isolated =
        all_dropped db' isolated
    update-IsCoherent payload flag_key now {db'} [] (some environment) given steps isolated =
        let (place, owned, key_same) = find_flag-In k.tenant_id flag_key db steps.found in
        let step =
          subst (λ f. ConfigStep services payload k now f db db') steps.written steps.config_step in
        one_dropped db' environment isolated
          (λ e other. ConfigStep-elsewhere payload now environment e place owned step given other)

    Effect-IsCoherent :
        {db' : Database} {server' : services.redis.Server}
        → Effect services k db server db' server'
        → IsCoherent services laws db' server'
    Effect-IsCoherent {db'} {server'} effect =
        of_effect effect (λ other ne. Effect-SameFor services k other ne effect sound)
      where
        of_effect :
            Effect services k db server db' server'
            → ((other : Uuid) → other ≢ k.tenant_id → SameFor other db db')
            → IsCoherent services laws db' server'
        of_effect (reads e s) isolated =
            subst (λ d. IsCoherent services laws d server') (sym e)
              (subst (λ v. IsCoherent services laws db v) (sym s) coherent)
        of_effect (fills environment e s) isolated =
            subst (λ d. IsCoherent services laws d server') (sym e)
              (subst (λ v. IsCoherent services laws db v) (sym s)
                (fill-IsCoherent services laws db server k.tenant_id environment coherent))
        of_effect (creates flag now owned typed active free e s) isolated =
            subst (λ v. IsCoherent services laws db' v) (sym s) (all_dropped db' isolated)
        of_effect (archives flag_key now flag found active e s) isolated =
            subst (λ v. IsCoherent services laws db' v) (sym s) (all_dropped db' isolated)
        of_effect (updates payload flag_key now flag changes run s) isolated =
            subst (λ v. IsCoherent services laws db' v) (sym s)
              (update-IsCoherent payload flag_key now changes (value_of payload.environment) refl
                (update_session-steps services payload k now flag_key db run) isolated)

  abbrev CoherentWorld : World services.redis → Type 0
  CoherentWorld w = IsCoherent services laws w.database w.server

  Step-IsCoherent :
      {x_api_key : Option String} {w w' : World services.redis}
      → IsSound w.database
      → services.settings.cache_enabled ≡ true
      → AcceptsDeletes services laws w.server
      → CoherentWorld w
      → Step services x_api_key w w'
      → CoherentWorld w'
  unfolding compile
  Step-IsCoherent sound on accepts h (refused e) = subst CoherentWorld (sym e) h
  Step-IsCoherent sound on accepts h (tenant_made admitted tenant key e) =
      subst CoherentWorld (sym e) (record { current = h.current })
  Step-IsCoherent {w = w} sound on accepts h (under k authenticated effect) =
      Effect-IsCoherent k w.database w.server sound on accepts h effect

  -- With a cache that is on, well-formed tables and a server that answers each DEL, any requests, one
  -- after the other, keep every cached flag set equal to what the tables compile to.
  pub serve-IsCoherent :
      (requests : List (Option String × Call)) (w : World services.redis)
      → IsSound w.database
      → services.settings.cache_enabled ≡ true
      → ((server : services.redis.Server) → AcceptsDeletes services laws server)
      → IsCoherent services laws w.database w.server
      → IsCoherent services laws
          (serve services requests w).database
          (serve services requests w).server
  unfolding serve
  serve-IsCoherent [] w sound on accepts h = h
  serve-IsCoherent ((x_api_key, call) ∷ requests) w sound on accepts h =
      let w' = (handle services x_api_key call w).1 in
      serve-IsCoherent requests w' (serve-IsSound services ((x_api_key, call) ∷ []) w sound) on
        accepts
        (Step-IsCoherent sound on (accepts w.server) h (handle-Step services x_api_key call w))

  loaded-current :
      (w : World services.redis) (tenant_id : Uuid) (environment : Environment)
      (cached : Option (List FlagSnapshot)) (v : World services.redis)
      → v.database ≡ w.database
      → ((snapshots : List FlagSnapshot)
          → cached ≡ some snapshots
          → snapshots ≡ compile w.database tenant_id environment)
      → (load_on_miss services tenant_id environment cached v).0
        ≡ compile w.database tenant_id environment
  unfolding load_on_miss
  loaded-current w tenant_id environment none v e h = rw e
  loaded-current w tenant_id environment (some cached) v e h = h cached refl

  -- Over a coherent cache, the flag set that an evaluation loads is what the tables compile to, whether
  -- it comes from the cache or not.
  pub load_flag_set-current :
      (w : World services.redis) (tenant_id : Uuid) (environment : Environment)
      → IsCoherent services laws w.database w.server
      → (load_flag_set services tenant_id environment w).0
        ≡ compile w.database tenant_id environment
  unfolding load_flag_set
  load_flag_set-current w tenant_id environment h =
      let (cached, stats) = get_flag_set services tenant_id environment w.server w.stats in
      loaded-current w tenant_id environment cached (record w { stats = stats }) refl
        (λ snapshots found.
          let (text, stored, decodes) =
            get_flag_set-held services laws tenant_id environment w.server w.stats found in
          some-injective (
            sym decodes
            ∙ ap (decode services) (held_is_current services laws tenant_id environment h stored)
            ∙ decode-encode services laws (compile w.database tenant_id environment)))
