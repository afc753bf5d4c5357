-- ===== src/Api/Coherence.antt =====
-- The cached flag sets and the tables under every request (app/cache.py under the handlers of
-- app/routers).
pub mod Kept
pub mod Race
use thinking_feature_flag_se.Common.{
  ◌≡◌, ◌≢◌, ◌⊎◌, inl, inr, refl, sym, ap, subst, ◌∙◌, true, String, Option, none, some, List, [],
  ◌∷◌, map, arith, ◌==◌, nat_eq, string_eq, member, Bool-cases, eq_self, eq_of_test, Option-cases,
  In, here, there,
}
use thinking_feature_flag_se.Values.{
  Environment, environment_eq, environments, development, staging, production,
}
use thinking_feature_flag_se.Models.{Uuid, Instant, ApiKey, Flag, Database, FlagChange, add_audit}
use thinking_feature_flag_se.Evaluation.{FlagSnapshot}
use thinking_feature_flag_se.Schemas.{FlagUpdate, value_of}
use thinking_feature_flag_se.Models.Integrity.{
  IsSound, OwnsId, DistinctIds-OwnsId, find_flag-In, find_config-In,
}
use thinking_feature_flag_se.Services.{Services, ServiceLaws}
use thinking_feature_flag_se.Cache.{
  cache_key, encode, decode, get_flag_set, set_flag_set, invalidate,
}
use thinking_feature_flag_se.Cache.Reads.{
  held, AcceptsDeletes, set_flag_set-held, invalidate-keeps, invalidate-drops, decode-encode,
  get_flag_set-held,
}
use thinking_feature_flag_se.Cache.Keys.{cache_key-injective}
use thinking_feature_flag_se.World.{World}
use thinking_feature_flag_se.Routers.Evaluate.{compile, join, load_on_miss, load_flag_set}
use thinking_feature_flag_se.Routers.Evaluate.Compiled.{join-update_config_row}
use thinking_feature_flag_se.Routers.Flags.Changes.Typed.{assign_config_all-keeps}
use thinking_feature_flag_se.Routers.Flags.Update.{
  write_flag, with_config_fields, changed_config, invalidation_scope,
}
use thinking_feature_flag_se.Routers.Flags.Update.Steps.{
  ConfigStep, no_environment, no_change, changed, SessionSteps, update_session-steps,
}
use thinking_feature_flag_se.Api.Sound.{serve-IsSound}
use thinking_feature_flag_se.Api.Isolation.Writes.{SameFor}
use thinking_feature_flag_se.Api.Isolation.{Effect-SameFor}
use thinking_feature_flag_se.Api.{Call, handle, serve}
use thinking_feature_flag_se.Api.Effect.{
  Effect, reads, fills, creates, updates, archives, Step, refused, tenant_made, under, handle-Step,
}

pub some-injective : {A : Type 0} {a b : A} → some a ≡ some b → a ≡ b
some-injective e = cc

member-map :
    (f : Environment → String) (e : Environment) {es : List Environment}
    → In e es
    → member (f e) (map f es) ≡ true
member-map f e here = rw (eq_self (f e)) refl
member-map f e (there m) = ground (arith, member-map f e m)

pub In-environments : (e : Environment) → In e environments
In-environments development = here
In-environments staging = there here
In-environments production = there (there here)

module _ (services : Services) (laws : ServiceLaws services) where
  -- For every tenant and environment, the server holds nothing or what the tables compile to now.
  pub record IsCoherent (db : Database) (server : services.redis.Server) : Type 0 where
    pub current :
        (tenant_id : Uuid) (environment : Environment)
        → (held services laws server (cache_key services tenant_id environment) ≡ none)
          ⊎ (held services laws server (cache_key services tenant_id environment)
              ≡ some (encode services (compile db tenant_id environment)))

  pub held_is_current :
      {db : Database} {server : services.redis.Server} (t : Uuid) (e : Environment)
      {text : services.redis.Value}
      → IsCoherent db server
      → held services laws server (cache_key services t e) ≡ some text
      → text ≡ encode services (compile db t e)
  held_is_current t e h found = elim (h.current t e) [
    | inl nothing ↦ absurd (cc (nothing, found))
    | inr same ↦ some-injective (sym found ∙ same)
  ]

  pub IsCoherent-of_held :
      {db : Database} {server : services.redis.Server}
      → ((t : Uuid) (e : Environment) (text : services.redis.Value)
          → held services laws server (cache_key services t e) ≡ some text
          → text ≡ encode services (compile db t e))
      → IsCoherent db server
  IsCoherent-of_held {server = server} h = record {
    current = λ t e. elim (Option-cases (held services laws server (cache_key services t e))) [
      | inl nothing ↦ inl nothing
      | inr (text, found) ↦ inr (found ∙ ap some (h t e text found))
    ];
  }

  -- Filling the cache with what the tables compile to.
  pub fill-IsCoherent :
      (db : Database) (server : services.redis.Server) (tenant_id : Uuid)
      (environment : Environment)
      → IsCoherent db server
      → IsCoherent db
          (set_flag_set services tenant_id environment (compile db tenant_id environment) server)
  fill-IsCoherent db server tenant_id environment h = IsCoherent-of_held (λ t e text found.
      elim (set_flag_set-held services laws tenant_id environment (compile db tenant_id environment)
        server (cache_key services t e) text found) [
          | inr old ↦ held_is_current t e h old
          | inl (same_key, written) ↦
              let (same_tenant, same_environment) =
                cache_key-injective services laws t tenant_id e environment same_key in
              written ∙ cc (same_tenant, same_environment)
        ])

  -- An invalidation keeps the cache coherent with a change of the tables, if every set that it leaves
  -- compiles to the same as before.
  pub invalidate-IsCoherent :
      (db db' : Database) (server : services.redis.Server) (tenant_id : Uuid)
      (scope : Option Environment)
      → IsCoherent db server
      → ((t : Uuid) (e : Environment)
          → (held services laws
                (invalidate services tenant_id scope server)
                (cache_key services t e)
              ≡ none)
            ⊎ (compile db' t e ≡ compile db t e))
      → IsCoherent db' (invalidate services tenant_id scope server)
  invalidate-IsCoherent db db' server tenant_id scope h left = IsCoherent-of_held (λ t e text found.
      elim (left t e) [
        | inl gone ↦ absurd (cc (gone, found))
        | inr same ↦
            held_is_current t e h (
              invalidate-keeps services laws tenant_id scope server (cache_key services t e) text
                found)
            ∙ ap (encode services) (sym same)
      ])

  -- With a cache that is on and a server that answers, an invalidation of all drops each environment.
  pub drops_all :
      (server : services.redis.Server) (t : Uuid) (e : Environment)
      → services.settings.cache_enabled ≡ true
      → AcceptsDeletes services laws server
      → held services laws (invalidate services t none server) (cache_key services t e) ≡ none
  drops_all server t e on accepts =
      invalidate-drops services laws t none server e on accepts
        (member-map (cache_key services t) e (In-environments e))

  pub drops_one :
      (server : services.redis.Server) (t : Uuid) (e : Environment)
      → services.settings.cache_enabled ≡ true
      → AcceptsDeletes services laws server
      → held services laws (invalidate services t (some e) server) (cache_key services t e) ≡ none
  drops_one server t e on accepts =
      invalidate-drops services laws t (some e) server e on accepts
        (member-map (cache_key services t) e {es = e ∷ []} here)
