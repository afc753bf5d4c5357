-- ===== src/Api/Unserved.antt =====
-- Archiving a flag, from the DELETE to the evaluations behind it (app/routers/flags.py,
-- app/routers/evaluate.py, through app/cache.py).
use thinking_feature_flag_se.Common.{
  ◌≡◌, ◌≢◌, ◌∙◌, refl, sym, ap, subst, String, true, Option, none, some, [], ◌∷◌, All, All-map, In,
}
use thinking_feature_flag_se.Values.{Environment}
use thinking_feature_flag_se.Evaluation.{FlagSnapshot}
use thinking_feature_flag_se.Models.{Uuid, Instant, ApiKey, Flag, Database, add_audit}
use thinking_feature_flag_se.Models.Integrity.{
  IsSound, DistinctKeys-eq, find_flag-In, In-update_self,
}
use thinking_feature_flag_se.Outcome.{Outcome, ok, raised}
use thinking_feature_flag_se.Security.{require_tenant}
use thinking_feature_flag_se.Services.{Services, ServiceLaws}
use thinking_feature_flag_se.World.{World}
use thinking_feature_flag_se.Cache.Reads.{AcceptsDeletes}
use thinking_feature_flag_se.Routers.Evaluate.{snapshot_of, compile, load_flag_set}
use thinking_feature_flag_se.Routers.Evaluate.Served.{IsServed, compile-IsServed}
use thinking_feature_flag_se.Routers.Flags.Responses.{get_flag_or_404}
use thinking_feature_flag_se.Routers.Flags.Archive.{
  archived_flag, with_archived, archive_found, archive_or_404, archive_flag,
}
use thinking_feature_flag_se.Routers.Flags.Archive.Sound.{with_archived-IsSound}
use thinking_feature_flag_se.Routers.Flags.Update.Steps.{get_flag-found}
use thinking_feature_flag_se.Api.{Body, delete_flag, guarded, with_body, handle, serve}
use thinking_feature_flag_se.Api.Coherence.{IsCoherent}
use thinking_feature_flag_se.Api.Coherence.Kept.{serve-IsCoherent, load_flag_set-current}

module _ (services : Services) (k : ApiKey) (flag_key : String) (now : Instant) where
  -- The tenant's flag with the key is archived.
  abbrev KeyArchived : Database → Type 0
  KeyArchived db =
      (f : Flag)
      → In f db.flags
      → f.tenant_id ≡ k.tenant_id
      → f.key ≡ flag_key
      → f.archived_at ≢ none

  archived-KeyArchived :
      (db : Database) {flag : Flag}
      → IsSound db
      → In flag db.flags
      → flag.tenant_id ≡ k.tenant_id
      → flag.key ≡ flag_key
      → flag.archived_at ≢ none
      → KeyArchived db
  archived-KeyArchived db sound place tenant key archived f there_ same_tenant same_key active =
      let same =
        DistinctKeys-eq sound.distinct_keys there_ place
          (same_tenant ∙ sym tenant, same_key ∙ sym key) in
      archived (ap (λ (g : Flag). g.archived_at) (sym same) ∙ active)

  archive_found-KeyArchived :
      (flag : Flag) (archived_at : Option Instant) (w : World services.redis)
      → IsSound w.database
      → In flag w.database.flags
      → flag.tenant_id ≡ k.tenant_id
      → flag.key ≡ flag_key
      → flag.archived_at ≡ archived_at
      → KeyArchived (archive_found services k now flag archived_at w).1.database
  unfolding archive_found with_archived add_audit
  archive_found-KeyArchived flag (some t) w sound place tenant key e =
      archived-KeyArchived w.database sound place tenant key (λ active. cc (e, active))
  archive_found-KeyArchived flag none w sound place tenant key e =
      archived-KeyArchived (with_archived k now flag w.database)
        (with_archived-IsSound k now flag w.database place sound)
        (In-update_self (archived_flag flag now) place refl) tenant key (λ active. cc (active))

  archive_or_404-KeyArchived :
      (result : Outcome Flag) (w : World services.redis) {body : Body}
      → IsSound w.database
      → get_flag_or_404 w.database k.tenant_id flag_key ≡ result
      → (with_body services Body.flag (archive_or_404 services k now result) w).0 ≡ ok body
      → KeyArchived
          (with_body services Body.flag (archive_or_404 services k now result) w).1.database
  unfolding archive_or_404 with_body
  archive_or_404-KeyArchived (raised e) w sound found done = absurd (cc)
  archive_or_404-KeyArchived (ok flag) w sound found done =
      let (place, tenant, key) =
        find_flag-In k.tenant_id flag_key w.database
          (get_flag-found w.database k.tenant_id flag_key found) in
      archive_found-KeyArchived flag flag.archived_at w sound place tenant key refl

module _ (services : Services) (laws : ServiceLaws services) (x_api_key : Option String)
    (tenant_id : Uuid) (flag_key : String) (now : Instant) (w : World services.redis)
    (k : ApiKey) where
  abbrev after_delete : World services.redis
  after_delete = (handle services x_api_key (delete_flag tenant_id flag_key now) w).1

  -- Over a sound and coherent state whose cache is on and drops what it is told to: once a DELETE of a
  -- flag has answered with success, no flag set that an evaluation loads, in any environment and from
  -- the cache or not, holds a flag of that key.
  pub delete_flag-unserved :
      {body : Body} (environment : Environment)
      → IsSound w.database
      → services.settings.cache_enabled ≡ true
      → ((server : services.redis.Server) → AcceptsDeletes services laws server)
      → IsCoherent services laws w.database w.server
      → require_tenant services.platform w.database tenant_id x_api_key ≡ ok k
      → (handle services x_api_key (delete_flag tenant_id flag_key now) w).0 ≡ ok body
      → All
          (λ (s : FlagSnapshot). s.key ≢ flag_key)
          (load_flag_set services k.tenant_id environment after_delete).0
  unfolding handle serve snapshot_of guarded archive_flag
  delete_flag-unserved {body} environment sound on accepts coherent owner done =
      let call = delete_flag tenant_id flag_key now in
      let coherent' =
        serve-IsCoherent services laws ((x_api_key, call) ∷ []) w sound on accepts coherent in
      let run = λ (dependency : Outcome ApiKey).
        guarded services dependency true Body.flag (λ key. archive_flag services key flag_key now)
          w in
      let archived : KeyArchived services k flag_key now after_delete.database =
        subst (λ dependency. KeyArchived services k flag_key now (run dependency).1.database)
          (sym owner)
          (archive_or_404-KeyArchived services k flag_key now
            (get_flag_or_404 w.database k.tenant_id flag_key) w sound refl
            (ap (λ dependency. (run dependency).0) (sym owner) ∙ done)) in
      subst (All (λ (s : FlagSnapshot). s.key ≢ flag_key))
        (sym (load_flag_set-current services laws after_delete k.tenant_id environment coherent'))
        (All-map {Q = λ (s : FlagSnapshot). s.key ≢ flag_key}
          (λ s (served : IsServed after_delete.database k.tenant_id environment s) same_key.
            archived served.flag served.flag_place served.same_tenant
              (sym (ap (λ (x : FlagSnapshot). x.key) served.compiled) ∙ same_key) served.active)
          (compile after_delete.database k.tenant_id environment)
          (compile-IsServed after_delete.database k.tenant_id environment))
