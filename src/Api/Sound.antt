-- ===== src/Api/Sound.antt =====
-- The well-formedness of the tables under every request (all handlers of app/routers).
use thinking_feature_flag_se.Common.{sym, subst, String, Option, List, [], ◌∷◌}
use thinking_feature_flag_se.Models.{ApiKey, Database}
use thinking_feature_flag_se.Models.Integrity.{IsSound, find_flag-In}
use thinking_feature_flag_se.Services.{Services}
use thinking_feature_flag_se.World.{World}
use thinking_feature_flag_se.Routers.Flags.Create.Sound.{with_new_flag-IsSound}
use thinking_feature_flag_se.Routers.Flags.Update.Sound.{update_session-IsSound}
use thinking_feature_flag_se.Routers.Flags.Archive.Sound.{with_archived-IsSound}
use thinking_feature_flag_se.Api.{Call, handle, serve}
use thinking_feature_flag_se.Api.Effect.{
  Effect, reads, fills, creates, updates, archives, Step, refused, tenant_made, under, handle-Step,
}

module _ (services : Services) where
  Effect-IsSound :
      {k : ApiKey} {db : Database} {server : services.redis.Server} {db' : Database}
      {server' : services.redis.Server}
      → Effect services k db server db' server'
      → IsSound db
      → IsSound db'
  Effect-IsSound (reads e s) h = subst IsSound (sym e) h
  Effect-IsSound (fills environment e s) h = subst IsSound (sym e) h
  Effect-IsSound {k} {db} (creates flag now owned typed active free e s) h =
      subst IsSound (sym e) (with_new_flag-IsSound flag k now db typed free h)
  Effect-IsSound {k} {db} (updates payload flag_key now flag changes run s) h =
      update_session-IsSound services payload k now flag_key db h run
  Effect-IsSound {k} {db} (archives flag_key now flag found active e s) h =
      subst IsSound (sym e)
        (with_archived-IsSound k now flag db (find_flag-In k.tenant_id flag_key db found).0 h)

  -- Every step leaves well-formed tables well-formed.
  pub Step-IsSound :
      {x_api_key : Option String} {w w' : World services.redis}
      → Step services x_api_key w w'
      → IsSound w.database
      → IsSound w'.database
  Step-IsSound (refused e) h = subst (λ v. IsSound v.database) (sym e) h
  Step-IsSound (tenant_made admitted tenant key e) h =
      subst (λ v. IsSound v.database) (sym e)
        (record {
          distinct_ids = h.distinct_ids;
          distinct_keys = h.distinct_keys;
          typed = h.typed;
          owned = h.owned;
          one_per_place = h.one_per_place;
        })
  Step-IsSound (under k authenticated effect) h = Effect-IsSound effect h

  -- From well-formed tables, any requests, accepted or refused, lead to well-formed tables: flag ids
  -- are unique, and so are keys within a tenant, the default of a flag and the values of its configs
  -- have its type, every config has a flag of its own tenant, a flag has one config
  -- per environment, and every percentage is at most 100.
  pub serve-IsSound :
      (requests : List (Option String × Call)) (w : World services.redis)
      → IsSound w.database
      → IsSound (serve services requests w).database
  unfolding serve
  serve-IsSound [] w h = h
  serve-IsSound ((x_api_key, call) ∷ requests) w h =
      serve-IsSound requests (handle services x_api_key call w).1
        (Step-IsSound (handle-Step services x_api_key call w) h)
