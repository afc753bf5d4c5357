-- ===== src/Tests/Writes.antt =====
-- The theorems about whole writes at concrete requests.
use thinking_feature_flag_se.Common.{
  ◌≡◌, ◌≢◌, refl, false, String, Option, none, some, List, [], ◌∷◌, string_eq, All, nat_eq,
}
use thinking_feature_flag_se.Evaluation.{FlagSnapshot}
use thinking_feature_flag_se.Values.{production, staging, bool, value_matches_type}
use thinking_feature_flag_se.Outcome.{ok}
use thinking_feature_flag_se.Schemas.{check_flag_create, check_flag_update}
use thinking_feature_flag_se.Security.{require_tenant}
use thinking_feature_flag_se.World.{World}
use thinking_feature_flag_se.Routers.Evaluate.{load_flag_set}
use thinking_feature_flag_se.Routers.Flags.Responses.{response_of}
use thinking_feature_flag_se.Routers.Flags.Read.Pages.{}
use thinking_feature_flag_se.Api.{Body, Call, post_flag, put_flag, delete_flag, handle, serve}
use thinking_feature_flag_se.Routers.Flags.Update.{update_flag}
use thinking_feature_flag_se.Api.Repeated.{put_flag-repeated}
use thinking_feature_flag_se.Api.Dark.{IsDark, post_flag-IsDark}
use thinking_feature_flag_se.Api.Unserved.{delete_flag-unserved}
use thinking_feature_flag_se.Routers.Flags.Archive.{archived_flag, archive_flag}
use thinking_feature_flag_se.Routers.Flags.Create.{new_flag, create_flag}
use thinking_feature_flag_se.Models.Integrity.{IsSound}
use thinking_feature_flag_se.Api.Replay.{replay, tell, tell_flag}
use thinking_feature_flag_se.Api.Retold.{IsRetold, serve-IsRetold}
use thinking_feature_flag_se.Tests.Redis.{redis}
use thinking_feature_flag_se.Tests.Setup.{
  services, laws, cold, alice, dark_mode, db, db-IsSound, world, kill, new_payload,
}

abbrev off_now : World redis
off_now = (handle services (some "ffs_a") (put_flag 1 "dark-mode" kill 9) world).1

dark_mode_off :
    (handle services (some "ffs_a") (put_flag 1 "dark-mode" kill 9) world).0
    ≡ ok (Body.flag (response_of off_now.database dark_mode))
unfolding handle require_tenant check_flag_update update_flag
dark_mode_off = refl

alice_owns : require_tenant services.platform db 1 (some "ffs_a") ≡ ok alice
unfolding require_tenant
alice_owns = refl

put_flag-repeated_example :
    ((handle services (some "ffs_a") (put_flag 1 "dark-mode" kill 12) off_now).0
      ≡ ok (Body.flag (response_of off_now.database dark_mode)))
    × ((handle services (some "ffs_a") (put_flag 1 "dark-mode" kill 12) off_now).1.database
        ≡ off_now.database)
put_flag-repeated_example =
    put_flag-repeated services kill "dark-mode" 9 12 (some "ffs_a") 1 world
      {body = Body.flag (response_of off_now.database dark_mode)} db-IsSound dark_mode_off

abbrev gone_now : World redis
gone_now = (handle services (some "ffs_a") (delete_flag 1 "dark-mode" 9) world).1

dark_mode_gone :
    (handle services (some "ffs_a") (delete_flag 1 "dark-mode" 9) world).0
    ≡ ok (Body.flag (response_of gone_now.database (archived_flag dark_mode 9)))
unfolding handle require_tenant archive_flag
dark_mode_gone = refl

delete_flag-unserved_example :
    All (λ (s : FlagSnapshot). s.key ≢ "dark-mode") (load_flag_set services 1 staging gone_now).0
delete_flag-unserved_example =
    delete_flag-unserved services laws (some "ffs_a") 1 "dark-mode" 9 world alice
      {body = Body.flag (response_of gone_now.database (archived_flag dark_mode 9))} staging
      db-IsSound refl (λ server ks. refl) cold alice_owns dark_mode_gone

abbrev posted_now : World redis
posted_now = (handle services (some "ffs_a") (post_flag 1 new_payload 40 9) world).1

posted :
    (handle services (some "ffs_a") (post_flag 1 new_payload 40 9) world).0
    ≡ ok (Body.flag (response_of posted_now.database (new_flag new_payload 1 40 9)))
unfolding handle require_tenant create_flag check_flag_create value_matches_type
posted = refl

post_flag-IsDark_example :
    IsDark services laws
      (some "ffs_a")
      1
      new_payload
      40
      9
      world
      alice
      production
      (load_flag_set services 1 production posted_now).0
post_flag-IsDark_example =
    post_flag-IsDark services laws (some "ffs_a") 1 new_payload 40 9 world alice
      {body = Body.flag (response_of posted_now.database (new_flag new_payload 1 40 9))} production
      db-IsSound refl (λ server ks. refl) cold alice_owns posted

-- A service with tenants and keys, and no flag yet.
abbrev empty_world : World redis
empty_world = record world { database = record db { flags = []; configs = []; audit_log = [] } }

empty-IsSound : IsSound empty_world.database
empty-IsSound = record {
  distinct_ids = tt;
  distinct_keys = tt;
  typed = tt;
  owned = tt;
  one_per_place = tt;
}

abbrev lifetime : List (Option String × Call)
lifetime =
    (some "ffs_a", post_flag 1 new_payload 40 9)
    ∷ (some "ffs_a", put_flag 1 "new" kill 10)
    ∷ (some "ffs_a", delete_flag 1 "new" 11)
    ∷ []

serve-IsRetold_example : IsRetold (serve services lifetime empty_world).database
serve-IsRetold_example =
    serve-IsRetold services lifetime empty_world empty-IsSound (record { flags = tt; configs = tt })

-- The records of the three requests, replayed: the creation, and the archiving. The update changes
-- nothing, since the flag is off already.
lifetime_told :
    replay tell_flag 40 none (serve services lifetime empty_world).database.audit_log
    ≡ some (record { name = "New"; default_value = bool false; archived_at = some 11 })
unfolding serve handle require_tenant check_flag_create check_flag_update update_flag create_flag
    archive_flag replay tell value_matches_type
lifetime_told = refl
