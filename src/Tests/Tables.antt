-- ===== src/Tests/Tables.antt =====
-- The theorems about flags, listings, metrics and loggers at concrete inputs.
use thinking_feature_flag_se.Common.{
  ℕ, ◌≤◌, ◌≡◌, ◌≢◌, refl, false, none, some, List, [], ◌∷◌, eq_self, string_eq, map, All, IsListing,
  ◌⊎◌, true, String, leb, length, ◌*◌, ◌/◌, arith, nat_eq,
}
use thinking_feature_flag_se.Common.Texts.{codes}
use thinking_feature_flag_se.Routers.Evaluate.Typed.{ServesType, compile-ServesType}
use thinking_feature_flag_se.Values.{production}
use thinking_feature_flag_se.Metrics.{Metrics, no_metrics, Snapshot, snapshot}
use thinking_feature_flag_se.Metrics.Percentiles.{IsRanked, snapshot-percentiles}
use thinking_feature_flag_se.Models.{Database, Flag, FlagAuditLog, flag_created}
use thinking_feature_flag_se.Outcome.{ok}
use thinking_feature_flag_se.Cache.{set_flag_set, invalidate}
use thinking_feature_flag_se.Routers.Evaluate.{compile}
use thinking_feature_flag_se.Routers.Flags.Responses.{get_flag_or_404}
use thinking_feature_flag_se.Routers.Flags.Read.{active, list_flags, flag_history}
use thinking_feature_flag_se.Routers.Flags.Read.Pages.{shown_row, IsPage, flag_history-IsPage}
use thinking_feature_flag_se.Routers.Flags.Read.Listings.{
  IsAsked, shown, InOrder, list_flags-IsListing,
}
use thinking_feature_flag_se.Api.Coherence.{IsCoherent}
use thinking_feature_flag_se.Api.Coherence.Race.{AcceptsSets, late_fill-stale}
use thinking_feature_flag_se.Logging.{
  Loggers, plain_text, cloud_logging, configure_logging, handlers_of,
}
use thinking_feature_flag_se.Services.{Services, local}
use thinking_feature_flag_se.Logging.Handlers.{configure_logging-once}
use thinking_feature_flag_se.Tests.Redis.{no_data, Store, redis_laws}
use thinking_feature_flag_se.Tests.Setup.{
  services, platform, settings, laws, alice, dark_mode, bolt_flag, db, db-IsSound, world,
}

abbrev logged : ℕ → FlagAuditLog
logged id = record {
  id = id;
  tenant_id = 1;
  flag_id = 21;
  environment = none;
  action = flag_created;
  old_value = none;
  new_value = none;
  actor_key_id = 11;
  created_at = 6;
}

abbrev db_logged : Database
db_logged = record db { audit_log = logged 1 ∷ logged 2 ∷ logged 3 ∷ [] }

dark_mode_found : get_flag_or_404 db_logged 1 "dark-mode" ≡ ok dark_mode
unfolding get_flag_or_404
dark_mode_found = refl

flag_history-IsPage_example :
    (rows : List FlagAuditLog) × (flag_history alice "dark-mode" 2 db_logged
      ≡ ok (map shown_row rows))
    × IsPage 2 1 21 db_logged.audit_log rows
flag_history-IsPage_example =
    flag_history-IsPage alice "dark-mode" 2 db_logged dark_mode dark_mode_found

-- Shorter keys come first.
abbrev by_length : Services
by_length = record services { collates = λ s t. leb (length (codes s)) (length (codes t)) }

by_length-total : (s t : String) → by_length.collates s t ≡ false → by_length.collates t s ≡ true
by_length-total s t h = ground arith

by_length-chain :
    (s t u : String)
    → by_length.collates s t ≡ true
    → by_length.collates t u ≡ true
    → by_length.collates s u ≡ true
by_length-chain s t u h h' = ground arith

abbrev db_two : Database
db_two = record db {
  flags = dark_mode ∷ bolt_flag ∷ record dark_mode { id = 23; key = "beta" } ∷ [];
}

list_flags-IsListing_example :
    (found : List Flag) × (list_flags by_length alice (some production) active db_two
      ≡ map (shown (some production) db_two) found)
    × IsListing
        (IsAsked 1 active)
        (InOrder by_length by_length-total by_length-chain)
        found
        db_two.flags
list_flags-IsListing_example =
    list_flags-IsListing by_length by_length-total by_length-chain alice (some production) active
      db_two

abbrev sampled : Metrics
sampled = record no_metrics { latencies = 30 ∷ 10 ∷ 20 ∷ [] }

abbrev reported : Snapshot
reported = snapshot (λ x. x / 10 * 10) (λ n. 0) (λ n. n) (λ n. n) 9 world.stats sampled

snapshot-percentiles_example :
    (reported.p50 ≤ reported.p95)
    × (reported.p95 ≤ reported.p99)
    × ((sampled.latencies ≡ [])
        ⊎ (IsRanked (λ x. x / 10 * 10) (λ n. 0) sampled.latencies reported.p50
            × IsRanked (λ x. x / 10 * 10) (λ n. n) sampled.latencies reported.p95
            × IsRanked (λ x. x / 10 * 10) (λ n. n) sampled.latencies reported.p99))
snapshot-percentiles_example =
    snapshot-percentiles (λ x. x / 10 * 10) (λ n. 0) (λ n. n) (λ n. n) 9 world.stats sampled
      (λ x y h. omega arith) (λ n. (omega arith, omega arith))

-- Loggers as uvicorn leaves them.
abbrev installed : Loggers
installed = record {
  root_handlers = [];
  root_level = "WARNING";
  named = λ name. record { handlers = cloud_logging ∷ []; propagate = false };
}

configure_logging-once_example :
    let configured = configure_logging settings installed in
    ((settings.app_env ≡ local)
      × (handlers_of configured ("uvicorn.access" ∷ "uvicorn" ∷ []) ≡ plain_text ∷ []))
    ⊎ ((settings.app_env ≢ local)
        × (handlers_of configured ("uvicorn.access" ∷ "uvicorn" ∷ []) ≡ cloud_logging ∷ []))
configure_logging-once_example =
    configure_logging-once settings installed ("uvicorn.access" ∷ "uvicorn" ∷ []) (refl, (refl, tt))

abbrev db_archived : Database
db_archived = record db { flags = record dark_mode { archived_at = some 9 } ∷ [] }

set-held : (server : Store) → AcceptsSets services laws server
unfolding laws redis_laws
set-held server key value ttl = rw (eq_self key) refl

archived_differs : compile db 1 production ≢ compile db_archived 1 production
unfolding compile
archived_differs e = cc

late_fill-stale_example : ¬ IsCoherent services laws db_archived (
    set_flag_set services 1 production
      (compile db 1 production)
      (invalidate services 1 none no_data))
late_fill-stale_example =
    late_fill-stale services laws db db_archived no_data 1 production none refl set-held
      archived_differs

compile-ServesType_example : All (ServesType platform) (compile db 1 production)
compile-ServesType_example = compile-ServesType platform db 1 production db-IsSound
