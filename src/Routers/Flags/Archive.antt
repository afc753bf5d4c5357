-- ===== src/Routers/Flags/Archive.antt =====
-- `archive_flag` (app/routers/flags.py). `now` is `datetime.now(UTC)` and the transaction's time.
pub mod Sound
use thinking_feature_flag_se.Common.{
  ℕ, String, Bool, true, false, Option, none, some, List, [], ◌∷◌, map, if◌then◌else◌,
}
use thinking_feature_flag_se.Models.{
  Uuid, Instant, ApiKey, Flag, Database, archive_mark, flag_archived, add_audit, update_flag_row,
}
use thinking_feature_flag_se.Outcome.{Outcome, ok, raised}
use thinking_feature_flag_se.Services.{Services}
use thinking_feature_flag_se.Cache.{invalidate}
use thinking_feature_flag_se.World.{World, Handler}
use thinking_feature_flag_se.Routers.Flags.Responses.{FlagResponse, response_of, get_flag_or_404}

abbrev pub archived_flag : Flag → Instant → Flag
archived_flag flag now = record flag { archived_at = some now; updated_at = now }

-- The database after the commit.
unfoldable pub with_archived : ApiKey → Instant → Flag → Database → Database
unfolding add_audit update_flag_row
with_archived api_key now flag db =
    add_audit api_key.tenant_id flag.id none flag_archived (some (archive_mark none))
      (some (archive_mark (some now))) api_key.id now
      (record db { flags = update_flag_row (archived_flag flag now) db.flags })

module _ (services : Services) where
  -- `if flag.archived_at is None:`
  unfoldable pub archive_found :
      ApiKey → Instant → Flag → Option Instant → Handler services.redis FlagResponse
  unfolding with_archived response_of
  archive_found api_key now flag (some archived_at) w = (ok (response_of w.database flag), w)
  archive_found api_key now flag none w =
      let db = with_archived api_key now flag w.database in
      (
        ok (response_of db (archived_flag flag now)),
        record w { database = db; server = invalidate services api_key.tenant_id none w.server },
      )

  unfoldable pub archive_or_404 :
      ApiKey → Instant → Outcome Flag → Handler services.redis FlagResponse
  unfolding archive_found
  archive_or_404 api_key now (raised e) w = (raised e, w)
  archive_or_404 api_key now (ok flag) w = archive_found api_key now flag flag.archived_at w

  unfoldable pub archive_flag : ApiKey → String → Instant → Handler services.redis FlagResponse
  unfolding archive_or_404 get_flag_or_404
  archive_flag api_key flag_key now w =
      archive_or_404 api_key now (get_flag_or_404 w.database api_key.tenant_id flag_key) w
