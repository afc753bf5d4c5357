-- ===== src/Routers/Flags/Archive/Sound.antt =====
-- `archive_flag` (app/routers/flags.py) and the well-formedness of the tables.
use thinking_feature_flag_se.Common.{refl, In, All-at}
use thinking_feature_flag_se.Models.{Instant, ApiKey, Flag, Database, add_audit}
use thinking_feature_flag_se.Models.Integrity.{IsSound, IsTyped}
use thinking_feature_flag_se.Models.Preserved.{IsVersion, update_flag_row-IsSound}
use thinking_feature_flag_se.Routers.Flags.Archive.{archived_flag, with_archived}

pub archived_flag-IsVersion :
    (flag : Flag) (now : Instant) → IsVersion flag (archived_flag flag now)
archived_flag-IsVersion flag now = record {
  same_id = refl;
  same_tenant = refl;
  same_key = refl;
  same_type = refl;
}

-- Archiving a row leaves the tables well-formed.
pub with_archived-IsSound :
    (api_key : ApiKey) (now : Instant) (flag : Flag) (db : Database)
    → In flag db.flags
    → IsSound db
    → IsSound (with_archived api_key now flag db)
unfolding with_archived add_audit
with_archived-IsSound api_key now flag db place s =
    let s' =
      update_flag_row-IsSound (archived_flag-IsVersion flag now) place
        (All-at IsTyped place s.typed) s in
    record {
      distinct_ids = s'.distinct_ids;
      distinct_keys = s'.distinct_keys;
      typed = s'.typed;
      owned = s'.owned;
      one_per_place = s'.one_per_place;
    }
