-- ===== src/Routers/Flags/Update/Sound.antt =====
-- `update_flag` (app/routers/flags.py) and the well-formedness of the tables.
use thinking_feature_flag_se.Common.{
  ◌≤◌, ◌≡◌, refl, subst, sym, ◌∙◌, String, true, some, List, [], ◌∷◌, arith, All, All-at, In,
  nat_eq,
}
use thinking_feature_flag_se.Values.{value_matches_type}
use thinking_feature_flag_se.Models.{
  Instant, ApiKey, Flag, FlagEnvironmentConfig, Database, FlagChange, add_audit,
}
use thinking_feature_flag_se.Models.Integrity.{
  IsSound, IsTyped, IsOwned, DistinctIds-eq, In-update_self, find_flag-In, find_config-In,
}
use thinking_feature_flag_se.Models.Preserved.{
  IsVersion, update_flag_row-IsSound, update_config_row-IsSound,
}
use thinking_feature_flag_se.Schemas.{FlagUpdate}
use thinking_feature_flag_se.Outcome.{ok}
use thinking_feature_flag_se.Services.{Services}
use thinking_feature_flag_se.Routers.Flags.Changes.{}
use thinking_feature_flag_se.Routers.Flags.Changes.Typed.{
  FlagChangeTyped, assign_flag_all-IsVersion, assign_flag_all-IsTyped, assign_config_all-keeps,
}
use thinking_feature_flag_se.Routers.Flags.Update.Steps.{
  ConfigStep, no_environment, no_change, changed, update_session-steps,
}
use thinking_feature_flag_se.Routers.Flags.Update.{
  changed_flag, changed_config, with_flag_fields, with_config_fields, write_flag, config_fits,
  update_session,
}

pub changed_flag-IsVersion :
    (flag : Flag) (changes : List FlagChange) (now : Instant)
    → IsVersion flag (changed_flag flag changes now)
changed_flag-IsVersion flag changes now =
    let v = assign_flag_all-IsVersion flag changes in
    record {
      same_id = v.same_id;
      same_tenant = v.same_tenant;
      same_key = v.same_key;
      same_type = v.same_type;
    }

-- The tables after the first half of the handler, with the flag that it goes on with.
pub record Written (old : Flag) (db : Database) (flag : Flag) : Type 0 where
  pub sound : IsSound db
  pub place : In flag db.flags
  pub version : IsVersion old flag

pub write_flag-Written :
    (api_key : ApiKey) (now : Instant) (flag : Flag) (changes : List FlagChange) (db : Database)
    → All (FlagChangeTyped flag.type) changes
    → In flag db.flags
    → IsSound db
    → Written flag
        (write_flag api_key now flag changes db).0
        (write_flag api_key now flag changes db).1
unfolding write_flag with_flag_fields add_audit
write_flag-Written api_key now flag [] db typed place s = record {
  sound = s;
  place = place;
  version = record { same_id = refl; same_tenant = refl; same_key = refl; same_type = refl };
}
write_flag-Written api_key now flag (change ∷ changes) db typed place s =
    let fields = change ∷ changes in
    let flag' = changed_flag flag fields now in
    let version = changed_flag-IsVersion flag fields now in
    let s' =
      update_flag_row-IsSound version place
        (assign_flag_all-IsTyped flag fields typed (All-at IsTyped place s.typed)) s in
    record {
      sound = record {
        distinct_ids = s'.distinct_ids;
        distinct_keys = s'.distinct_keys;
        typed = s'.typed;
        owned = s'.owned;
        one_per_place = s'.one_per_place;
      };
      place = In-update_self flag' place (sym version.same_id);
      version = version;
    }

fits_in_range :
    (services : Services) (c : FlagEnvironmentConfig)
    → config_fits services c ≡ true
    → c.rollout_percentage ≤ 100
unfolding config_fits
fits_in_range services c h = ground arith

module _ (services : Services) (payload : FlagUpdate) (api_key : ApiKey) (now : Instant) where
  pub ConfigStep-IsSound :
      {flag : Flag} {db db' : Database}
      → In flag db.flags
      → IsSound db
      → ConfigStep services payload api_key now flag db db'
      → IsSound db'
  unfolding with_config_fields add_audit
  ConfigStep-IsSound place s (no_environment n e) = rw e s
  ConfigStep-IsSound place s (no_change environment config n found e) = rw e s
  ConfigStep-IsSound {flag} {db} place s
        (changed environment config fields n found some_field typed differ fits e) =
      let (there_, same_flag, same_environment) = find_config-In flag.id environment db found in
      let o = All-at (IsOwned db.flags) there_ s.owned in
      let keeps = assign_config_all-keeps flag.type config fields typed in
      let owner_is : o.owner ≡ flag =
        DistinctIds-eq s.distinct_ids o.place place (o.same_id ∙ same_flag) in
      let s' =
        update_config_row-IsSound {db = db} {config = changed_config config fields now}
          (record {
            owner = o.owner;
            place = o.place;
            same_id = o.same_id ∙ sym keeps.same_flag;
            same_tenant = o.same_tenant ∙ sym keeps.same_tenant;
            value_typed =
                subst
                  (λ (f : Flag).
                    value_matches_type (some (changed_config config fields now).value) f.type
                    ≡ true)
                  (sym owner_is)
                  (keeps.value_typed (
                    subst (λ (f : Flag). value_matches_type (some config.value) f.type ≡ true)
                      owner_is o.value_typed));
            in_range = fits_in_range services (changed_config config fields now) fits;
          })
          s in
      rw e (record {
        distinct_ids = s'.distinct_ids;
        distinct_keys = s'.distinct_keys;
        typed = s'.typed;
        owned = s'.owned;
        one_per_place = s'.one_per_place;
      })

  -- A session that reaches the commit leaves the tables well-formed.
  pub update_session-IsSound :
      (flag_key : String) (db : Database) {db' : Database} {flag' : Flag}
      {flag_changes : List FlagChange}
      → IsSound db
      → update_session services payload api_key flag_key now db ≡ ok (db', flag', flag_changes)
      → IsSound db'
  update_session-IsSound flag_key db {flag_changes = changes} s e =
      let steps = update_session-steps services payload api_key now flag_key db e in
      let (place, t, k) = find_flag-In api_key.tenant_id flag_key db steps.found in
      let w = write_flag-Written api_key now steps.flag changes db steps.typed place s in
      ConfigStep-IsSound
        (subst (λ (f : Flag). In f (write_flag api_key now steps.flag changes db).0.flags)
          (sym steps.written) w.place)
        w.sound steps.config_step
