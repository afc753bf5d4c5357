-- ===== src/Api/Replay.antt =====
-- The audit log read as a history (the records of app/routers/flags.py): replaying the records of a
-- flag gives the flag as it is now.
pub mod Configs
use thinking_feature_flag_se.Common.{
  ℕ, ◌≡◌, ◌≢◌, refl, sym, ap, subst, ◌∙◌, String, Bool, true, false, Option, none, some, List, [],
  ◌∷◌, ◌++◌, ◌==◌, nat_eq, if◌then◌else◌, All, All-map, All-append, In, arith, Bool-cases, inl, inr,
  eq_self, eq_of_test, ne_of_test,
}
use thinking_feature_flag_se.Values.{FlagValue, flag_type_value}
use thinking_feature_flag_se.Models.{
  Uuid, Instant, ApiKey, Flag, Database, FlagAuditLog, FlagChange, ConfigChange, AuditValue,
  set_name, set_description, set_default_value, definition, flag_fields, config_fields,
  archive_mark, add_audit,
}
use thinking_feature_flag_se.Routers.Flags.Changes.{assign_flag, assign_flag_all}
use thinking_feature_flag_se.Routers.Flags.Update.{changed_flag}

-- What the log tells of a flag. The record of a creation leaves the description out.
pub record Told : Type 0 where
  pub name : String
  pub default_value : FlagValue
  pub archived_at : Option Instant

abbrev pub told_of : Flag → Told
told_of flag = record {
  name = flag.name;
  default_value = flag.default_value;
  archived_at = flag.archived_at;
}

unfoldable tell_change : Told → FlagChange → Told
tell_change told (set_name name) = record told { name = name }
tell_change told (set_description description) = told
tell_change told (set_default_value v) = record told { default_value = v }

unfoldable tell_changes : List FlagChange → Told → Told
unfolding tell_change
tell_changes [] told = told
tell_changes (change ∷ changes) told = tell_changes changes (tell_change told change)

-- The state after a record, from its `new_value`.
unfoldable pub tell : Option AuditValue → Option Told → Option Told
unfolding tell_changes
tell (some (definition key name type default_value)) told =
    some (record { name = name; default_value = default_value; archived_at = none })
tell (some (flag_fields changes)) (some told) = some (tell_changes changes told)
tell (some (archive_mark archived_at)) (some told) =
    some (record told { archived_at = archived_at })
tell _ told = told

abbrev pub tell_flag : FlagAuditLog → Option Told → Option Told
tell_flag entry = tell entry.new_value

module _ {T : Type 0} (teller : FlagAuditLog → Option T → Option T) where
  -- The records of a flag, from the oldest on.
  unfoldable pub replay : Uuid → Option T → List FlagAuditLog → Option T
  replay flag_id told [] = told
  replay flag_id told (entry ∷ log) =
      replay flag_id (if entry.flag_id == flag_id then teller entry told else told) log

  replay-append :
      (flag_id : Uuid) (told : Option T) (log : List FlagAuditLog) (entry : FlagAuditLog)
      → replay flag_id told (log ++ entry ∷ []) ≡ (
          if entry.flag_id == flag_id
          then teller entry (replay flag_id told log)
          else replay flag_id told log)
  unfolding replay
  replay-append flag_id told [] entry = refl
  replay-append flag_id told (e ∷ log) entry =
      replay-append flag_id (if e.flag_id == flag_id then teller e told else told) log entry

  -- A record about another flag tells nothing of this one.
  pub replay_other :
      (flag_id : Uuid) (log : List FlagAuditLog) (entry : FlagAuditLog)
      → entry.flag_id ≢ flag_id
      → replay flag_id none (log ++ entry ∷ []) ≡ replay flag_id none log
  replay_other flag_id log entry apart =
      replay-append flag_id none log entry ∙ (elim (Bool-cases (entry.flag_id == flag_id)) [
        | inl same ↦ absurd (apart (eq_of_test entry.flag_id flag_id same))
        | inr other ↦ rw other refl
      ])

  pub replay_own :
      (flag_id : Uuid) (log : List FlagAuditLog) (entry : FlagAuditLog)
      → entry.flag_id ≡ flag_id
      → replay flag_id none (log ++ entry ∷ []) ≡ teller entry (replay flag_id none log)
  replay_own flag_id log entry same =
      replay-append flag_id none log entry ∙ rw same (rw (eq_self flag_id) refl)

  -- A record of which the teller makes nothing.
  pub replay_silent :
      (flag_id : Uuid) (log : List FlagAuditLog) (entry : FlagAuditLog)
      → ((told : Option T) → teller entry told ≡ told)
      → replay flag_id none (log ++ entry ∷ []) ≡ replay flag_id none log
  replay_silent flag_id log entry silent = elim (Bool-cases (entry.flag_id == flag_id)) [
    | inr other ↦ replay_other flag_id log entry (ne_of_test entry.flag_id flag_id other)
    | inl own ↦
        replay_own flag_id log entry (eq_of_test entry.flag_id flag_id own)
        ∙ silent (replay flag_id none log)
  ]

told_of-assign_flag_all :
    (flag : Flag) (changes : List FlagChange)
    → told_of (assign_flag_all flag changes) ≡ tell_changes changes (told_of flag)
unfolding assign_flag_all assign_flag tell_changes
told_of-assign_flag_all flag [] = refl
told_of-assign_flag_all flag (set_name n ∷ changes) =
    told_of-assign_flag_all (assign_flag flag (set_name n)) changes
told_of-assign_flag_all flag (set_description d ∷ changes) =
    told_of-assign_flag_all (assign_flag flag (set_description d)) changes
told_of-assign_flag_all flag (set_default_value v ∷ changes) =
    told_of-assign_flag_all (assign_flag flag (set_default_value v)) changes

pub told_of-changed_flag :
    (flag : Flag) (changes : List FlagChange) (now : Instant)
    → tell (some (flag_fields changes)) (some (told_of flag))
      ≡ some (told_of (changed_flag flag changes now))
unfolding tell
told_of-changed_flag flag changes now = ap some (sym (told_of-assign_flag_all flag changes))
