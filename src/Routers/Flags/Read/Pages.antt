-- ===== src/Routers/Flags/Read/Pages.antt =====
-- Which rows `flag_history` returns, and in which order (app/routers/flags.py).
use thinking_feature_flag_se.Common.{
  ℕ, ◌≡◌, ◌≤◌, ◌⊎◌, refl, sym, subst, String, true, false, not, List, [], ◌++◌, map, select, take,
  length, length-take_le, arith, order_by, IsListing, order_by-IsListing, take-rest, nat_eq,
}
use thinking_feature_flag_se.Models.{Uuid, ApiKey, Flag, FlagAuditLog, Database}
use thinking_feature_flag_se.Outcome.{ok}
use thinking_feature_flag_se.Routers.Flags.Responses.{get_flag_or_404}
use thinking_feature_flag_se.Routers.Flags.Read.{newer, is_history_of, flag_history, AuditEntry}

-- A row that may stand before another in a history: later, or not smaller in its id if both are of one
-- instant.
abbrev pub NotOlder : FlagAuditLog → FlagAuditLog → Type 0
NotOlder a b = (b.created_at ≤ a.created_at) × (b.created_at ≡ a.created_at → b.id ≤ a.id)

newer-NotOlder : (a b : FlagAuditLog) → newer a b ≡ true → NotOlder a b
newer-NotOlder a b h = (ground arith, λ e. ground arith)

older-NotOlder : (a b : FlagAuditLog) → newer a b ≡ false → NotOlder b a
older-NotOlder a b h = (ground arith, λ e. ground arith)

NotOlder-trans : (a b c : FlagAuditLog) → NotOlder a b → NotOlder b c → NotOlder a c
NotOlder-trans a b c (h, tie) (h', tie') = (
  omega arith,
  λ e.
      let ab : b.created_at ≡ a.created_at = omega arith in
      let bc : c.created_at ≡ b.created_at = omega arith in
      let first = tie ab in let second = tie' bc in omega arith,
)

-- A row of the audit log about a flag of a tenant.
abbrev pub IsAbout : Uuid → Uuid → FlagAuditLog → Type 0
IsAbout tenant_id flag_id row = (row.tenant_id ≡ tenant_id) × (row.flag_id ≡ flag_id)

-- The rows of a page: the first `limit` of all the rows of the log about the flag, the newest first.
pub record IsPage (limit : ℕ) (tenant_id flag_id : Uuid) (log rows : List FlagAuditLog)
    : Type 0 where
  pub older : List FlagAuditLog
  pub whole : IsListing (IsAbout tenant_id flag_id) NotOlder (rows ++ older) log
  pub bounded : length rows ≤ limit
  pub filled : (older ≡ []) ⊎ (length rows ≡ limit)

is_history_of-IsAbout :
    (tenant_id flag_id : Uuid) (row : FlagAuditLog)
    → is_history_of tenant_id flag_id row ≡ true
    → IsAbout tenant_id flag_id row
is_history_of-IsAbout tenant_id flag_id row h = (ground arith, ground arith)

is_history_of-other :
    (tenant_id flag_id : Uuid) (row : FlagAuditLog)
    → not (is_history_of tenant_id flag_id row) ≡ true
    → ¬ IsAbout tenant_id flag_id row
is_history_of-other tenant_id flag_id row h (owned, about) = ground arith

-- What a history says of a row: all its fields but the tenant and the flag.
abbrev pub shown_row : FlagAuditLog → AuditEntry
shown_row row = record {
  id = row.id;
  action = row.action;
  environment = row.environment;
  old_value = row.old_value;
  new_value = row.new_value;
  actor_key_id = row.actor_key_id;
  created_at = row.created_at;
}

-- The history of a flag that exists shows a page of the audit log, each row with
-- its fields: its rows and all that it leaves out
-- as older are the rows of the log with the tenant's id and the flag's id, none of them lost or
-- doubled, with no row before a newer one; it has at most `limit` rows, and leaves out none unless it
-- has that many.
pub flag_history-IsPage :
    (api_key : ApiKey) (flag_key : String) (limit : ℕ) (db : Database) (flag : Flag)
    → get_flag_or_404 db api_key.tenant_id flag_key ≡ ok flag
    → (rows : List FlagAuditLog) × (flag_history api_key flag_key limit db
        ≡ ok (map shown_row rows))
      × IsPage limit api_key.tenant_id flag.id db.audit_log rows
unfolding flag_history
flag_history-IsPage api_key flag_key limit db flag found =
    let t = api_key.tenant_id in
    let ordered = order_by newer (select (is_history_of t flag.id) db.audit_log) in
    let (older, whole, full) = take-rest limit ordered in
    (
      take limit ordered,
      rw found refl,
      record {
        older = older;
        whole =
            subst (λ l. IsListing (IsAbout t flag.id) NotOlder l db.audit_log) (sym whole)
              (order_by-IsListing newer NotOlder newer-NotOlder older-NotOlder NotOlder-trans
                (is_history_of t flag.id) (IsAbout t flag.id) (is_history_of-IsAbout t flag.id)
                (is_history_of-other t flag.id) db.audit_log);
        bounded = length-take_le limit ordered;
        filled = full;
      },
    )
