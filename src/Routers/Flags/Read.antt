-- ===== src/Routers/Flags/Read.antt =====
-- `list_flags` and `flag_history` (app/routers/flags.py).
pub mod Listings
pub mod Pages
use thinking_feature_flag_se.Common.{
  ℕ, String, Bool, true, not, ◌&&◌, ◌||◌, Option, none, some, List, [], ◌∷◌, map, ltb, ◌==◌, nat_eq,
  if◌then◌else◌, select, take, order_by,
}
use thinking_feature_flag_se.Values.{Environment, environment_eq}
use thinking_feature_flag_se.Models.{
  Uuid, Instant, ApiKey, Flag, AuditAction, AuditValue, FlagAuditLog, Database,
}
use thinking_feature_flag_se.Outcome.{Outcome, ok, ◌>>=◌}
use thinking_feature_flag_se.Services.{Services}
use thinking_feature_flag_se.Routers.Evaluate.{is_active}
use thinking_feature_flag_se.Routers.Flags.Responses.{FlagResponse, response_of, get_flag_or_404}

-- `Literal["active", "archived", "all"]`
pub data StatusFilter : Type 0 where
  active archived every : StatusFilter

-- `stmt.where(…)`
abbrev pub passes : StatusFilter → Flag → Bool
passes active f = is_active f
passes archived f = not (is_active f)
passes every f = true

abbrev pub narrow : Option Environment → FlagResponse → FlagResponse
narrow none response = response
narrow (some environment) response = record response {
  configs = select (λ c. c.environment == environment) response.configs;
}

unfoldable pub list_flags :
    Services → ApiKey → Option Environment → StatusFilter → Database → List FlagResponse
unfolding order_by response_of
list_flags services api_key environment status_filter db =
    map (λ flag. narrow environment (response_of db flag))
      (order_by (λ (f g : Flag). services.collates f.key g.key)
        (select (λ f. f.tenant_id == api_key.tenant_id && passes status_filter f) db.flags))

-- `ORDER BY created_at DESC, id DESC`
abbrev pub newer : FlagAuditLog → FlagAuditLog → Bool
newer a b = ltb b.created_at a.created_at || (a.created_at == b.created_at && ltb b.id a.id)

abbrev pub is_history_of : Uuid → Uuid → FlagAuditLog → Bool
is_history_of tenant_id flag_id row = row.tenant_id == tenant_id && row.flag_id == flag_id

-- What a client sees of a record: not its tenant, and not its flag.
pub record AuditEntry : Type 0 where
  pub id : ℕ
  pub action : AuditAction
  pub environment : Option Environment
  pub old_value : Option AuditValue
  pub new_value : Option AuditValue
  pub actor_key_id : Uuid
  pub created_at : Instant

-- `AuditEntry.model_validate(row)`
abbrev pub audit_entry : FlagAuditLog → AuditEntry
audit_entry row = record {
  id = row.id;
  action = row.action;
  environment = row.environment;
  old_value = row.old_value;
  new_value = row.new_value;
  actor_key_id = row.actor_key_id;
  created_at = row.created_at;
}

unfoldable pub flag_history : ApiKey → String → ℕ → Database → Outcome (List AuditEntry)
unfolding order_by get_flag_or_404
flag_history api_key flag_key limit db = do
  flag ← get_flag_or_404 db api_key.tenant_id flag_key
  let rows = order_by newer (select (is_history_of api_key.tenant_id flag.id) db.audit_log)
  ok (map audit_entry (take limit rows))
