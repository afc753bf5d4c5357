-- ===== src/Routers/Tenants.antt =====
-- `create_tenant` (thinking-feature-flag-service/app/routers/tenants.py). The ids and the token are
-- given.
pub mod Registered
use thinking_feature_flag_se.Common.{
  String, Bool, ◌||◌, [], ◌∷◌, ◌++◌, any, ◌==◌, nat_eq, string_eq, if◌then◌else◌,
}
use thinking_feature_flag_se.Evaluation.{Platform}
use thinking_feature_flag_se.Models.{Uuid, Instant, Tenant, ApiKey, Database}
use thinking_feature_flag_se.Schemas.{TenantCreate}
use thinking_feature_flag_se.Outcome.{Outcome, ok, raised, unhandled}
use thinking_feature_flag_se.Security.{generate_api_key, hash_api_key, has_hash}

pub record TenantCreated : Type 0 where
  pub id : Uuid
  pub name : String
  pub created_at : Instant
  pub api_key : String

abbrev pub new_tenant : TenantCreate → Uuid → Instant → Tenant
new_tenant payload id now = record {
  id = id;
  name = payload.name;
  created_at = now;
  updated_at = now;
}

abbrev pub new_key : Uuid → Uuid → String → Instant → ApiKey
new_key id tenant_id key_hash now = record {
  id = id;
  tenant_id = tenant_id;
  key_hash = key_hash;
  name = "default";
  created_at = now;
}

-- The primary keys, and the unique hash. A violation is an `IntegrityError`, which nothing catches.
abbrev pub tenant_conflicts : Uuid → ApiKey → Database → Bool
tenant_conflicts tenant_id key db =
    any (λ (t : Tenant). t.id == tenant_id) db.tenants
    || any (λ (k : ApiKey). k.id == key.id) db.api_keys
    || any (has_hash key.key_hash) db.api_keys

unfoldable pub create_tenant :
    Platform
    → TenantCreate
    → Uuid
    → Uuid
    → String
    → Instant
    → Database
    → Outcome TenantCreated × Database
unfolding hash_api_key
create_tenant platform payload tenant_id key_id token now db =
    let raw_key = generate_api_key token in
    let tenant = new_tenant payload tenant_id now in
    let key = new_key key_id tenant_id (hash_api_key platform raw_key) now in
    if tenant_conflicts tenant_id key db then (raised unhandled, db) else (
      ok (record { id = tenant_id; name = payload.name; created_at = now; api_key = raw_key }),
      record db { tenants = db.tenants ++ tenant ∷ []; api_keys = db.api_keys ++ key ∷ [] },
    )
