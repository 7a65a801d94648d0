-- ===== src/Access/Roles.antt =====
-- `RBAC_HIERARCHY` and `hasPermission` of types/index.ts, with the guards of middleware/rbacGuard.ts
-- and middleware/apiKeyScopeGuard.ts.
use qc_backend.Base.{
  ℕ, String, List, Option, some, none, Bool, true, leb, ◌==◌, if◌then◌else◌, any, is_empty,
  string_has_eq,
}
use qc_backend.Access.Scopes.{ApiKeyRole, admin, operator, reader}

abbrev pub rbac_hierarchy : ApiKeyRole → ℕ
rbac_hierarchy admin = 3
rbac_hierarchy operator = 2
rbac_hierarchy reader = 1

unfoldable pub has_permission : ApiKeyRole → ApiKeyRole → Bool
has_permission user required = leb (rbac_hierarchy required) (rbac_hierarchy user)

-- What a guard does with a request: it passes it on, or it answers with this status.
pub data Verdict : Type 0 where
  next : Verdict
  answered : (status : ℕ) → Verdict

unfoldable pub require_role : ApiKeyRole → Option ApiKeyRole → Verdict
unfolding has_permission
require_role minimum none = answered 401
require_role minimum (some role) = if has_permission role minimum then next else answered 403

abbrev pub is_missing : Option String → Bool
is_missing none = true
is_missing (some s) = is_empty s

-- `requireApiKeyScope`: the scopes are the request's `apiKeyScopes`.
unfoldable pub require_api_key_scope : String → Option String → List String → Verdict
require_api_key_scope required api_key_id scopes =
    if is_missing api_key_id
    then answered 401
    else if any (λ s. s == required) scopes
    then next
    else answered 403
