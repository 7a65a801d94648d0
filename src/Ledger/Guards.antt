-- ===== src/Ledger/Guards.antt =====
-- The guards of CreditLedgerFacet.ts, and `requireReason` of AdminAuthorizationFacet.ts.
use qc_backend.Base.{
  Result, ok, err, ℕ, String, Option, some, none, ℤ, pos, Bool, true, false, not, ◌&&◌, ◌==◌,
  if◌then◌else◌, ltb_ℤ, leb_ℤ, min, is_empty, trim, truthy, any, is_some_of, pos_part, Action,
  raise_if, gets, ◌>>=◌, string_has_eq,
}
use qc_backend.Ledger.Types.{
  Number, integer, fraction, Error, invalid_amount, idempotency_key_required, admin_actor_required,
  platform_admin_required, tenant_scope_forbidden, admin_reason_required, tenant_not_found, Role,
  platform_admin, tenant_admin, Actor, Store,
}

-- Every call of the ledger is an action on the tables.
abbrev pub Call : Type 0 → Type 0
Call A = Action Store Error A

unfoldable pub normalize_positive_amount : Number → Result Error ℤ
normalize_positive_amount (integer n) = if leb_ℤ n (pos 0) then err invalid_amount else ok n
normalize_positive_amount _ = err invalid_amount

unfoldable pub normalize_non_zero_delta : Number → Result Error ℤ
normalize_non_zero_delta (integer (pos ℕ.zero)) = err invalid_amount
normalize_non_zero_delta (integer n) = ok n
normalize_non_zero_delta _ = err invalid_amount

unfoldable pub validate_idempotency_key : String → Result Error (Unit {0})
validate_idempotency_key key = if is_empty (trim key) then err idempotency_key_required else ok tt

-- `Number.isFinite(value) && value && value > 0 ? Math.floor(value) : 1`
unfoldable pub normalize_page : Option Number → ℤ
normalize_page (some (integer n)) = if ltb_ℤ (pos 0) n then n else pos 1
normalize_page (some (fraction n)) = if leb_ℤ (pos 0) n then n else pos 1
normalize_page _ = pos 1

unfoldable pub normalize_limit : Option Number → ℕ
normalize_limit (some (integer n)) = if ltb_ℤ n (pos 1) then 20 else min (pos_part n) 100
normalize_limit (some (fraction n)) = if ltb_ℤ n (pos 1) then 20 else min (pos_part n) 100
normalize_limit _ = 20

abbrev pub is_platform_admin : Role → Bool
is_platform_admin platform_admin = true
is_platform_admin _ = false

abbrev pub is_tenant_admin : Role → Bool
is_tenant_admin tenant_admin = true
is_tenant_admin _ = false

unfoldable pub ensure_platform_actor : Actor → Result Error (Unit {0})
ensure_platform_actor actor =
    if is_empty actor.actor_user_id
    then err admin_actor_required
    else if is_platform_admin actor.role
    then ok tt
    else err platform_admin_required

unfoldable pub ensure_tenant_reader_actor : Actor → String → Result Error (Unit {0})
ensure_tenant_reader_actor actor tenant =
    if is_empty actor.actor_user_id
    then err admin_actor_required
    else if is_platform_admin actor.role
    then ok tt
    else if is_tenant_admin actor.role
        && (is_some_of actor.tenant_id tenant && actor.actor_tenant_id == tenant)
    then ok tt
    else err tenant_scope_forbidden

unfoldable pub ensure_tenant_exists : String → Call (Unit {0})
ensure_tenant_exists tenant = do
  known ← gets (λ s. any (λ t. t == tenant) s.tenants)
  raise_if (not known) tenant_not_found

-- `a || b` on optional texts.
abbrev pub or_else : Option String → Option String → Option String
or_else a b = elim (truthy a) [ none ↦ b | some s ↦ some s ]

-- `AdminAuthorizationFacet.requireReason`
unfoldable pub require_reason : Option String → Result Error String
require_reason none = err admin_reason_required
require_reason (some s) = if is_empty (trim s) then err admin_reason_required else ok (trim s)
