-- ===== src/Qtag/Guards.antt =====
-- The guards of QTagFulfillmentFacet.ts.
use qc_backend.Base.{
  Result, ok, err, ℕ, String, Option, some, none, ℤ, pos, not, ◌&&◌, ◌==◌, if◌then◌else◌, ltb_ℤ,
  leb_ℤ, min, is_empty, trim, truthy, any, is_some_of, pos_part, raise_if, gets, ◌>>=◌,
  string_has_eq,
}
use qc_backend.Ledger.Types.{Number, integer, fraction, Actor}
use qc_backend.Ledger.Guards.{is_platform_admin, is_tenant_admin}
use qc_backend.Qtag.Types.{
  Fault, admin_actor_required, platform_admin_required, tenant_scope_forbidden,
  admin_reason_required, tenant_not_found, invalid_quantity, idempotency_key_required, World, Call,
}

unfoldable pub normalize_positive_quantity : Number → Result Fault ℤ
normalize_positive_quantity (integer n) = if leb_ℤ n (pos 0) then err invalid_quantity else ok n
normalize_positive_quantity _ = err invalid_quantity

unfoldable pub validate_key : String → Result Fault (Unit {0})
validate_key key = if is_empty (trim key) then err idempotency_key_required else ok tt

unfoldable pub normalize_queue_page : Option Number → ℤ
normalize_queue_page (some (integer n)) = if ltb_ℤ (pos 0) n then n else pos 1
normalize_queue_page (some (fraction n)) = if leb_ℤ (pos 0) n then n else pos 1
normalize_queue_page _ = pos 1

unfoldable pub normalize_queue_limit : Option Number → ℕ
normalize_queue_limit (some (integer n)) = if ltb_ℤ n (pos 1) then 20 else min (pos_part n) 100
normalize_queue_limit (some (fraction n)) = if ltb_ℤ n (pos 1) then 20 else min (pos_part n) 100
normalize_queue_limit _ = 20

unfoldable pub ensure_platform : Actor → Result Fault (Unit {0})
ensure_platform actor =
    if is_empty actor.actor_user_id
    then err admin_actor_required
    else if is_platform_admin actor.role
    then ok tt
    else err platform_admin_required

unfoldable pub ensure_reader : Actor → String → Result Fault (Unit {0})
ensure_reader actor tenant =
    if is_empty actor.actor_user_id
    then err admin_actor_required
    else if is_platform_admin actor.role
    then ok tt
    else if is_tenant_admin actor.role
        && (is_some_of actor.tenant_id tenant && actor.actor_tenant_id == tenant)
    then ok tt
    else err tenant_scope_forbidden

unfoldable pub ensure_tenant : String → Call (Unit {0})
ensure_tenant tenant = do
  known ← gets (λ (w : World). any (λ t. t == tenant) w.tenants)
  raise_if (not known) tenant_not_found

abbrev trimmed_reason : Option String → Result Fault String
trimmed_reason none = err admin_reason_required
trimmed_reason (some s) = if is_empty (trim s) then err admin_reason_required else ok (trim s)

abbrev first_of : Option String → Option String → Option String
first_of (some s) b = some s
first_of none b = b

-- `requireReason(params.reason || actor.reason)`
unfoldable pub reason_of : Option String → Actor → Result Fault String
reason_of reason actor = trimmed_reason (first_of (truthy reason) actor.reason)
