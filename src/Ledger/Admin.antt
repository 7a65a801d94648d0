-- ===== src/Ledger/Admin.antt =====
-- The administrative calls of CreditLedgerFacet.ts, with the audit row that each writes, and
-- the two reads.
use qc_backend.Base.{
  from_result, ℕ, String, List, ◌∷◌, Option, some, none, ℤ, pos, neg, abs, ◌+ℤ◌, ltb_ℤ, Bool, true,
  ◌&&◌, ◌*◌, ◌-◌, ◌+◌, ◌/◌, select, length, take, drop, pure, raise, raise_if, gets, modify,
  transaction, ◌>>=◌, ◌>>◌,
}
use qc_backend.Ledger.Types.{
  EntryType, same_type, Mutation, Actor, AdminAction, credit_granted, credit_adjusted,
  credit_revoked, AuditRecord, Draft, Entry, Store, Balance, Number, insufficient_credits,
  negative_skip,
}
use qc_backend.Ledger.Guards.{
  Call, normalize_positive_amount, normalize_non_zero_delta, normalize_page, normalize_limit,
  ensure_platform_actor, ensure_tenant_reader_actor, ensure_tenant_exists, or_else, require_reason,
}
use qc_backend.Ledger.Table.{create_ledger_entry, in_scope}
use qc_backend.Ledger.Operations.{unless_existing, find_existing, read_balance}

-- What `writeAdminLedgerEntry` is told to write: the entry's type, its amount and deltas, and
-- the action of the audit row.
pub record Change : Type 0 where
  pub entry_type : EntryType
  pub amount : ℤ
  pub available_delta : ℤ
  pub reserved_delta : ℤ
  pub action : AdminAction

abbrev pub admin_draft : Actor → String → Mutation → String → Change → Draft
admin_draft actor tenant p reason c = record {
  tenant_id = tenant;
  user_id = p.user_id;
  purchase_order_id = none;
  entry_type = c.entry_type;
  amount = c.amount;
  available_delta = c.available_delta;
  reserved_delta = c.reserved_delta;
  reference_type = p.reference_type;
  reference_id = p.reference_id;
  idempotency_key = p.idempotency_key;
  actor_user_id = some actor.actor_user_id;
  reason = some reason;
  metadata = p.metadata;
}

abbrev pub audit_of : Actor → String → Mutation → String → Change → ℕ → AuditRecord
audit_of actor tenant p reason c id = record {
  tenant_id = tenant;
  actor_user_id = actor.actor_user_id;
  actor_tenant_id = actor.actor_tenant_id;
  action = c.action;
  resource_type = "CreditLedgerEntry";
  resource_id = id;
  reason = some reason;
  correlation_id = actor.correlation_id;
  amount = c.amount;
  available_delta = c.available_delta;
  reserved_delta = c.reserved_delta;
  entry_type = c.entry_type;
  user_id = p.user_id;
  reference_type = p.reference_type;
  reference_id = p.reference_id;
  facet = "CreditLedgerFacet";
  ip_address = p.ip_address;
  user_agent = p.user_agent;
}

abbrev pub with_audit : AuditRecord → Store → Store
with_audit a s = record s { audit = a ∷ s.audit }

unfoldable pub write_in_transaction : Actor → String → Mutation → String → Change → Call Entry
write_in_transaction actor tenant p reason c = do
  existing ← find_existing tenant p.idempotency_key
  unless_existing existing do
    entry ← create_ledger_entry (admin_draft actor tenant p reason c)
    modify (with_audit (audit_of actor tenant p reason c entry.id))
    pure entry

unfoldable pub write_admin_ledger_entry : Actor → String → Mutation → String → Change → Call Entry
write_admin_ledger_entry actor tenant p reason c =
    transaction (write_in_transaction actor tenant p reason c)

abbrev pub grant_change : ℤ → Change
grant_change n = record {
  entry_type = EntryType.granted;
  amount = n;
  available_delta = n;
  reserved_delta = pos 0;
  action = credit_granted;
}

unfoldable pub grant_credits : Actor → String → Mutation → Call Entry
grant_credits actor tenant p = do
  from_result (ensure_platform_actor actor)
  reason ← from_result (require_reason (or_else p.reason actor.reason))
  n ← from_result (normalize_positive_amount p.quantity)
  ensure_tenant_exists tenant
  write_admin_ledger_entry actor tenant p reason (grant_change n)

abbrev pub adjust_change : ℤ → Change
adjust_change delta = record {
  entry_type = EntryType.adjusted;
  amount = abs delta;
  available_delta = delta;
  reserved_delta = pos 0;
  action = credit_adjusted;
}

unfoldable pub adjust_credits : Actor → String → Mutation → Call Entry
adjust_credits actor tenant p = do
  from_result (ensure_platform_actor actor)
  reason ← from_result (require_reason (or_else p.reason actor.reason))
  delta ← from_result (normalize_non_zero_delta p.quantity)
  ensure_tenant_exists tenant
  balance ← read_balance tenant p.user_id
  raise_if (ltb_ℤ delta (pos 0) && ltb_ℤ (balance.available +ℤ delta) (pos 0)) insufficient_credits
  write_admin_ledger_entry actor tenant p reason (adjust_change delta)

abbrev pub revoke_change : ℤ → Change
revoke_change n = record {
  entry_type = EntryType.revoked;
  amount = n;
  available_delta = neg n;
  reserved_delta = pos 0;
  action = credit_revoked;
}

unfoldable pub revoke_credits : Actor → String → Mutation → Call Entry
revoke_credits actor tenant p = do
  from_result (ensure_platform_actor actor)
  reason ← from_result (require_reason (or_else p.reason actor.reason))
  n ← from_result (normalize_positive_amount p.quantity)
  ensure_tenant_exists tenant
  balance ← read_balance tenant p.user_id
  raise_if (ltb_ℤ balance.available n) insufficient_credits
  write_admin_ledger_entry actor tenant p reason (revoke_change n)

unfoldable pub get_balance : Actor → String → Option String → Call Balance
get_balance actor tenant user = do
  from_result (ensure_tenant_reader_actor actor tenant)
  ensure_tenant_exists tenant
  read_balance tenant user

abbrev pub type_fits : Option EntryType → Entry → Bool
type_fits none e = true
type_fits (some t) e = same_type t e.entry_type

-- `buildLedgerWhere`
abbrev pub build_ledger_where : String → Option String → Option EntryType → Entry → Bool
build_ledger_where tenant user type e = in_scope tenant user e && type_fits type e

pub record Page : Type 0 where
  pub entries : List Entry
  pub page : ℤ
  pub limit : ℕ
  pub total : ℕ
  pub total_pages : ℕ

-- The page's number when it is at least 1; a negative `skip` is refused.
abbrev pub skip_for : ℤ → ℕ → Call ℕ
skip_for (pos (ℕ.suc k)) limit = pure (k * limit)
skip_for _ limit = raise negative_skip

unfoldable pub list_entries :
    Actor → String → Option String → Option EntryType → Option Number → Option Number → Call Page
list_entries actor tenant user type page limit = do
  from_result (ensure_tenant_reader_actor actor tenant)
  ensure_tenant_exists tenant
  let n = normalize_limit limit
  skip ← skip_for (normalize_page page) n
  found ← gets (λ s. select (build_ledger_where tenant user type) s.entries)
  pure (record {
    entries = take n (drop skip found);
    page = normalize_page page;
    limit = n;
    total = length found;
    total_pages = (length found + n - 1) / n;
  })
