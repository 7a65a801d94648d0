-- ===== src/Ledger/Operations.antt =====
-- The operational calls of CreditLedgerFacet.ts. Each runs in one transaction.
use qc_backend.Base.{
  from_result, String, Option, some, none, ℤ, pos, neg, ltb_ℤ, pure, raise_if, gets, transaction,
  ◌>>=◌, ◌>>◌,
}
use qc_backend.Ledger.Types.{
  EntryType, Operational, Draft, Entry, Balance, insufficient_credits,
  insufficient_reserved_credits,
}
use qc_backend.Ledger.Guards.{Call, normalize_positive_amount, validate_idempotency_key}
use qc_backend.Ledger.Table.{create_ledger_entry, find_idempotent_entry, get_balance_projection}

-- `{ ...params, amount, entryType, availableDelta, reservedDelta }`
abbrev pub draft_of : Operational → ℤ → EntryType → ℤ → ℤ → Draft
draft_of p n type available reserved = record {
  tenant_id = p.tenant_id;
  user_id = p.user_id;
  purchase_order_id = p.purchase_order_id;
  entry_type = type;
  amount = n;
  available_delta = available;
  reserved_delta = reserved;
  reference_type = p.reference_type;
  reference_id = p.reference_id;
  idempotency_key = some p.idempotency_key;
  actor_user_id = none;
  reason = p.reason;
  metadata = p.metadata;
}

-- `if (existing) return existing;` before the rest of a call.
abbrev pub unless_existing : Option Entry → Call Entry → Call Entry
unless_existing (some e) rest = pure e
unless_existing none rest = rest

abbrev pub find_existing : String → Option String → Call (Option Entry)
find_existing tenant key = gets (λ s. find_idempotent_entry tenant key s.entries)

abbrev pub read_balance : String → Option String → Call Balance
read_balance tenant user = gets (λ s. get_balance_projection tenant user s.entries)

unfoldable pub reserve_in_transaction : Operational → ℤ → Call Entry
reserve_in_transaction p n = do
  existing ← find_existing p.tenant_id (some p.idempotency_key)
  unless_existing existing do
    balance ← read_balance p.tenant_id p.user_id
    raise_if (ltb_ℤ balance.available n) insufficient_credits
    create_ledger_entry (draft_of p n EntryType.reserved (neg n) n)

unfoldable pub reserve_credits : Operational → Call Entry
reserve_credits p = do
  n ← from_result (normalize_positive_amount p.amount)
  from_result (validate_idempotency_key p.idempotency_key)
  transaction (reserve_in_transaction p n)

unfoldable pub consume_in_transaction : Operational → ℤ → Call Entry
consume_in_transaction p n = do
  existing ← find_existing p.tenant_id (some p.idempotency_key)
  unless_existing existing do
    balance ← read_balance p.tenant_id p.user_id
    raise_if (ltb_ℤ balance.reserved n) insufficient_reserved_credits
    create_ledger_entry (draft_of p n EntryType.consumed (pos 0) (neg n))

unfoldable pub consume_reserved_credits : Operational → Call Entry
consume_reserved_credits p = do
  n ← from_result (normalize_positive_amount p.amount)
  from_result (validate_idempotency_key p.idempotency_key)
  transaction (consume_in_transaction p n)

unfoldable pub release_in_transaction : Operational → ℤ → Call Entry
release_in_transaction p n = do
  existing ← find_existing p.tenant_id (some p.idempotency_key)
  unless_existing existing do
    balance ← read_balance p.tenant_id p.user_id
    raise_if (ltb_ℤ balance.reserved n) insufficient_reserved_credits
    create_ledger_entry (draft_of p n EntryType.released n (neg n))

unfoldable pub release_reserved_credits : Operational → Call Entry
release_reserved_credits p = do
  n ← from_result (normalize_positive_amount p.amount)
  from_result (validate_idempotency_key p.idempotency_key)
  transaction (release_in_transaction p n)

-- It runs in the transaction of its caller.
unfoldable pub record_purchased_credits : Operational → Call Entry
record_purchased_credits p = do
  n ← from_result (normalize_positive_amount p.amount)
  from_result (validate_idempotency_key p.idempotency_key)
  existing ← find_existing p.tenant_id (some p.idempotency_key)
  unless_existing existing (create_ledger_entry (draft_of p n EntryType.purchased n (pos 0)))
