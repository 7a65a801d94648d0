-- ===== src/Ledger/Types.antt =====
-- The rows, parameters and errors of CreditLedgerFacet.ts, and the tables that it writes
-- (prisma/schema.prisma: CreditLedgerEntry, AdminAuditLog), with the ids of Tenant and PurchaseOrder.
use qc_backend.Base.{ℕ, String, List, Option, ℤ, Bool, true, false}

pub data EntryType : Type 0 where
  purchased granted adjusted reserved consumed released refunded revoked expired : EntryType

abbrev pub same_type : EntryType → EntryType → Bool
same_type purchased purchased = true
same_type granted granted = true
same_type adjusted adjusted = true
same_type reserved reserved = true
same_type consumed consumed = true
same_type released released = true
same_type refunded refunded = true
same_type revoked revoked = true
same_type expired expired = true
same_type _ _ = false

-- A JavaScript number: an integer, a fraction with its floor, or NaN or an infinity.
pub data Number : Type 0 where
  integer : ℤ → Number
  fraction : ℤ → Number
  not_finite : Number

-- The codes of CreditLedgerError and AdminAuthorizationError, and what the database refuses:
-- a repeated unique key, a number outside its column's range, a reference to a row that is not there,
-- a negative `skip`.
pub data Error : Type 0 where
  insufficient_credits insufficient_reserved_credits : Error
  invalid_amount idempotency_key_required : Error
  admin_actor_required platform_admin_required tenant_scope_forbidden : Error
  admin_reason_required tenant_not_found : Error
  unique_constraint out_of_range foreign_key negative_skip : Error

pub data Role : Type 0 where
  platform_admin tenant_admin operator member viewer : Role

-- `AdminActorContext` of src/types/index.ts.
pub record Actor : Type 0 where
  pub actor_user_id : String
  pub actor_tenant_id : String
  pub tenant_id : Option String
  pub role : Role
  pub reason : Option String
  pub correlation_id : Option String

-- The columns of a ledger entry that the code writes. JSON stays text.
pub record Draft : Type 0 where
  pub tenant_id : String
  pub user_id : Option String
  pub purchase_order_id : Option String
  pub entry_type : EntryType
  pub amount : ℤ
  pub available_delta : ℤ
  pub reserved_delta : ℤ
  pub reference_type : Option String
  pub reference_id : Option String
  pub idempotency_key : Option String
  pub actor_user_id : Option String
  pub reason : Option String
  pub metadata : Option String

pub record Entry : Type 0 where
  pub id : ℕ
  pub draft : Draft
  pub open draft use *

-- Parameters of the operational calls.
pub record Operational : Type 0 where
  pub tenant_id : String
  pub user_id : Option String
  pub amount : Number
  pub idempotency_key : String
  pub reference_type : Option String
  pub reference_id : Option String
  pub reason : Option String
  pub metadata : Option String
  pub purchase_order_id : Option String

-- Parameters of the administrative calls; `quantity` is the `amount` of a grant or a
-- revocation, and the `delta` of an adjustment.
pub record Mutation : Type 0 where
  pub user_id : Option String
  pub quantity : Number
  pub reason : Option String
  pub idempotency_key : Option String
  pub reference_type : Option String
  pub reference_id : Option String
  pub metadata : Option String
  pub ip_address : Option String
  pub user_agent : Option String

pub data AdminAction : Type 0 where
  credit_granted credit_adjusted credit_revoked : AdminAction

-- A row of the admin audit log, with the metadata that the ledger puts there.
pub record AuditRecord : Type 0 where
  pub tenant_id : String
  pub actor_user_id : String
  pub actor_tenant_id : String
  pub action : AdminAction
  pub resource_type : String
  pub resource_id : ℕ
  pub reason : Option String
  pub correlation_id : Option String
  pub amount : ℤ
  pub available_delta : ℤ
  pub reserved_delta : ℤ
  pub entry_type : EntryType
  pub user_id : Option String
  pub reference_type : Option String
  pub reference_id : Option String
  pub facet : String
  pub ip_address : Option String
  pub user_agent : Option String

-- The tables, newest row first. The database's fresh ids are numbers that count up.
pub record Store : Type 0 where
  pub tenants : List String
  pub purchase_orders : List String
  pub entries : List Entry
  pub audit : List AuditRecord
  pub next_id : ℕ

-- `getBalanceProjection`'s result.
pub record Balance : Type 0 where
  pub tenant_id : String
  pub user_id : Option String
  pub available : ℤ
  pub reserved : ℤ
  pub total : ℤ
  pub purchased : ℤ
  pub granted : ℤ
  pub adjusted : ℤ
  pub consumed : ℤ
  pub revoked : ℤ
  pub entry_count : ℕ
