-- ===== src/Qtag/Types.antt =====
-- The rows and errors of QTagFulfillmentFacet.ts and CommissioningFacet.ts, with the tables that
-- they write (prisma/schema.prisma: QTagLedgerEntry, QTagFulfillmentOrder, EncodingSession).
use qc_backend.Base.{ℕ, String, List, Option, ℤ, Bool, true, false, Action}

-- `QTagLedgerEntryType`
pub data EntryType : Type 0 where
  purchased granted reserved consumed released refunded adjusted revoked : EntryType

abbrev pub same_type : EntryType → EntryType → Bool
same_type purchased purchased = true
same_type granted granted = true
same_type reserved reserved = true
same_type consumed consumed = true
same_type released released = true
same_type refunded refunded = true
same_type adjusted adjusted = true
same_type revoked revoked = true
same_type _ _ = false

-- `QTagFulfillmentStatus`
pub data OrderStatus : Type 0 where
  requested ready_for_encoding encoding_in_progress encoding_failed qa_pending qa_failed :
      OrderStatus
  dispatch_ready dispatched delivered activated cancelled expired : OrderStatus

-- `EncodingStatus`, as far as the facet writes it
pub data SessionStatus : Type 0 where
  in_progress completed failed : SessionStatus

-- The codes of QTagFulfillmentError and AdminAuthorizationError, the messages of CommissioningFacet,
-- and what the database refuses.
pub data Fault : Type 0 where
  admin_actor_required platform_admin_required tenant_scope_forbidden admin_reason_required : Fault
  tenant_not_found asset_not_found asset_already_tagged qtag_already_reserved : Fault
  insufficient_qtags insufficient_reserved_qtags fulfillment_order_not_found : Fault
  qtag_already_activated invalid_quantity idempotency_key_required : Fault
  invalid_ntag_uid order_not_ready session_not_found uid_mismatch incomplete_write : Fault
  signing_failed layout_failed unique_constraint record_not_found negative_skip : Fault
  out_of_range foreign_key : Fault

-- The columns of a ledger entry that the code writes. JSON stays text.
pub record Draft : Type 0 where
  pub tenant_id : String
  pub user_id : Option String
  pub purchase_order_id : Option String
  pub fulfillment_order_id : Option String
  pub entry_type : EntryType
  pub quantity : ℤ
  pub available_delta : ℤ
  pub reserved_delta : ℤ
  pub idempotency_key : Option String
  pub reference_type : Option String
  pub reference_id : Option String
  pub actor_user_id : Option String
  pub reason : Option String
  pub metadata : Option String

pub record Entry : Type 0 where
  pub id : String
  pub draft : Draft
  pub open draft use *

pub record Order : Type 0 where
  pub id : String
  pub tenant_id : String
  pub user_id : Option String
  pub asset_id : String
  pub status : OrderStatus
  pub sku : Option String
  pub shipping_recipient : Option String
  pub tracking_code : Option String
  pub carrier : Option String
  pub notes : Option String
  pub attempts : ℕ
  pub last_error : Option String
  pub claimed_by_actor_id : Option String
  pub dispatched_at : Option ℕ
  pub delivered_at : Option ℕ
  pub activated_at : Option ℕ
  pub cancelled_at : Option ℕ
  pub cancellation_reason : Option String

pub record Asset : Type 0 where
  pub id : String
  pub tenant_id : String
  pub device_id : Option String

pub record Session : Type 0 where
  pub id : String
  pub tenant_id : String
  pub asset_id : String
  pub fulfillment_order_id : Option String
  pub ntag_uid : String
  pub status : SessionStatus
  pub attempt_no : ℕ
  pub station_id : Option String
  pub operator_id : Option String
  pub layout_b64 : String
  pub sdm_mac_key_id : String
  pub sdm_enc_key_id : String
  pub locked_at : Option ℕ

pub record Device : Type 0 where
  pub id : String
  pub uid : String
  pub tenant_id : String
  pub sdm_mac_key_id : String
  pub sdm_enc_key_id : String
  pub is_active : Bool

pub data AuditAction : Type 0 where
  qtag_granted qtag_reserved qtag_released qtag_status_changed : AuditAction

pub record Audit : Type 0 where
  pub tenant_id : String
  pub actor_user_id : String
  pub actor_tenant_id : String
  pub action : AuditAction
  pub resource_id : String
  pub reason : String
  pub correlation_id : Option String
  pub ip_address : Option String
  pub user_agent : Option String

pub record Event : Type 0 where
  pub tenant_id : String
  pub asset_id : String
  pub falcon_hash : String
  pub ntag_uid : String
  pub dat : String
  pub signature_hash : String

-- The tables, newest row first, and how many ids have been drawn.
pub record World : Type 0 where
  pub tenants : List String
  pub purchase_orders : List String
  pub assets : List Asset
  pub entries : List Entry
  pub orders : List Order
  pub sessions : List Session
  pub devices : List Device
  pub events : List Event
  pub audits : List Audit
  pub drawn : ℕ

abbrev pub Call : Type 0 → Type 0
Call A = Action World Fault A

-- What signing the metadata gives: the hashes and the authentication tag.
pub record Signed : Type 0 where
  pub falcon_hash : String
  pub dat : String
  pub payload_hash : String

-- The outside world: the ids that the database draws, the signature over the metadata and the
-- layout of the tag (`none` where a call throws), fresh keys and their wrapped forms, lower case.
pub record Outside : Type 0 where
  pub cuid : ℕ → String
  pub sign : (asset_id ntag_uid metadata : String) → Option Signed
  pub layout_b64 : (ntag_uid dat falcon_hash metadata : String) → Option String
  pub fresh_key : (purpose drawn : ℕ) → String
  pub wrap_user_key : String → String
  pub to_lower_case : String → String
