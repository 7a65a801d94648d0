-- ===== src/Asset/Types.antt =====
-- The rows, parameters and errors of the calls on assets (prisma/schema.prisma: Asset, Escrow,
-- EventLog, Owner), and the outside world that they call.
use qc_backend.Base.{ℕ, String, List, Option}

-- `AssetStatus`
pub data Status : Type 0 where
  draft active suspended archived burned awaiting_payment locked_in_escrow alert inactive : Status

-- `EscrowStatus`
pub data EscrowStatus : Type 0 where
  pending active processing released cancelled expired : EscrowStatus

-- The role of an API key; any other text in its place is `unknown`.
pub data KeyRole : Type 0 where
  admin operator reader unknown : KeyRole

pub data ReleaseMode : Type 0 where
  auto manual : ReleaseMode

pub data Operation : Type 0 where
  lock release cancel : Operation

-- `SecureContext`
pub record Context : Type 0 where
  pub tenant_id : String
  pub api_key_id : String
  pub role : KeyRole

pub record Asset : Type 0 where
  pub id : String
  pub tenant_id : String
  pub external_id : String
  pub status : Status

-- Timestamps are seconds of Unix time.
pub record EscrowRow : Type 0 where
  pub escrow_id : String
  pub tenant_id : String
  pub asset_id : Option String
  pub chain : String
  pub chain_tx_id : Option String
  pub sender : String
  pub receiver : String
  pub amount : String
  pub asset_address : Option String
  pub unlock_timestamp : Option ℕ
  pub release_mode : ReleaseMode
  pub release_confirmed_at : Option ℕ
  pub status : EscrowStatus

-- What an event tells, by its `action` or `eventType`.
pub data Payload : Type 0 where
  lifecycle_transition : (from_state to_state : Status) (reason : Option String) (at : ℕ) → Payload
  escrow_locked :
      (escrow_id chain : String) (unlock : ℕ) (mode : ReleaseMode) (tx : Option String) → Payload
  escrow_released :
      (escrow_id released_by : String) (mode : ReleaseMode) (tx : Option String) → Payload
  escrow_cancelled : (escrow_id cancelled_by : String) (tx : Option String) → Payload
  transfer_initiated :
      (buyer_document_hash document_type : String) (fee : ℕ) (owner_id at : ℕ) → Payload
  payment_confirmed : (payment_id : String) → Payload

-- A row of the event log. Every row that these calls write is APPROVED.
pub record Event : Type 0 where
  pub asset_id : String
  pub tenant_id : String
  pub origin : String
  pub issuer_id : Option String
  pub payload : Payload
  pub chain_tx_id : Option String
  pub signature_hash : Option String

pub record Owner : Type 0 where
  pub id : ℕ
  pub asset_id : String
  pub document : String
  pub document_type : String

-- The tables, newest row first; `fees` holds `customTransferFee` by tenant, in cents.
pub record World : Type 0 where
  pub assets : List Asset
  pub escrows : List EscrowRow
  pub events : List Event
  pub owners : List Owner
  pub fees : List (String × ℕ)

pub data Fault : Type 0 where
  insufficient_role invalid_unlock_timestamp asset_not_found invalid_asset_state : Fault
  escrow_not_found escrow_already_closed release_mode_mismatch unlock_not_reached : Fault
  missing_escrow_identifier asset_locked_in_escrow state_transition_forbidden : Fault
  insufficient_role_for_transition insufficient_permissions : Fault
  chain_failed billing_failed record_not_found unique_constraint : Fault

-- `DLTTransitionPayload`, with the chain whose adapter receives it.
pub record Transition : Type 0 where
  pub chain : String
  pub transition_id : String
  pub sender : String
  pub receiver : String
  pub amount : String
  pub asset_address : Option String
  pub unlock_timestamp : Option ℕ
  pub operation : Operation

-- The outside world, as the calls see it: the chain adapters (`none` where the call throws), the
-- payment provider, and the hash functions.
pub record Outside : Type 0 where
  pub execute : Transition → Option String
  pub create_preference : (asset_id title : String) (amount : ℕ) (owner : String) → Option String
  pub signature_hash : Payload → String
  pub sha256 : String → String
