-- ===== src/Asset/Tikin.antt =====
-- TikinEscrowFacet.ts: `lock`, `release` and `cancel`. The adapters' `executeGenericTransition`
-- is outside; a timestamp is a number, as the payloads and the rows have it.
use qc_backend.Base.{
  ℕ, String, Option, some, none, false, not, ◌&&◌, ◌||◌, ltb, ◌/◌, if◌then◌else◌, is_empty,
  raise_if, pure, ◌>>=◌, ◌>>◌,
}
use qc_backend.Asset.Types.{
  active, locked_in_escrow, EscrowStatus, Context, EscrowRow, ReleaseMode, lock, Operation,
  Transition, escrow_locked, escrow_released, escrow_cancelled, Outside, invalid_asset_state,
  insufficient_permissions, missing_escrow_identifier, unlock_not_reached, escrow_already_closed,
}
use qc_backend.Asset.Rows.{
  Call, require_asset, update_asset, is_active, require_escrow, is_closed, create_escrow,
  update_escrow, create_event, execute,
}
use qc_backend.Asset.Escrow.{is_admin, is_operator, is_auto, cancelled_row, released_row}

pub record LockRequest : Type 0 where
  pub asset_id : String
  pub escrow_id : Option String
  pub escrow_record_id : Option String
  pub chain : String
  pub sender : String
  pub receiver : String
  pub amount : String
  pub unlock_timestamp : ℕ
  pub release_mode : ReleaseMode
  pub asset_address : Option String

pub record CloseRequest : Type 0 where
  pub escrow_id : Option String
  pub escrow_record_id : Option String
  pub asset_id : String

pub record LockReply : Type 0 where
  pub escrow_id : String
  pub escrow_record_id : String
  pub asset_id : String
  pub status : EscrowStatus
  pub tx_id : String

pub record CloseReply : Type 0 where
  pub escrow_id : String
  pub asset_id : String
  pub status : EscrowStatus
  pub tx_id : String

-- `normalizeTimestamp` of a number: milliseconds become seconds.
abbrev pub normalize_timestamp : ℕ → ℕ
normalize_timestamp value = if ltb 9999999999 value then value / 1000 else value

-- `normalizeTimestamp` of a column, which holds a date or null.
abbrev pub seconds_of : Option ℕ → ℕ
seconds_of none = 0
seconds_of (some t) = t

-- `??`
abbrev pub or_else : Option String → Option String → Option String
or_else (some x) y = some x
or_else none y = y

abbrev pub text_of : Option String → String
text_of none = ""
text_of (some x) = x

-- `payload.escrowId ?? payload.escrowRecordId`, as text
abbrev pub identifier : Option String → Option String → String
identifier escrow_id escrow_record_id = text_of (or_else escrow_id escrow_record_id)

abbrev pub string_or : Option String → String → String
string_or none default = default
string_or (some x) default = x

abbrev pub row_of : String → String → LockRequest → String → EscrowRow
row_of tenant id p tx = record {
  escrow_id = id;
  tenant_id = tenant;
  asset_id = some p.asset_id;
  chain = p.chain;
  chain_tx_id = some tx;
  sender = p.sender;
  receiver = p.receiver;
  amount = p.amount;
  asset_address = p.asset_address;
  unlock_timestamp = some (normalize_timestamp p.unlock_timestamp);
  release_mode = p.release_mode;
  release_confirmed_at = none;
  status = EscrowStatus.active;
}

abbrev pub lock_transition : String → LockRequest → Transition
lock_transition id p = record {
  chain = p.chain;
  transition_id = id;
  sender = p.sender;
  receiver = p.receiver;
  amount = p.amount;
  asset_address = p.asset_address;
  unlock_timestamp = some (normalize_timestamp p.unlock_timestamp);
  operation = lock;
}

abbrev pub closing : Operation → String → EscrowRow → Transition
closing operation id e = record {
  chain = e.chain;
  transition_id = id;
  sender = e.sender;
  receiver = e.receiver;
  amount = e.amount;
  asset_address = e.asset_address;
  unlock_timestamp = some (seconds_of e.unlock_timestamp);
  operation = operation;
}

-- The chain is called before the row is written.
unfoldable pub lock_escrow : Outside → Context → LockRequest → Call LockReply
lock_escrow o ctx p = do
  let id = identifier p.escrow_id p.escrow_record_id
  raise_if (is_empty id) missing_escrow_identifier
  raise_if (not (is_admin ctx.role || is_operator ctx.role)) insufficient_permissions
  asset ← require_asset ctx.tenant_id p.asset_id
  raise_if (not (is_active asset.status)) invalid_asset_state
  tx ← execute o (lock_transition id p)
  create_escrow (row_of ctx.tenant_id id p tx)
  update_asset p.asset_id locked_in_escrow
  create_event (record {
    asset_id = p.asset_id;
    tenant_id = ctx.tenant_id;
    origin = ctx.api_key_id;
    issuer_id = some ctx.api_key_id;
    payload = escrow_locked id p.chain p.unlock_timestamp p.release_mode (some tx);
    chain_tx_id = none;
    signature_hash = none;
  })
  pure (record {
    escrow_id = id;
    escrow_record_id = string_or p.escrow_record_id id;
    asset_id = p.asset_id;
    status = EscrowStatus.active;
    tx_id = tx;
  })

unfoldable pub release_escrow : Outside → ℕ → Context → CloseRequest → Call CloseReply
release_escrow o now ctx p = do
  let id = identifier p.escrow_id p.escrow_record_id
  raise_if (is_empty id) missing_escrow_identifier
  raise_if (not (is_admin ctx.role || is_operator ctx.role)) insufficient_permissions
  e ← require_escrow ctx.tenant_id id
  raise_if (is_closed e.status) escrow_already_closed
  raise_if (is_auto e.release_mode && ltb now (seconds_of e.unlock_timestamp)) unlock_not_reached
  tx ← execute o (closing Operation.release id e)
  update_escrow e.escrow_id (released_row false now tx)
  update_asset p.asset_id active
  create_event (record {
    asset_id = p.asset_id;
    tenant_id = ctx.tenant_id;
    origin = ctx.api_key_id;
    issuer_id = some ctx.api_key_id;
    payload = escrow_released id ctx.api_key_id e.release_mode (some tx);
    chain_tx_id = none;
    signature_hash = none;
  })
  pure (record {
    escrow_id = e.escrow_id;
    asset_id = p.asset_id;
    status = EscrowStatus.released;
    tx_id = tx;
  })

unfoldable pub cancel_escrow : Outside → Context → CloseRequest → Call CloseReply
cancel_escrow o ctx p = do
  let id = identifier p.escrow_id p.escrow_record_id
  raise_if (is_empty id) missing_escrow_identifier
  raise_if (not (is_admin ctx.role)) insufficient_permissions
  e ← require_escrow ctx.tenant_id id
  raise_if (is_closed e.status) escrow_already_closed
  tx ← execute o (closing Operation.cancel id e)
  update_escrow e.escrow_id (cancelled_row tx)
  update_asset p.asset_id active
  create_event (record {
    asset_id = p.asset_id;
    tenant_id = ctx.tenant_id;
    origin = ctx.api_key_id;
    issuer_id = some ctx.api_key_id;
    payload = escrow_cancelled id ctx.api_key_id (some tx);
    chain_tx_id = none;
    signature_hash = none;
  })
  pure (record {
    escrow_id = e.escrow_id;
    asset_id = p.asset_id;
    status = EscrowStatus.cancelled;
    tx_id = tx;
  })
