-- ===== src/Asset/Escrow.antt =====
-- EscrowFacet.ts: `lock`, `release`, `cancel` and `getStatus`.
use qc_backend.Base.{
  ℕ, String, Option, some, none, Bool, true, false, not, ◌&&◌, ◌||◌, leb, ◌==◌, if◌then◌else◌,
  string_has_eq, raise_if, pure, ◌>>=◌, ◌>>◌,
}
use qc_backend.Asset.Types.{
  active, locked_in_escrow, EscrowStatus, KeyRole, admin, operator, Context, EscrowRow, ReleaseMode,
  auto, manual, lock, Operation, Transition, escrow_locked, escrow_released, escrow_cancelled,
  Outside, insufficient_role, invalid_unlock_timestamp, invalid_asset_state, escrow_already_closed,
  release_mode_mismatch,
}
use qc_backend.Asset.Rows.{
  Call, require_asset, update_asset, is_active, require_escrow, is_closed, create_escrow,
  update_escrow, create_event, execute,
}

abbrev pub is_admin : KeyRole → Bool
is_admin admin = true
is_admin _ = false

abbrev pub is_operator : KeyRole → Bool
is_operator operator = true
is_operator _ = false

abbrev pub is_auto : ReleaseMode → Bool
is_auto auto = true
is_auto manual = false

pub record LockRequest : Type 0 where
  pub asset_id : String
  pub escrow_id : String
  pub chain : String
  pub sender : String
  pub receiver : String
  pub amount : String
  pub unlock_timestamp : ℕ
  pub release_mode : ReleaseMode
  pub asset_address : Option String

-- The payload of a release or a cancellation: the asset is named beside the escrow.
pub record CloseRequest : Type 0 where
  pub escrow_id : String
  pub asset_id : String

pub record EscrowReply : Type 0 where
  pub escrow_id : String
  pub asset_id : String
  pub status : EscrowStatus
  pub chain_tx_id : String

abbrev pub escrow_worker_key : String
escrow_worker_key = "ESCROW_WORKER"

abbrev pub row_of : String → LockRequest → Option String → EscrowRow
row_of tenant p tx = record {
  escrow_id = p.escrow_id;
  tenant_id = tenant;
  asset_id = some p.asset_id;
  chain = p.chain;
  chain_tx_id = tx;
  sender = p.sender;
  receiver = p.receiver;
  amount = p.amount;
  asset_address = p.asset_address;
  unlock_timestamp = some p.unlock_timestamp;
  release_mode = p.release_mode;
  release_confirmed_at = none;
  status = EscrowStatus.active;
}

abbrev pub lock_transition : LockRequest → Transition
lock_transition p = record {
  chain = p.chain;
  transition_id = p.escrow_id;
  sender = p.sender;
  receiver = p.receiver;
  amount = p.amount;
  asset_address = p.asset_address;
  unlock_timestamp = some p.unlock_timestamp;
  operation = lock;
}

-- The transition that closes an escrow.
abbrev pub closing : Operation → EscrowRow → Transition
closing operation e = record {
  chain = e.chain;
  transition_id = e.escrow_id;
  sender = e.sender;
  receiver = e.receiver;
  amount = e.amount;
  asset_address = e.asset_address;
  unlock_timestamp = e.unlock_timestamp;
  operation = operation;
}

-- The row is written before the chain is called.
unfoldable pub lock_escrow : Outside → ℕ → Context → LockRequest → Call EscrowReply
lock_escrow o now ctx p = do
  raise_if (not (is_admin ctx.role || is_operator ctx.role)) insufficient_role
  raise_if (leb p.unlock_timestamp now) invalid_unlock_timestamp
  asset ← require_asset ctx.tenant_id p.asset_id
  raise_if (not (is_active asset.status)) invalid_asset_state
  create_escrow (row_of ctx.tenant_id p none)
  tx ← execute o (lock_transition p)
  update_escrow p.escrow_id (λ e. record e { chain_tx_id = some tx })
  update_asset p.asset_id locked_in_escrow
  create_event (record {
    asset_id = p.asset_id;
    tenant_id = ctx.tenant_id;
    origin = ctx.api_key_id;
    issuer_id = none;
    payload = escrow_locked p.escrow_id p.chain p.unlock_timestamp p.release_mode none;
    chain_tx_id = none;
    signature_hash = none;
  })
  pure (record {
    escrow_id = p.escrow_id;
    asset_id = p.asset_id;
    status = EscrowStatus.active;
    chain_tx_id = tx;
  })

-- What `release` writes to the row; a worker leaves no confirmation time.
abbrev pub released_row : Bool → ℕ → String → EscrowRow → EscrowRow
released_row worker now tx e = record e {
  status = EscrowStatus.released;
  chain_tx_id = some tx;
  release_confirmed_at = if worker then e.release_confirmed_at else some now;
}

unfoldable pub release_escrow : Outside → ℕ → Context → CloseRequest → Call EscrowReply
release_escrow o now ctx p = do
  let worker = ctx.api_key_id == escrow_worker_key
  raise_if (not worker && not (is_admin ctx.role || is_operator ctx.role)) insufficient_role
  e ← require_escrow ctx.tenant_id p.escrow_id
  raise_if (is_closed e.status) escrow_already_closed
  raise_if (not worker && is_auto e.release_mode) release_mode_mismatch
  tx ← execute o (closing Operation.release e)
  update_escrow e.escrow_id (released_row worker now tx)
  update_asset p.asset_id active
  create_event (record {
    asset_id = p.asset_id;
    tenant_id = ctx.tenant_id;
    origin = ctx.api_key_id;
    issuer_id = none;
    payload =
        escrow_released e.escrow_id (if worker then escrow_worker_key else ctx.api_key_id)
          e.release_mode none;
    chain_tx_id = none;
    signature_hash = none;
  })
  pure (record {
    escrow_id = e.escrow_id;
    asset_id = p.asset_id;
    status = EscrowStatus.released;
    chain_tx_id = tx;
  })

abbrev pub cancelled_row : String → EscrowRow → EscrowRow
cancelled_row tx e = record e { status = EscrowStatus.cancelled; chain_tx_id = some tx }

unfoldable pub cancel_escrow : Outside → Context → CloseRequest → Call EscrowReply
cancel_escrow o ctx p = do
  raise_if (not (is_admin ctx.role)) insufficient_role
  e ← require_escrow ctx.tenant_id p.escrow_id
  raise_if (is_closed e.status) escrow_already_closed
  tx ← execute o (closing Operation.cancel e)
  update_escrow e.escrow_id (cancelled_row tx)
  update_asset p.asset_id active
  create_event (record {
    asset_id = p.asset_id;
    tenant_id = ctx.tenant_id;
    origin = ctx.api_key_id;
    issuer_id = none;
    payload = escrow_cancelled e.escrow_id ctx.api_key_id none;
    chain_tx_id = none;
    signature_hash = none;
  })
  pure (record {
    escrow_id = e.escrow_id;
    asset_id = p.asset_id;
    status = EscrowStatus.cancelled;
    chain_tx_id = tx;
  })

-- `getStatus`
unfoldable pub get_status : Context → String → Call EscrowRow
get_status ctx id = require_escrow ctx.tenant_id id
