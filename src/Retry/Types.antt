-- ===== src/Retry/Types.antt =====
-- The rows of PendingTransaction (prisma/schema.prisma), and what the retry worker asks of the
-- outside world.
use qc_backend.Base.{ℕ, String, List, Option, Bool, Result}

-- `PendingTxStatus`
pub data TxStatus : Type 0 where
  pending processing failed success dlq : TxStatus

-- `PendingTxType`
pub data TxType : Type 0 where
  anchor escrow_create escrow_release escrow_cancel transfer : TxType

-- The JSON payload, with the fields that some transaction type reads; they are texts. `rest` is the
-- whole payload as JSON text.
pub record Payload : Type 0 where
  pub event_id : Option String
  pub hash : Option String
  pub options : Option String
  pub escrow_id : Option String
  pub transition_id : Option String
  pub sender : Option String
  pub receiver : Option String
  pub amount : Option String
  pub asset_address : Option String
  pub unlock_timestamp : Option ℕ
  pub rest : String

-- `PendingTransaction`; times are in milliseconds.
pub record PendingTx : Type 0 where
  pub id : ℕ
  pub tenant_id : String
  pub tx_ref : String
  pub tx_type : TxType
  pub chain : String
  pub payload : Payload
  pub status : TxStatus
  pub attempt_count : ℕ
  pub max_attempts : ℕ
  pub next_retry_at : Option ℕ
  pub last_error : Option String
  pub is_dlq : Bool
  pub dlq_reason : Option String
  pub dlq_at : Option ℕ
  pub chain_tx_id : Option String
  pub confirmed_at : Option ℕ
  pub created_at : ℕ

-- The event that an anchored transaction is about.
pub record EventRow : Type 0 where
  pub id : String
  pub dlt_tx_id : Option String

pub data NoticeType : Type 0 where
  retry_success retry_dlq : NoticeType

-- A webhook call. `WebhookDispatcher.dispatch` throws nothing, so that it changes nothing else.
pub record Notice : Type 0 where
  pub tenant_id : String
  pub event_type : NoticeType
  pub tx_ref : String

-- The tables, newest row first; `next_id` is the id of the next row.
pub record World : Type 0 where
  pub rows : List PendingTx
  pub events : List EventRow
  pub notices : List Notice
  pub next_id : ℕ

pub data Operation : Type 0 where
  lock release cancel : Operation

-- `DLTTransitionPayload`, without its proofs
pub record Transition : Type 0 where
  pub transition_id : String
  pub sender : String
  pub receiver : String
  pub amount : String
  pub asset_address : Option String
  pub unlock_timestamp : Option ℕ
  pub operation : Operation

-- A chain adapter: each call ends with a transaction id, or it throws an error of this text.
pub record Adapter : Type 0 where
  pub anchor_event : (event_id hash options : Option String) → Result String String
  pub execute_generic_transition : Transition → Result String String
  pub send_asset : (payload_text : String) → Result String String

-- The factory of adapters, which may throw, lower case, and how long after the query of its round
-- the handling of a transaction's outcome reads the clock.
pub record Outside : Type 0 where
  pub get_adapter : (chain : String) → Result String Adapter
  pub to_lower_case : String → String
  pub elapsed : (now : ℕ) → PendingTx → ℕ
