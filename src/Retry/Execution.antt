-- ===== src/Retry/Execution.antt =====
-- RetryWorker.ts: `executeTransaction`, `isCriticalError` and the delay before the next attempt.
use qc_backend.Base.{
  ℕ, ◌-◌, ◌*◌, ◌^◌, String, List, [], ◌∷◌, Option, some, none, Bool, true, false, ◌||◌, ◌&&◌, any,
  nat_eq, leb, if◌then◌else◌, Result, ok, err,
}
use Prim.Native.Char.{code}
use qc_backend.Retry.Types.{
  TxType, anchor, escrow_create, escrow_release, escrow_cancel, transfer, PendingTx, Operation,
  lock, release, cancel, Transition, Adapter, Outside,
}

abbrev pub base_delay_ms : ℕ
base_delay_ms = 60000

abbrev pub max_delay_ms : ℕ
max_delay_ms = 3600000

abbrev pub smaller : ℕ → ℕ → ℕ
smaller a b = if leb a b then a else b

-- `delayMs`, for the number of attempts made, which is at least 1
unfoldable pub delay_ms : ℕ → ℕ
delay_ms attempts = smaller (base_delay_ms * 2 ^ (attempts - 1)) max_delay_ms

abbrev pub critical_error_patterns : List String
critical_error_patterns =
    "invalid signature" ∷ "insufficient funds" ∷ "insufficient balance" ∷ "unauthorized"
    ∷ "not authorized" ∷ "invalid triple proof" ∷ "sender does not match" ∷ "invalid address"
    ∷ "invalid amount" ∷ "escrow not found" ∷ "already released" ∷ "already cancelled" ∷ []

abbrev starts_with : String → String → Bool
starts_with String.[] s = true
starts_with (String.◌∷◌ p ps) String.[] = false
starts_with (String.◌∷◌ p ps) (String.◌∷◌ c s) = nat_eq (code p) (code c) && starts_with ps s

-- `text.includes(pattern)`
abbrev includes : String → String → Bool
includes pattern String.[] = starts_with pattern String.[]
includes pattern (String.◌∷◌ c s) = starts_with pattern (String.◌∷◌ c s) || includes pattern s

unfoldable pub is_critical_error : Outside → String → Bool
is_critical_error o message =
    any (λ pattern. includes pattern (o.to_lower_case message)) critical_error_patterns

-- `a ?? b` and `a ?? b ?? c`
abbrev pub or_text : Option String → String → String
or_text none s = s
or_text (some x) s = x

abbrev pub transition_of : PendingTx → Operation → Transition
transition_of t operation = record {
  transition_id = or_text t.payload.escrow_id (or_text t.payload.transition_id t.tx_ref);
  sender = or_text t.payload.sender "";
  receiver = or_text t.payload.receiver "";
  amount = or_text t.payload.amount "0";
  asset_address = t.payload.asset_address;
  unlock_timestamp = t.payload.unlock_timestamp;
  operation = operation;
}

abbrev pub execute_with : Adapter → PendingTx → TxType → Result String String
execute_with a t anchor = a.anchor_event t.payload.event_id t.payload.hash t.payload.options
execute_with a t escrow_create = a.execute_generic_transition (transition_of t lock)
execute_with a t escrow_release = a.execute_generic_transition (transition_of t release)
execute_with a t escrow_cancel = a.execute_generic_transition (transition_of t cancel)
execute_with a t transfer = a.send_asset t.payload.rest

-- How an execution ends: the factory's error is thrown, an adapter's is returned.
pub data Ended : Type 0 where
  succeeded : (tx_id : String) → Ended
  returned_error : String → Ended
  threw : String → Ended

abbrev pub ended_of : Result String String → Ended
ended_of (ok tx_id) = succeeded tx_id
ended_of (err message) = returned_error message

abbrev pub with_adapter : PendingTx → Result String Adapter → Ended
with_adapter t (err message) = threw message
with_adapter t (ok a) = ended_of (execute_with a t t.tx_type)

unfoldable pub execute_transaction : Outside → PendingTx → Ended
execute_transaction o t = with_adapter t (o.get_adapter t.chain)
