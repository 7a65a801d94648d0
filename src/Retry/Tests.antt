-- ===== src/Retry/Tests.antt =====
-- A queue with a transaction to try and a dead letter: the theorems at inputs that meet their
-- hypotheses.
use qc_backend.Base.{inl, some, [], ◌∷◌, none, true, false, ◌≡◌, refl, ok, err, arith}
use qc_backend.Retry.Types.{pending, dlq, transfer, Payload, PendingTx, World, Adapter, Outside}
use qc_backend.Retry.Execution.{execute_transaction}
use qc_backend.Retry.Worker.{retry_batch, has_event, process_retries}
use qc_backend.Retry.Rows.{rows_of}
use qc_backend.Retry.Turns.{IsTried, process_retries-IsTried, process_retries-waits}
use qc_backend.Retry.Schedule.{IsScheduled, process_retries-IsScheduled}
use qc_backend.Retry.Steps.{Step, run_steps}
use qc_backend.Retry.Resting.{IsRow, run_steps-IsRow}
use qc_backend.Retry.Patience.{hourly_rounds, IsDead, hourly_rounds-IsDead}

-- Adapters of which none answers.
abbrev adapter : Adapter
adapter = record {
  anchor_event = λ event hash options. err "timeout";
  execute_generic_transition = λ t. err "timeout";
  send_asset = λ payload. err "timeout";
}

abbrev outside : Outside
outside = record { get_adapter = λ chain. ok adapter; to_lower_case = λ s. s; elapsed = λ now t. 5 }

abbrev payload : Payload
payload = record {
  event_id = none;
  hash = none;
  options = none;
  escrow_id = none;
  transition_id = none;
  sender = none;
  receiver = none;
  amount = none;
  asset_address = none;
  unlock_timestamp = none;
  rest = "{}";
}

abbrev tx : PendingTx
tx = record {
  id = 1;
  tenant_id = "t1";
  tx_ref = "ref";
  tx_type = transfer;
  chain = "STELLAR";
  payload = payload;
  status = pending;
  attempt_count = 3;
  max_attempts = 5;
  next_retry_at = none;
  last_error = none;
  is_dlq = false;
  dlq_reason = none;
  dlq_at = none;
  chain_tx_id = none;
  confirmed_at = none;
  created_at = 10;
}

abbrev letter : PendingTx
letter = record tx { id = 2; status = dlq; is_dlq = true }

abbrev queue : World
queue = record { rows = letter ∷ tx ∷ []; events = []; notices = []; next_id = 3 }

process_retries-IsTried_example :
    (a : PendingTx) × (rows_of 1 (process_retries outside 50 queue).1.rows ≡ a ∷ [])
    × IsTried outside (has_event "ref" queue.events) tx a
process_retries-IsTried_example =
    process_retries-IsTried outside 50 tx queue refl refl (omega arith)

-- The same transaction, which is not to be tried before the time 60.
abbrev later : PendingTx
later = record tx { next_retry_at = some 60 }

process_retries-waits_example :
    rows_of 1 (process_retries outside 50 (record queue { rows = letter ∷ later ∷ [] })).1.rows
    ≡ later ∷ []
process_retries-waits_example =
    process_retries-waits outside 50 later (record queue { rows = letter ∷ later ∷ [] }) refl
      (inl refl)

process_retries-IsScheduled_example :
    (a : PendingTx) × (rows_of 1 (process_retries outside 50 queue).1.rows ≡ a ∷ [])
    × IsScheduled 55 tx a
unfolding retry_batch
process_retries-IsScheduled_example = process_retries-IsScheduled outside 50 tx queue refl refl

run_steps-IsRow_example :
    IsRow letter (run_steps outside (Step.round 50 ∷ Step.attempt 60 letter ∷ []) queue)
run_steps-IsRow_example =
    run_steps-IsRow outside letter (Step.round 50 ∷ Step.attempt 60 letter ∷ []) queue (refl, refl)
      refl

hourly_rounds-IsDead_example : IsDead 1 (hourly_rounds outside 5 2 50 queue)
unfolding execute_transaction
hourly_rounds-IsDead_example =
    hourly_rounds-IsDead outside 5 2 50 tx queue (λ now t. omega arith) refl (omega arith) refl refl
      refl (omega arith)
