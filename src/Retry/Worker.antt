-- ===== src/Retry/Worker.antt =====
-- RetryWorker.ts: `processRetries`, `handleFailure` and `enqueue`. A round reads the clock for
-- its query, and again for each transaction that it has executed.
use qc_backend.Base.{
  ℕ, ◌+◌, String, List, [], ◌∷◌, Option, some, none, Bool, true, false, not, ◌&&◌, ◌||◌, leb, ◌==◌,
  any, length, map, select, take, is_empty, if◌then◌else◌, nat_has_eq, string_has_eq,
}
use qc_backend.Retry.Types.{
  TxStatus, pending, processing, failed, success, dlq, TxType, anchor, Payload, PendingTx, EventRow,
  NoticeType, retry_success, retry_dlq, World, Outside,
}
use qc_backend.Retry.Execution.{
  delay_ms, is_critical_error, Ended, succeeded, returned_error, threw, execute_transaction,
}

abbrev pub is_retryable : TxStatus → Bool
is_retryable pending = true
is_retryable failed = true
is_retryable _ = false

abbrev pub is_reached : ℕ → Option ℕ → Bool
is_reached now none = true
is_reached now (some t) = leb t now

-- The `where` of the query.
abbrev pub is_due : ℕ → PendingTx → Bool
is_due now t = is_retryable t.status && (not t.is_dlq && is_reached now t.next_retry_at)

-- `orderBy: { createdAt: 'asc' }`
abbrev pub insert_by_age : PendingTx → List PendingTx → List PendingTx
insert_by_age t [] = t ∷ []
insert_by_age t (x ∷ xs) =
    let rest = insert_by_age t xs in if leb t.created_at x.created_at then t ∷ x ∷ xs else x ∷ rest

abbrev pub sort_by_age : List PendingTx → List PendingTx
sort_by_age [] = []
sort_by_age (t ∷ ts) = insert_by_age t (sort_by_age ts)

-- The rows of one round, twenty at most.
unfoldable pub retry_batch : ℕ → List PendingTx → List PendingTx
retry_batch now rows = take 20 (sort_by_age (select (is_due now) rows))

abbrev pub on_row : ℕ → (PendingTx → PendingTx) → PendingTx → PendingTx
on_row id f r = if r.id == id then f r else r

abbrev pub with_rows : (List PendingTx → List PendingTx) → World → World
with_rows f w = record w { rows = f w.rows }

-- `update({ where: { id } })`, on a row that is there
unfoldable pub update_row : ℕ → (PendingTx → PendingTx) → World → World
update_row id f = with_rows (map (on_row id f))

abbrev pub notify : PendingTx → NoticeType → World → World
notify t event_type w = record w {
  notices =
      record { tenant_id = t.tenant_id; event_type = event_type; tx_ref = t.tx_ref } ∷ w.notices;
}

abbrev pub dead : ℕ → ℕ → String → PendingTx → PendingTx
dead now attempts message r = record r {
  status = dlq;
  is_dlq = true;
  dlq_reason = some message;
  dlq_at = some now;
  attempt_count = attempts;
  last_error = some message;
}

abbrev pub postponed : ℕ → ℕ → String → PendingTx → PendingTx
postponed now attempts message r = record r {
  status = failed;
  attempt_count = attempts;
  last_error = some message;
  next_retry_at = some (now + delay_ms attempts);
}

abbrev pub is_final_attempt : PendingTx → Bool
is_final_attempt t = leb t.max_attempts (t.attempt_count + 1)

unfoldable pub handle_failure : ℕ → PendingTx → String → Bool → World → World
unfolding update_row delay_ms
handle_failure now t message is_critical w =
    if is_critical || is_final_attempt t
    then notify t retry_dlq (update_row t.id (dead now (t.attempt_count + 1) message) w)
    else update_row t.id (postponed now (t.attempt_count + 1) message) w

pub record Tally : Type 0 where
  pub processed : ℕ
  pub succeeded : ℕ
  pub failed : ℕ
  pub dlq : ℕ

abbrev pub done : ℕ → ℕ → String → PendingTx → PendingTx
done now attempts tx_id r = record r {
  status = success;
  chain_tx_id = some tx_id;
  confirmed_at = some now;
  attempt_count = attempts;
}

abbrev pub is_anchor : TxType → Bool
is_anchor anchor = true
is_anchor _ = false

abbrev pub has_event : String → List EventRow → Bool
has_event id events = any (λ (e : EventRow). e.id == id) events

abbrev pub anchored : String → String → EventRow → EventRow
anchored id tx_id e = if e.id == id then record e { dlt_tx_id = some tx_id } else e

abbrev pub with_events : (List EventRow → List EventRow) → World → World
with_events f w = record w { events = f w.events }

-- The update of the event, which fails where there is none.
abbrev pub needs_event : PendingTx → String → Bool
needs_event t tx_id = is_anchor t.tx_type && not (is_empty tx_id)

-- `error.message || 'Unknown error'`
abbrev pub message_or_unknown : String → String
message_or_unknown s = if is_empty s then "Unknown error" else s

-- The message of the client where an update finds no row.
abbrev pub record_not_found : String
record_not_found = "Record to update not found."

abbrev pub on_success : ℕ → PendingTx → String → Tally × World → Tally × World
on_success now t tx_id (c, w) = (
  record c { succeeded = c.succeeded + 1 },
  notify t retry_success (
      with_events (map (if needs_event t tx_id then anchored t.tx_ref tx_id else λ e. e))
        (update_row t.id (done now (t.attempt_count + 1) tx_id) w)),
)

-- The `catch` of a round's body: it counts as failed whichever way it is handled.
abbrev pub on_throw : ℕ → PendingTx → String → Tally × World → Tally × World
on_throw now t message (c, w) =
    (record c { failed = c.failed + 1 }, handle_failure now t (message_or_unknown message) false w)

abbrev pub on_error : ℕ → PendingTx → String → Bool → Tally × World → Tally × World
on_error now t message is_critical (c, w) = (
  if is_critical || is_final_attempt t
      then record c { dlq = c.dlq + 1 }
      else record c { failed = c.failed + 1 },
  handle_failure now t message is_critical w,
)

-- What follows the lock. A success whose event is missing is rolled back, and thrown.
abbrev pub after_execution : Outside → ℕ → PendingTx → Ended → Tally × World → Tally × World
after_execution o now t (succeeded tx_id) (c, w) =
    if needs_event t tx_id && not (has_event t.tx_ref w.events)
    then on_throw now t record_not_found (c, w)
    else on_success now t tx_id (c, w)
after_execution o now t (returned_error message) s =
    on_error now t (message_or_unknown message) (is_critical_error o (message_or_unknown message)) s
after_execution o now t (threw message) s = on_throw now t message s

abbrev pub is_free : ℕ → PendingTx → Bool
is_free id r = r.id == id && is_retryable r.status

-- `updateMany` of the lock
abbrev pub locked : ℕ → PendingTx → PendingTx
locked id r = if is_free id r then record r { status = processing } else r

-- The clock once the transaction has been executed.
abbrev pub handled_at : Outside → ℕ → PendingTx → ℕ
handled_at o now t = now + o.elapsed now t

unfoldable pub process_one : Outside → ℕ → PendingTx → Tally × World → Tally × World
unfolding handle_failure is_critical_error execute_transaction
process_one o now t (c, w) =
    if any (is_free t.id) w.rows
    then after_execution o (handled_at o now t) t (execute_transaction o t)
        (c, with_rows (map (locked t.id)) w)
    else (c, w)

unfoldable pub process_each : Outside → ℕ → List PendingTx → Tally × World → Tally × World
unfolding process_one
process_each o now [] s = s
process_each o now (t ∷ ts) s = process_each o now ts (process_one o now t s)

unfoldable pub process_retries : Outside → ℕ → World → Tally × World
unfolding process_each retry_batch
process_retries o now w =
    let batch = retry_batch now w.rows in
    process_each o now batch
      (record { processed = length batch; succeeded = 0; failed = 0; dlq = 0 }, w)

unfoldable pub enqueue :
    ℕ
    → (tenant tx_ref : String) → TxType
    → (chain : String) → Payload
    → Option String
    → World
    → World
enqueue now tenant tx_ref tx_type chain payload error w = record w {
  rows =
      record {
        id = w.next_id;
        tenant_id = tenant;
        tx_ref = tx_ref;
        tx_type = tx_type;
        chain = chain;
        payload = payload;
        status = pending;
        attempt_count = 0;
        max_attempts = 5;
        next_retry_at = none;
        last_error = error;
        is_dlq = false;
        dlq_reason = none;
        dlq_at = none;
        chain_tx_id = none;
        confirmed_at = none;
        created_at = now;
      }
      ∷ w.rows;
  next_id = w.next_id + 1;
}
