-- ===== src/Retry/Attempts.antt =====
-- A round is one attempt at each row of its batch.
use qc_backend.Base.{
  ℕ, ◌+◌, String, List, [], ◌∷◌, Bool, true, false, not, ◌&&◌, ◌||◌, ◌≡◌, refl, ap, inl, inr, any,
  any-map, map, ◌==◌, if◌then◌else◌, nat_has_eq, string_has_eq, arith, Bool-cases,
}
use qc_backend.Retry.Types.{PendingTx, EventRow, World, Outside}
use qc_backend.Retry.Execution.{
  Ended, succeeded, returned_error, threw, execute_transaction, is_critical_error, delay_ms,
}
use qc_backend.Retry.Worker.{
  on_row, with_rows, update_row, dead, postponed, is_final_attempt, handle_failure, Tally, done,
  has_event, anchored, needs_event, message_or_unknown, record_not_found, after_execution, is_free,
  locked, handled_at, process_one,
}

-- A failed attempt.
abbrev pub failing : ℕ → PendingTx → String → Bool → PendingTx → PendingTx
failing now t message is_critical =
    if is_critical || is_final_attempt t
    then dead now (t.attempt_count + 1) message
    else postponed now (t.attempt_count + 1) message

-- What an execution that has ended so makes of a row.
abbrev pub settled : Outside → ℕ → Bool → PendingTx → Ended → PendingTx → PendingTx
settled o now event_there t (succeeded tx_id) =
    if needs_event t tx_id && not event_there
    then failing now t (message_or_unknown record_not_found) false
    else done now (t.attempt_count + 1) tx_id
settled o now event_there t (returned_error message) =
    failing now t (message_or_unknown message) (is_critical_error o (message_or_unknown message))
settled o now event_there t (threw message) = failing now t (message_or_unknown message) false

-- One attempt at a row: whether its event is there is given.
unfoldable pub attempted : Outside → ℕ → Bool → PendingTx → PendingTx
unfolding delay_ms
attempted o now event_there t =
    settled o (handled_at o now t) event_there t (execute_transaction o t) t

handle_failure-rows :
    (now : ℕ) (t : PendingTx) (message : String) (b : Bool) (w : World)
    → (handle_failure now t message b w).rows ≡ map (on_row t.id (failing now t message b)) w.rows
unfolding handle_failure update_row
handle_failure-rows now t message b w = elim (Bool-cases (b || is_final_attempt t)) [
  | inl last ↦ rw last refl
  | inr more ↦ rw more refl
]

handle_failure-events :
    (now : ℕ) (t : PendingTx) (message : String) (b : Bool) (w : World)
    → (handle_failure now t message b w).events ≡ w.events
unfolding handle_failure update_row
handle_failure-events now t message b w = elim (Bool-cases (b || is_final_attempt t)) [
  | inl last ↦ rw last refl
  | inr more ↦ rw more refl
]

pub after_execution-rows :
    (o : Outside) (now : ℕ) (t : PendingTx) (e : Ended) (c : Tally) (w : World)
    → (after_execution o now t e (c, w)).1.rows
      ≡ map (on_row t.id (settled o now (has_event t.tx_ref w.events) t e)) w.rows
unfolding update_row
after_execution-rows o now t (succeeded tx_id) c w =
    elim (Bool-cases (needs_event t tx_id && not (has_event t.tx_ref w.events))) [
      | inl lost ↦ rw lost (handle_failure-rows now t _ false w)
      | inr kept ↦ rw kept refl
    ]
after_execution-rows o now t (returned_error message) c w = handle_failure-rows now t _ _ w
after_execution-rows o now t (threw message) c w = handle_failure-rows now t _ false w

anchored-has_event :
    (x id tx_id : String) (events : List EventRow)
    → has_event x (map (anchored id tx_id) events) ≡ has_event x events
anchored-has_event x id tx_id events =
    any-map (λ (e : EventRow). e.id == x) (anchored id tx_id) events (λ e. ground arith)

map-same {ℓ} : {A : Type ℓ} (xs : List A) → map (λ x. x) xs ≡ xs
map-same [] = refl
map-same (x ∷ xs) = ap (λ ys. x ∷ ys) (map-same xs)

pub after_execution-events :
    (o : Outside) (now : ℕ) (t : PendingTx) (e : Ended) (c : Tally) (w : World) (x : String)
    → has_event x (after_execution o now t e (c, w)).1.events ≡ has_event x w.events
unfolding update_row
after_execution-events o now t (succeeded tx_id) c w x =
    elim (Bool-cases (needs_event t tx_id && not (has_event t.tx_ref w.events))) [
      | inl lost ↦ rw lost (ap (has_event x) (handle_failure-events now t _ false w))
      | inr kept ↦ elim (Bool-cases (needs_event t tx_id)) [
        | inl anchors ↦ rw (kept, anchors) (anchored-has_event x t.tx_ref tx_id w.events)
        | inr plain ↦ rw (kept, plain) (ap (has_event x) (map-same w.events))
      ]
    ]
after_execution-events o now t (returned_error message) c w x =
    ap (has_event x) (handle_failure-events now t _ _ w)
after_execution-events o now t (threw message) c w x =
    ap (has_event x) (handle_failure-events now t _ false w)

handle_failure-next_id :
    (now : ℕ) (t : PendingTx) (message : String) (b : Bool) (w : World)
    → (handle_failure now t message b w).next_id ≡ w.next_id
unfolding handle_failure update_row
handle_failure-next_id now t message b w = elim (Bool-cases (b || is_final_attempt t)) [
  | inl last ↦ rw last refl
  | inr more ↦ rw more refl
]

pub after_execution-next_id :
    (o : Outside) (now : ℕ) (t : PendingTx) (e : Ended) (c : Tally) (w : World)
    → (after_execution o now t e (c, w)).1.next_id ≡ w.next_id
unfolding update_row
after_execution-next_id o now t (succeeded tx_id) c w =
    elim (Bool-cases (needs_event t tx_id && not (has_event t.tx_ref w.events))) [
      | inl lost ↦ rw lost (handle_failure-next_id now t _ false w)
      | inr kept ↦ rw kept refl
    ]
after_execution-next_id o now t (returned_error message) c w = handle_failure-next_id now t _ _ w
after_execution-next_id o now t (threw message) c w = handle_failure-next_id now t _ false w

-- The clauses of one step of a round, by whether the lock is taken.
pub process_one-locked :
    (o : Outside) (now : ℕ) (t : PendingTx) (c : Tally) (w : World)
    → any (is_free t.id) w.rows ≡ true
    → process_one o now t (c, w)
      ≡ after_execution o
          (handled_at o now t)
          t
          (execute_transaction o t)
          (c, with_rows (map (locked t.id)) w)
unfolding process_one
process_one-locked o now t c w free = rw free refl

pub process_one-skipped :
    (o : Outside) (now : ℕ) (t : PendingTx) (c : Tally) (w : World)
    → any (is_free t.id) w.rows ≡ false
    → process_one o now t (c, w) ≡ (c, w)
unfolding process_one
process_one-skipped o now t c w taken = rw taken refl
