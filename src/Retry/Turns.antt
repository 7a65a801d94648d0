-- ===== src/Retry/Turns.antt =====
-- Whose turn it is in a round, and what an attempt makes of the row.
use qc_backend.Base.{
  ℕ, ◌+◌, ◌≤◌, ◌<◌, [], ◌∷◌, some, Bool, true, false, not, ◌&&◌, ◌||◌, ◌≡◌, ◌⊎◌, refl, ◌∙◌, inl,
  inr, arith, Bool-cases,
}
use qc_backend.Retry.Types.{PendingTx, World, Outside, success, failed, dlq}
use qc_backend.Retry.Execution.{
  Ended, succeeded, returned_error, threw, execute_transaction, is_critical_error,
}
use qc_backend.Retry.Worker.{
  handled_at, is_due, is_final_attempt, message_or_unknown, needs_event, has_event, process_retries,
  retry_batch,
}
use qc_backend.Retry.Rows.{rows_of, retry_batch-Once}
use qc_backend.Retry.Attempts.{failing, settled, attempted}
use qc_backend.Retry.Oldest.{count, is_ahead, is_older, retry_batch-found, retry_batch-left_out}
use qc_backend.Retry.Rounds.{is_among, is_among-rows_of, process_retries-attempts}

-- After a failed attempt the row is a dead letter, where the error is critical or no attempt is left,
-- and FAILED otherwise.
abbrev pub Failing : Bool → PendingTx → PendingTx → Type 0
Failing critical r a =
    ((a.status ≡ dlq)
      × (a.is_dlq ≡ true)
      × ((critical ≡ true) ⊎ (r.max_attempts ≤ r.attempt_count + 1)))
    ⊎ ((a.status ≡ failed) × (critical ≡ false) × (r.attempt_count + 1 < r.max_attempts))

-- The row after an execution that has ended so: a success with the chain's id, unless the event that
-- has to be updated is missing, or a failure, which is critical as its message says.
abbrev pub Fate : Outside → Bool → PendingTx → Ended → PendingTx → Type 0
Fate o there r (succeeded tx_id) a =
    ((needs_event r tx_id && not there ≡ false)
      × (a.status ≡ success)
      × (a.chain_tx_id ≡ some tx_id))
    ⊎ ((needs_event r tx_id ≡ true) × (there ≡ false) × Failing false r a)
Fate o there r (returned_error message) a =
    Failing (is_critical_error o (message_or_unknown message)) r a
Fate o there r (threw message) a = Failing false r a

-- What an attempt has made of a row.
pub record IsTried (o : Outside) (there : Bool) (r a : PendingTx) : Type 0 where
  pub counted : a.attempt_count ≡ r.attempt_count + 1
  pub fate : Fate o there r (execute_transaction o r) a

-- A failed attempt is counted.
failing-Failing :
    (now : ℕ) (r : PendingTx) (message : _) (b : Bool)
    → ((failing now r message b r).attempt_count ≡ r.attempt_count + 1)
      × Failing b r (failing now r message b r)
failing-Failing now r message b = elim (Bool-cases (b || is_final_attempt r)) [
  | inl last ↦ rw last (refl, inl (refl, refl, ground arith))
  | inr more ↦ rw more (refl, inr (refl, ground arith, ground arith))
]

settled-Fate :
    (o : Outside) (now : ℕ) (there : Bool) (r : PendingTx) (e : Ended)
    → ((settled o now there r e r).attempt_count ≡ r.attempt_count + 1)
      × Fate o there r e (settled o now there r e r)
settled-Fate o now there r (succeeded tx_id) =
    elim (Bool-cases (needs_event r tx_id && not there)) [
      | inl lost ↦
          let (counted, bad) = failing-Failing now r _ false in
          rw lost (counted, inr (ground arith, ground arith, bad))
      | inr kept ↦ rw kept (refl, inl (refl, refl, refl))
    ]
settled-Fate o now there r (returned_error message) = failing-Failing now r _ _
settled-Fate o now there r (threw message) = failing-Failing now r _ false

attempted-IsTried :
    (o : Outside) (now : ℕ) (there : Bool) (r : PendingTx)
    → IsTried o there r (attempted o now there r)
unfolding attempted
attempted-IsTried o now there r =
    let (counted, fate) = settled-Fate o (handled_at o now r) there r (execute_transaction o r) in
    record { counted = counted; fate = fate }

-- A due row whose id no other row has is tried in a round where fewer than twenty due rows of other
-- ids are as old as it or older: one attempt is counted, and the row is a SUCCESS with the chain's id
-- where the execution succeeds, unless an event that has to be updated is missing; otherwise it is a
-- dead letter if the error is critical or no attempt is left, and FAILED if not.
pub process_retries-IsTried :
    (o : Outside) (now : ℕ) (r : PendingTx) (w : World)
    → rows_of r.id w.rows ≡ r ∷ []
    → is_due now r ≡ true
    → count (λ x. is_due now x && is_ahead r x) w.rows < 20
    → (a : PendingTx) × (rows_of r.id (process_retries o now w).1.rows ≡ a ∷ [])
      × IsTried o (has_event r.tx_ref w.events) r a
process_retries-IsTried o now r w h due few =
    let there = has_event r.tx_ref w.events in
    let chosen : is_among r.id (retry_batch now w.rows) ≡ true =
      is_among-rows_of r.id (retry_batch now w.rows)
      ∙ rw (retry_batch-found r now w.rows h due few) refl in
    (
      attempted o now there r,
      process_retries-attempts o now r w h ∙ rw chosen refl,
      attempted-IsTried o now there r,
    )

-- A row whose id no other row has stays as it is in a round where it is not due, or where twenty due
-- rows are older.
pub process_retries-waits :
    (o : Outside) (now : ℕ) (r : PendingTx) (w : World)
    → rows_of r.id w.rows ≡ r ∷ []
    → (is_due now r ≡ false) ⊎ (20 ≤ count (λ x. is_due now x && is_older r x) w.rows)
    → rows_of r.id (process_retries o now w).1.rows ≡ r ∷ []
process_retries-waits o now r w h reason =
    let out : rows_of r.id (retry_batch now w.rows) ≡ [] =
      elim (retry_batch-Once r.id r now w.rows h) [
        | inl nowhere ↦ nowhere
        | inr (there, due) ↦ elim reason [
          | inl early ↦ absurd cc
          | inr many ↦ retry_batch-left_out r now w.rows h due many
        ]
      ] in
    process_retries-attempts o now r w h
    ∙ rw (is_among-rows_of r.id (retry_batch now w.rows), out) refl
