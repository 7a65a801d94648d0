-- ===== src/Retry/Schedule.antt =====
-- When a failed transaction is tried again.
use qc_backend.Base.{
  ℕ, zero, suc, ◌+◌, ◌-◌, ◌*◌, ◌^◌, ◌≤◌, ◌<◌, String, some, Bool, true, false, not, ◌&&◌, ◌||◌, ◌≡◌,
  refl, ◌∙◌, ◌⊎◌, [], ◌∷◌, inl, inr, arith, Bool-cases,
}
use qc_backend.Retry.Types.{PendingTx, World, failed, success, dlq, Outside}
use qc_backend.Retry.Execution.{
  delay_ms, Ended, succeeded, returned_error, threw, execute_transaction, smaller,
}
use qc_backend.Retry.Worker.{handled_at, is_final_attempt, needs_event, postponed}
use qc_backend.Retry.Worker.{retry_batch, has_event, process_retries, postponed}
use qc_backend.Retry.Rows.{rows_of}
use qc_backend.Retry.Attempts.{failing, settled, attempted}
use qc_backend.Retry.Rounds.{is_among, process_retries-attempts}

power_positive : (n : ℕ) → 1 ≤ 2 ^ n
power_positive zero = omega arith
power_positive (suc n) = omega (arith, power_positive n)

smaller_lem : (a b lo : ℕ) → lo ≤ a → lo ≤ b → (lo ≤ smaller a b) × (smaller a b ≤ b)
smaller_lem a b lo h k = ground arith

pub delay_ms_bounds : (n : ℕ) → (60000 ≤ delay_ms n) × (delay_ms n ≤ 3600000)
unfolding delay_ms
delay_ms_bounds n =
    let big : 1 ≤ 2 ^ (n - 1) = power_positive (n - 1) in
    smaller_lem (60000 * 2 ^ (n - 1)) 3600000 60000 (omega arith) (omega arith)

-- The row waits for another attempt, which it has left, for a minute at least and an hour at most.
pub record IsWaiting (now : ℕ) (a : PendingTx) : Type 0 where
  pub again : a.status ≡ failed
  pub left_over : a.attempt_count < a.max_attempts
  pub time : ℕ
  pub planned : a.next_retry_at ≡ some time
  pub not_before : now + 60000 ≤ time
  pub not_after : time ≤ now + 3600000

-- What an attempt has made of a row: one more attempt is counted, and it has succeeded, is a dead
-- letter, or waits.
pub record IsScheduled (now : ℕ) (r a : PendingTx) : Type 0 where
  pub counted : a.attempt_count ≡ r.attempt_count + 1
  pub ended : (a.status ≡ success) ⊎ (((a.status ≡ dlq) × (a.is_dlq ≡ true)) ⊎ IsWaiting now a)

postponed-IsWaiting :
    (now : ℕ) (r : PendingTx) (message : String)
    → is_final_attempt r ≡ false
    → IsWaiting now (postponed now (r.attempt_count + 1) message r)
postponed-IsWaiting now r message more =
    let between = delay_ms_bounds (r.attempt_count + 1) in
    record {
      again = refl;
      left_over = ground arith;
      time = now + delay_ms (r.attempt_count + 1);
      planned = refl;
      not_before = omega (arith, between);
      not_after = omega (arith, between);
    }

failing-IsScheduled :
    (now : ℕ) (r : PendingTx) (message : String) (b : Bool)
    → IsScheduled now r (failing now r message b r)
failing-IsScheduled now r message b = elim (Bool-cases (b || is_final_attempt r)) [
  | inl last ↦ rw last (record { counted = refl; ended = inr (inl (refl, refl)) })
  | inr more ↦ rw more (record {
    counted = refl;
    ended = inr (inr (postponed-IsWaiting now r message (ground arith)));
  })
]

settled-IsScheduled :
    (o : Outside) (now : ℕ) (there : Bool) (r : PendingTx) (e : Ended)
    → IsScheduled now r (settled o now there r e r)
settled-IsScheduled o now there r (succeeded tx_id) =
    elim (Bool-cases (needs_event r tx_id && not there)) [
      | inl lost ↦ rw lost (failing-IsScheduled now r _ false)
      | inr kept ↦ rw kept (record { counted = refl; ended = inl refl })
    ]
settled-IsScheduled o now there r (returned_error message) = failing-IsScheduled now r _ _
settled-IsScheduled o now there r (threw message) = failing-IsScheduled now r _ false

attempted-IsScheduled :
    (o : Outside) (now : ℕ) (there : Bool) (r : PendingTx)
    → IsScheduled (handled_at o now r) r (attempted o now there r)
unfolding attempted
attempted-IsScheduled o now there r =
    settled-IsScheduled o (handled_at o now r) there r (execute_transaction o r)

-- After a round, a row of its batch whose id no other row has counts one more attempt, and it is a
-- SUCCESS, a dead letter, or FAILED with attempts left and a time for the next one, which is a
-- minute after its execution was handled at least and an hour at most.
pub process_retries-IsScheduled :
    (o : Outside) (now : ℕ) (r : PendingTx) (w : World)
    → rows_of r.id w.rows ≡ r ∷ []
    → is_among r.id (retry_batch now w.rows) ≡ true
    → (a : PendingTx) × (rows_of r.id (process_retries o now w).1.rows ≡ a ∷ [])
      × IsScheduled (handled_at o now r) r a
process_retries-IsScheduled o now r w h chosen =
    let there = has_event r.tx_ref w.events in
    (
      attempted o now there r,
      process_retries-attempts o now r w h ∙ rw chosen refl,
      attempted-IsScheduled o now there r,
    )
