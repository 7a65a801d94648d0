-- ===== src/Retry/Resting.antt =====
-- A row that is not to be tried is left alone for good.
use qc_backend.Base.{
  ℕ, List, [], ◌∷◌, true, false, ◌≡◌, refl, ◌∙◌, ap, inl, inr, any, map, nat_eq, ltb, nat_has_eq,
  arith, Bool-cases, nat_eq_iff,
}
use qc_backend.Retry.Types.{PendingTx, World, Outside}
use qc_backend.Retry.Worker.{
  process_each, with_rows, locked, is_retryable, is_free, retry_batch, Tally, handled_at,
  process_one, process_retries, enqueue,
}
use qc_backend.Retry.Rows.{rows_of, retry_batch-Once, any-is_free_one}
use qc_backend.Retry.Execution.{execute_transaction}
use qc_backend.Retry.Attempts.{process_one-skipped, process_one-locked, after_execution-next_id}
use qc_backend.Retry.Rounds.{
  is_among, is_among-rows_of, process_one-others, process_retries-attempts,
}
use qc_backend.Retry.Steps.{Step, no_tally, run_step, run_steps}

-- The row is the one with its id, which the queue has drawn.
abbrev pub IsRow : PendingTx → World → Type 0
IsRow r w = (rows_of r.id w.rows ≡ r ∷ []) × (ltb r.id w.next_id ≡ true)

pub resting-out :
    (now : ℕ) (r : PendingTx) (w : World)
    → rows_of r.id w.rows ≡ r ∷ []
    → is_retryable r.status ≡ false
    → is_among r.id (retry_batch now w.rows) ≡ false
resting-out now r w h rests = elim (retry_batch-Once r.id r now w.rows h) [
  | inl out ↦ is_among-rows_of r.id (retry_batch now w.rows) ∙ rw out refl
  | inr (there, due) ↦ absurd (ground arith)
]

attempt_resting :
    (o : Outside) (now : ℕ) (t r : PendingTx) (c : Tally) (w : World)
    → rows_of r.id w.rows ≡ r ∷ []
    → is_retryable r.status ≡ false
    → rows_of r.id (process_one o now t (c, w)).1.rows ≡ r ∷ []
attempt_resting o now t r c w h rests = elim (Bool-cases (nat_eq t.id r.id)) [
  | inr other ↦ process_one-others o now r.id t c w other ∙ h
  | inl own ↦
      let same : t.id ≡ r.id = (nat_eq_iff t.id r.id).0 own in
      let taken : any (is_free t.id) w.rows ≡ false =
        ap (λ id. any (is_free id) w.rows) same ∙ any-is_free_one r.id r w.rows h ∙ rests in
      ap (λ s. rows_of r.id s.1.rows) (process_one-skipped o now t c w taken) ∙ h
]

process_one-next_id :
    (o : Outside) (now : ℕ) (t : PendingTx) (c : Tally) (w : World)
    → (process_one o now t (c, w)).1.next_id ≡ w.next_id
process_one-next_id o now t c w = elim (Bool-cases (any (is_free t.id) w.rows)) [
  | inr taken ↦ rw (process_one-skipped o now t c w taken) refl
  | inl free ↦ rw (process_one-locked o now t c w free) (
      after_execution-next_id o (handled_at o now t) t (execute_transaction o t) c
        (with_rows (map (locked t.id)) w))
]

process_each-next_id :
    (o : Outside) (now : ℕ) (ts : List PendingTx) (s : Tally × World)
    → (process_each o now ts s).1.next_id ≡ s.1.next_id
unfolding process_each
process_each-next_id o now [] s = refl
process_each-next_id o now (t ∷ ts) (c, w) =
    process_each-next_id o now ts (process_one o now t (c, w)) ∙ process_one-next_id o now t c w

run_step-IsRow :
    (o : Outside) (r : PendingTx) (s : Step) (w : World)
    → IsRow r w
    → is_retryable r.status ≡ false
    → IsRow r (run_step o s w)
unfolding run_step process_retries enqueue
run_step-IsRow o r (Step.round now) w (h, drawn) rests = (
  process_retries-attempts o now r w h ∙ rw (resting-out now r w h rests) refl,
  ap (λ n. ltb r.id n) (process_each-next_id o now (retry_batch now w.rows) _) ∙ drawn,
)
run_step-IsRow o r (Step.attempt now t) w (h, drawn) rests = (
  attempt_resting o now t r no_tally w h rests,
  ap (λ n. ltb r.id n) (process_one-next_id o now t no_tally w) ∙ drawn,
)
run_step-IsRow o r (Step.add now tenant tx_ref tx_type chain payload error) w (h, drawn) rests =
    let new : nat_eq w.next_id r.id ≡ false = ground arith in (rw new h, ground arith)

-- A transaction that is a SUCCESS or a dead letter, and one in PROCESSING too, is never tried or
-- changed again, whatever rounds run, whatever other workers attempt from rows that they have read
-- before, and whatever is added, if its row is the one with its id, which has been drawn.
pub run_steps-IsRow :
    (o : Outside) (r : PendingTx) (ss : List Step) (w : World)
    → IsRow r w
    → is_retryable r.status ≡ false
    → IsRow r (run_steps o ss w)
unfolding run_steps
run_steps-IsRow o r [] w h rests = h
run_steps-IsRow o r (s ∷ ss) w h rests =
    run_steps-IsRow o r ss (run_step o s w) (run_step-IsRow o r s w h rests) rests
