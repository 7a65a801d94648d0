-- ===== src/Retry/Patience.antt =====
-- A transaction that keeps failing ends among the dead letters.
use qc_backend.Base.{
  ℕ, zero, suc, ◌+◌, ◌≤◌, String, List, [], ◌∷◌, Bool, true, false, ◌||◌, ◌≡◌, refl, ◌∙◌, ap, inl,
  inr, any, length, map, select, take, nat_has_eq, arith, Bool-cases,
}
use qc_backend.Retry.Types.{PendingTx, dlq, World, Outside}
use qc_backend.Retry.Execution.{
  Ended, succeeded, returned_error, threw, execute_transaction, max_delay_ms, is_critical_error,
}
use qc_backend.Retry.Worker.{
  is_due, is_free, insert_by_age, sort_by_age, retry_batch, with_rows, locked, is_final_attempt,
  message_or_unknown, Tally, has_event, handled_at, process_one, process_each, process_retries,
  dead, postponed, is_retryable,
}
use qc_backend.Retry.Rows.{rows_of, rows_of-select, rows_of-sort_one}
use qc_backend.Retry.Attempts.{
  failing, settled, attempted, after_execution-rows, process_one-locked, process_one-skipped,
}
use qc_backend.Retry.Rounds.{is_among, is_among-rows_of, process_retries-attempts}
use qc_backend.Retry.Schedule.{delay_ms_bounds}
use qc_backend.Retry.Resting.{resting-out}

abbrev pub is_failure : Ended → Bool
is_failure (succeeded tx_id) = false
is_failure (returned_error message) = true
is_failure (threw message) = true

-- Rounds an hour apart, and as much longer as a round's handling takes at most.
unfoldable pub hourly_rounds : Outside → ℕ → ℕ → ℕ → World → World
hourly_rounds o longest zero now w = w
hourly_rounds o longest (suc n) now w =
    hourly_rounds o longest n (now + longest + max_delay_ms) (process_retries o now w).1

length-map : (f : PendingTx → PendingTx) (xs : List PendingTx) → length (map f xs) ≡ length xs
length-map f [] = refl
length-map f (x ∷ xs) = ap suc (length-map f xs)

length-insert :
    (t : PendingTx) (xs : List PendingTx) → length (insert_by_age t xs) ≡ suc (length xs)
length-insert t [] = refl
length-insert t (x ∷ xs) = let rest = length-insert t xs in ground arith

length-sort : (xs : List PendingTx) → length (sort_by_age xs) ≡ length xs
length-sort [] = refl
length-sort (x ∷ xs) = length-insert x (sort_by_age xs) ∙ ap suc (length-sort xs)

length-select : (p : PendingTx → Bool) (xs : List PendingTx) → length (select p xs) ≤ length xs
length-select p [] = omega arith
length-select p (x ∷ xs) = let rest = length-select p xs in ground arith

take_all : (n : ℕ) (xs : List PendingTx) → length xs ≤ n → take n xs ≡ xs
take_all zero [] h = refl
take_all zero (x ∷ xs) h = absurd (omega arith)
take_all (suc n) [] h = refl
take_all (suc n) (x ∷ xs) h = ap (λ ys. x ∷ ys) (take_all n xs (omega arith))

process_one-length :
    (o : Outside) (now : ℕ) (t : PendingTx) (c : Tally) (w : World)
    → length (process_one o now t (c, w)).1.rows ≡ length w.rows
process_one-length o now t c w = elim (Bool-cases (any (is_free t.id) w.rows)) [
  | inr taken ↦ rw (process_one-skipped o now t c w taken) refl
  | inl free ↦
      let e = execute_transaction o t in
      ap (λ s. length s.1.rows) (process_one-locked o now t c w free)
      ∙ ap length
          (after_execution-rows o (handled_at o now t) t e c (with_rows (map (locked t.id)) w))
      ∙ length-map _ (map (locked t.id) w.rows)
      ∙ length-map (locked t.id) w.rows
]

process_each-length :
    (o : Outside) (now : ℕ) (ts : List PendingTx) (s : Tally × World)
    → length (process_each o now ts s).1.rows ≡ length s.1.rows
unfolding process_each
process_each-length o now [] s = refl
process_each-length o now (t ∷ ts) (c, w) =
    process_each-length o now ts (process_one o now t (c, w)) ∙ process_one-length o now t c w

process_retries-length :
    (o : Outside) (now : ℕ) (w : World) → length (process_retries o now w).1.rows ≡ length w.rows
unfolding process_retries
process_retries-length o now w = process_each-length o now (retry_batch now w.rows) _

-- In a queue of at most twenty rows, all due rows are in the batch.
due-among :
    (now : ℕ) (r : PendingTx) (rows : List PendingTx)
    → length rows ≤ 20
    → rows_of r.id rows ≡ r ∷ []
    → is_due now r ≡ true
    → is_among r.id (retry_batch now rows) ≡ true
unfolding retry_batch
due-among now r rows few h due =
    let chosen = select (is_due now) rows in
    let fit : length (sort_by_age chosen) ≤ 20 =
      omega (arith, length-sort chosen, length-select (is_due now) rows, few) in
    let there : rows_of r.id (sort_by_age chosen) ≡ r ∷ [] =
      rows_of-sort_one r.id r chosen (rows_of-select r.id (is_due now) rows ∙ rw (h, due) refl) in
    is_among-rows_of r.id (take 20 (sort_by_age chosen))
    ∙ rw (take_all 20 (sort_by_age chosen) fit, there) refl

-- The row with the id of this one is among the dead letters.
pub record IsDead (id : ℕ) (w : World) : Type 0 where
  pub row : PendingTx
  pub found : rows_of id w.rows ≡ row ∷ []
  pub status : row.status ≡ dlq
  pub flagged : row.is_dlq ≡ true

-- The handling of an outcome ends within this time after the query.
abbrev pub IsWithin : Outside → ℕ → Type 0
IsWithin o longest = (now : ℕ) (t : PendingTx) → o.elapsed now t ≤ longest

module _ (o : Outside) (longest : ℕ) where
  hourly_rounds-resting :
      (n now : ℕ) (r : PendingTx) (w : World)
      → rows_of r.id w.rows ≡ r ∷ []
      → is_retryable r.status ≡ false
      → rows_of r.id (hourly_rounds o longest n now w).rows ≡ r ∷ []
  unfolding hourly_rounds
  hourly_rounds-resting zero now r w h rests = h
  hourly_rounds-resting (suc n) now r w h rests =
      hourly_rounds-resting n (now + longest + 3600000) r (process_retries o now w).1
        (process_retries-attempts o now r w h ∙ rw (resting-out now r w h rests) refl) rests

  -- What a failing row is after one attempt, in terms of its error.
  settled-failure :
      (now : ℕ) (b : Bool) (r : PendingTx) (e : Ended)
      → is_failure e ≡ true
      → (message : String) × (c : Bool) × (settled o now b r e r ≡ failing now r message c r)
  settled-failure now b r (succeeded tx_id) bad = absurd cc
  settled-failure now b r (returned_error message) bad =
      (message_or_unknown message, is_critical_error o (message_or_unknown message), refl)
  settled-failure now b r (threw message) bad = (message_or_unknown message, false, refl)

  same_execution :
      (now n : ℕ) (message : String) (r : PendingTx)
      → execute_transaction o (postponed now n message r) ≡ execute_transaction o r
  unfolding execute_transaction
  same_execution now n message r = refl

  attempted_lem :
      (now : ℕ) (b : Bool) (r : PendingTx)
      → attempted o now b r ≡ settled o (handled_at o now r) b r (execute_transaction o r) r
  unfolding attempted
  attempted_lem now b r = refl

  postponed-is_due :
      (now : ℕ) (message : String) (r : PendingTx)
      → o.elapsed now r ≤ longest
      → is_due now r ≡ true
      → is_due
          (now + longest + 3600000)
          (postponed (handled_at o now r) (r.attempt_count + 1) message r)
        ≡ true
  postponed-is_due now message r soon due =
      let short = delay_ms_bounds (r.attempt_count + 1) in ground arith

  -- Let the outcomes be handled within some time after a round's query, and the rounds be an hour and
  -- that time apart. In a queue of at most twenty rows, a transaction that is due, whose id no other
  -- row has and whose execution always fails, is among the dead letters after as many rounds as it
  -- has attempts left, if it has one.
  pub hourly_rounds-IsDead :
      (n now : ℕ) (r : PendingTx) (w : World)
      → IsWithin o longest
      → rows_of r.id w.rows ≡ r ∷ []
      → length w.rows ≤ 20
      → is_due now r ≡ true
      → is_failure (execute_transaction o r) ≡ true
      → r.attempt_count + n ≡ r.max_attempts
      → 1 ≤ n
      → IsDead r.id (hourly_rounds o longest n now w)
  unfolding hourly_rounds
  hourly_rounds-IsDead zero now r w within h few due bad enough some_left = absurd (omega arith)
  hourly_rounds-IsDead (suc n) now r w within h few due bad enough some_left =
      let there = has_event r.tx_ref w.events in
      let w' = (process_retries o now w).1 in
      let (message, c, same) =
        settled-failure (handled_at o now r) there r (execute_transaction o r) bad in
      let tried : rows_of r.id w'.rows ≡ failing (handled_at o now r) r message c r ∷ [] =
        process_retries-attempts o now r w h
        ∙ rw (due-among now r w.rows few h due)
            (ap (λ x. x ∷ []) (attempted_lem now there r ∙ same)) in
      elim (Bool-cases (c || is_final_attempt r)) [
        | inl last ↦
            let letter = dead (handled_at o now r) (r.attempt_count + 1) message r in
            let first : rows_of r.id w'.rows ≡ letter ∷ [] = tried ∙ rw last refl in
            record {
              row = letter;
              found = hourly_rounds-resting n (now + longest + 3600000) letter w' first refl;
              status = refl;
              flagged = refl;
            }
        | inr more ↦
            let waiting = postponed (handled_at o now r) (r.attempt_count + 1) message r in
            let first : rows_of r.id w'.rows ≡ waiting ∷ [] = tried ∙ rw more refl in
            hourly_rounds-IsDead n (now + longest + 3600000) waiting w' within first
              (omega (arith, process_retries-length o now w, few))
              (postponed-is_due now message r (within now r) due)
              (ap is_failure (same_execution (handled_at o now r) (r.attempt_count + 1) message r)
                ∙ bad)
              (omega arith) (ground arith)
      ]
