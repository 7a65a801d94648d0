-- ===== src/Retry/Rounds.antt =====
-- A round as a whole: each row of the batch is tried once, all others stay.
use qc_backend.Base.{
  ℕ, String, List, [], ◌∷◌, Bool, true, false, not, ◌&&◌, ◌||◌, ◌≡◌, refl, ◌∙◌, ap, inl, inr, any,
  map, nat_eq, ◌==◌, if◌then◌else◌, nat_has_eq, arith, Bool-cases, length,
}
use qc_backend.Retry.Types.{PendingTx, World, Outside, processing}
use qc_backend.Retry.Execution.{Ended, succeeded, returned_error, threw, execute_transaction}
use qc_backend.Retry.Worker.{
  is_retryable, is_due, retry_batch, on_row, with_rows, is_final_attempt, Tally, has_event,
  needs_event, is_free, locked, handled_at, process_one, process_each, process_retries,
}
use qc_backend.Retry.Rows.{
  rows_of, nat_eq_self, rows_of-map, rows_of-unchanged, retry_batch-Once, any-is_free_one,
}
use qc_backend.Retry.Attempts.{
  failing, settled, attempted, after_execution-rows, after_execution-events, process_one-locked,
  process_one-skipped,
}

abbrev in_progress : PendingTx → PendingTx
in_progress r = record r { status = processing }

-- An attempt keeps the id of a row, and whether the row is locked makes no difference to it.
failing_lem :
    (now : ℕ) (t : PendingTx) (message : String) (b : Bool) (r : PendingTx)
    → ((failing now t message b r).id ≡ r.id)
      × (failing now t message b (in_progress r) ≡ failing now t message b r)
failing_lem now t message b r = elim (Bool-cases (b || is_final_attempt t)) [
  | inl last ↦ rw last (refl, refl)
  | inr more ↦ rw more (refl, refl)
]

settled_lem :
    (o : Outside) (now : ℕ) (b : Bool) (t : PendingTx) (e : Ended) (r : PendingTx)
    → ((settled o now b t e r).id ≡ r.id)
      × (settled o now b t e (in_progress r) ≡ settled o now b t e r)
settled_lem o now b t (succeeded tx_id) r = elim (Bool-cases (needs_event t tx_id && not b)) [
  | inl lost ↦ rw lost (failing_lem now t _ false r)
  | inr kept ↦ rw kept (refl, refl)
]
settled_lem o now b t (returned_error message) r = failing_lem now t _ _ r
settled_lem o now b t (threw message) r = failing_lem now t _ false r

locked-id : (key : ℕ) (r : PendingTx) → (locked key r).id ≡ r.id
locked-id key r = elim (Bool-cases (is_free key r)) [
  | inl free ↦ rw free refl
  | inr taken ↦ rw taken refl
]

on_row-id :
    (key : ℕ) (f : PendingTx → PendingTx) (r : PendingTx)
    → (f r).id ≡ r.id
    → (on_row key f r).id ≡ r.id
on_row-id key f r same = elim (Bool-cases (r.id == key)) [
  | inl own ↦ rw own same
  | inr other ↦ rw other refl
]

other_key : (a b c : ℕ) → nat_eq a b ≡ false → nat_eq c b ≡ true → nat_eq c a ≡ false
other_key a b c h k = ground arith

module _ (o : Outside) (now : ℕ) where
  -- A step of a round leaves the rows of other ids.
  pub process_one-others :
      (id : ℕ) (t : PendingTx) (c : Tally) (w : World)
      → nat_eq t.id id ≡ false
      → rows_of id (process_one o now t (c, w)).1.rows ≡ rows_of id w.rows
  process_one-others id t c w h = elim (Bool-cases (any (is_free t.id) w.rows)) [
    | inr taken ↦ rw (process_one-skipped o now t c w taken) refl
    | inl free ↦
        let e = execute_transaction o t in
        let f = settled o (handled_at o now t) (has_event t.tx_ref w.events) t e in
        rw
          (
            process_one-locked o now t c w free,
            after_execution-rows o (handled_at o now t) t e c (with_rows (map (locked t.id)) w),
          )
          (rows_of-unchanged id (on_row t.id f) (map (locked t.id) w.rows)
              (λ x. on_row-id t.id f x (settled_lem o (handled_at o now t) _ t e x).0)
              (λ x own. rw (other_key t.id id x.id h own) refl)
            ∙ rows_of-unchanged id (locked t.id) w.rows (locked-id t.id)
                (λ x own. rw (other_key t.id id x.id h own) refl))
  ]

  -- A step of a round is an attempt at the row it is about.
  process_one_self :
      (t : PendingTx) (c : Tally) (w : World)
      → rows_of t.id w.rows ≡ t ∷ []
      → is_retryable t.status ≡ true
      → rows_of t.id (process_one o now t (c, w)).1.rows
        ≡ attempted o now (has_event t.tx_ref w.events) t ∷ []
  unfolding attempted
  process_one_self t c w h ready =
      let free : any (is_free t.id) w.rows ≡ true = any-is_free_one t.id t w.rows h ∙ ready in
      let e = execute_transaction o t in
      let f = settled o (handled_at o now t) (has_event t.tx_ref w.events) t e in
      rw
        (
          process_one-locked o now t c w free,
          after_execution-rows o (handled_at o now t) t e c (with_rows (map (locked t.id)) w),
        )
        (rows_of-map t.id (on_row t.id f) (map (locked t.id) w.rows)
            (λ x. on_row-id t.id f x (settled_lem o (handled_at o now t) _ t e x).0)
          ∙ ap (map (on_row t.id f)) (rows_of-map t.id (locked t.id) w.rows (locked-id t.id))
          ∙ rw (h, nat_eq_self t.id, ready, nat_eq_self t.id)
              (ap (λ x. x ∷ [])
                (settled_lem o (handled_at o now t) (has_event t.tx_ref w.events) t e t).1))

  process_one-events :
      (t : PendingTx) (c : Tally) (w : World) (x : String)
      → has_event x (process_one o now t (c, w)).1.events ≡ has_event x w.events
  process_one-events t c w x = elim (Bool-cases (any (is_free t.id) w.rows)) [
    | inr taken ↦ rw (process_one-skipped o now t c w taken) refl
    | inl free ↦ rw (process_one-locked o now t c w free) (
        after_execution-events o (handled_at o now t) t (execute_transaction o t) c
          (with_rows (map (locked t.id)) w) x)
  ]

  process_each-others :
      (id : ℕ) (ts : List PendingTx) (s : Tally × World)
      → rows_of id ts ≡ []
      → rows_of id (process_each o now ts s).1.rows ≡ rows_of id s.1.rows
  unfolding process_each
  process_each-others id [] s h = refl
  process_each-others id (t ∷ ts) (c, w) h = elim (Bool-cases (t.id == id)) [
    | inl own ↦ let found : t ∷ rows_of id ts ≡ [] = (rw own at h) in cc
    | inr other ↦
        process_each-others id ts (process_one o now t (c, w)) (rw other at h)
        ∙ process_one-others id t c w other
  ]

  process_each_self :
      (r : PendingTx) (ts : List PendingTx) (s : Tally × World)
      → is_retryable r.status ≡ true
      → rows_of r.id s.1.rows ≡ r ∷ []
      → rows_of r.id ts ≡ r ∷ []
      → rows_of r.id (process_each o now ts s).1.rows
        ≡ attempted o now (has_event r.tx_ref s.1.events) r ∷ []
  unfolding process_each
  process_each_self r [] s ready h k = cc
  process_each_self r (t ∷ ts) (c, w) ready h k = elim (Bool-cases (t.id == r.id)) [
    | inl own ↦
        let found : t ∷ rows_of r.id ts ≡ r ∷ [] = (rw own at k) in
        let rest : rows_of r.id ts ≡ [] = cc in
        let same : t ≡ r = cc in
        process_each-others r.id ts (process_one o now t (c, w)) rest
        ∙ ap (λ x. rows_of r.id (process_one o now x (c, w)).1.rows) same
        ∙ process_one_self r c w h ready
    | inr other ↦
        process_each_self r ts (process_one o now t (c, w)) ready
          (process_one-others r.id t c w other ∙ h) (rw other at k)
        ∙ ap (λ b. attempted o now b r ∷ []) (process_one-events t c w r.tx_ref)
  ]

abbrev pub is_among : ℕ → List PendingTx → Bool
is_among id ts = any (λ t. t.id == id) ts

pub is_among-rows_of :
    (id : ℕ) (ts : List PendingTx) → is_among id ts ≡ any (λ t. true) (rows_of id ts)
is_among-rows_of id [] = refl
is_among-rows_of id (t ∷ ts) = let rest = is_among-rows_of id ts in ground arith

is_due-is_retryable : (now : ℕ) (r : PendingTx) → is_due now r ≡ true → is_retryable r.status ≡ true
is_due-is_retryable now r h = ground arith

-- A row whose id no other row has becomes what `attempted` makes of it if it is in the round's
-- batch; otherwise it stays as it is.
pub process_retries-attempts :
    (o : Outside) (now : ℕ) (r : PendingTx) (w : World)
    → rows_of r.id w.rows ≡ r ∷ []
    → rows_of r.id (process_retries o now w).1.rows
      ≡ (if is_among r.id (retry_batch now w.rows)
          then attempted o now (has_event r.tx_ref w.events) r
          else r)
        ∷ []
unfolding process_retries
process_retries-attempts o now r w h =
    let batch = retry_batch now w.rows in
    let start : Tally = record { processed = length batch; succeeded = 0; failed = 0; dlq = 0 } in
    elim (retry_batch-Once r.id r now w.rows h) [
      | inl out ↦
          rw (is_among-rows_of r.id batch, out)
            (process_each-others o now r.id batch (start, w) out ∙ h)
      | inr (there, due) ↦
          rw (is_among-rows_of r.id batch, there)
            (process_each_self o now r batch (start, w) (is_due-is_retryable now r due) h there)
    ]
