-- ===== src/Retry/Oldest.antt =====
-- The order of a round: its batch holds the oldest of the due rows (RetryWorker.ts, the query of
-- `processRetries`).
use qc_backend.Base.{
  ℕ, zero, suc, ◌+◌, ◌≤◌, ◌<◌, List, [], ◌∷◌, Bool, true, not, ◌&&◌, leb, ltb, ◌≡◌, refl, ◌∙◌, ap,
  inl, inr, All, select, take, ◌==◌, if◌then◌else◌, nat_has_eq, arith, Bool-cases,
}
use qc_backend.Retry.Types.{PendingTx}
use qc_backend.Retry.Worker.{is_due, insert_by_age, sort_by_age, retry_batch}
use qc_backend.Retry.Rows.{rows_of, rows_of-select, rows_of-sort_one, rows_of-take_none}

-- How many rows pass the test.
abbrev pub count : (PendingTx → Bool) → List PendingTx → ℕ
count p [] = 0
count p (x ∷ xs) = (if p x then 1 else 0) + count p xs

count-insert :
    (p : PendingTx → Bool) (t : PendingTx) (xs : List PendingTx)
    → count p (insert_by_age t xs) ≡ (if p t then 1 else 0) + count p xs
count-insert p t [] = refl
count-insert p t (x ∷ xs) = elim (Bool-cases (leb t.created_at x.created_at)) [
  | inl older ↦ rw older refl
  | inr newer ↦ rw newer (omega (arith, count-insert p t xs))
]

count-sort : (p : PendingTx → Bool) (xs : List PendingTx) → count p (sort_by_age xs) ≡ count p xs
count-sort p [] = refl
count-sort p (x ∷ xs) = omega (arith, count-insert p x (sort_by_age xs), count-sort p xs)

count-select :
    (p q : PendingTx → Bool) (xs : List PendingTx)
    → count p (select q xs) ≡ count (λ x. q x && p x) xs
count-select p q [] = refl
count-select p q (x ∷ xs) = elim (Bool-cases (q x)) [
  | inl good ↦ rw good (omega (arith, count-select p q xs))
  | inr bad ↦ rw bad (omega (arith, count-select p q xs))
]

abbrev IsSorted : List PendingTx → Type 0
IsSorted [] = Unit
IsSorted (x ∷ xs) = All (λ y. x.created_at ≤ y.created_at) xs × IsSorted xs

All-insert :
    (n : ℕ) (t : PendingTx) (xs : List PendingTx)
    → n ≤ t.created_at
    → All (λ y. n ≤ y.created_at) xs
    → All (λ y. n ≤ y.created_at) (insert_by_age t xs)
All-insert n t [] h k = (h, tt)
All-insert n t (x ∷ xs) h k = elim (Bool-cases (leb t.created_at x.created_at)) [
  | inl older ↦ rw older (h, k)
  | inr newer ↦ rw newer (k.0, All-insert n t xs h k.1)
]

All-older :
    (m n : ℕ) (xs : List PendingTx)
    → m ≤ n
    → All (λ y. n ≤ y.created_at) xs
    → All (λ y. m ≤ y.created_at) xs
All-older m n [] h k = tt
All-older m n (x ∷ xs) h k = (omega (arith, k.0), All-older m n xs h k.1)

insert-IsSorted :
    (t : PendingTx) (xs : List PendingTx) → IsSorted xs → IsSorted (insert_by_age t xs)
insert-IsSorted t [] h = (tt, tt)
insert-IsSorted t (x ∷ xs) h = elim (Bool-cases (leb t.created_at x.created_at)) [
  | inl older ↦
      let before : t.created_at ≤ x.created_at = ground arith in
      rw older ((before, All-older t.created_at x.created_at xs before h.0), h)
  | inr newer ↦ rw newer (All-insert x.created_at t xs (ground arith) h.0, insert-IsSorted t xs h.1)
]

sort-IsSorted : (xs : List PendingTx) → IsSorted (sort_by_age xs)
sort-IsSorted [] = tt
sort-IsSorted (x ∷ xs) = insert-IsSorted x (sort_by_age xs) (sort-IsSorted xs)

module _ (r : PendingTx) where
  All-found :
      (n : ℕ) (xs : List PendingTx)
      → All (λ y. n ≤ y.created_at) xs
      → rows_of r.id xs ≡ r ∷ []
      → n ≤ r.created_at
  All-found n [] h k = absurd cc
  All-found n (x ∷ xs) h k = elim (Bool-cases (x.id == r.id)) [
    | inl own ↦
        let found : x ∷ rows_of r.id xs ≡ r ∷ [] = (rw own at k) in
        let same : x ≡ r = cc in rw (ap (λ y. y.created_at) same) at h.0
    | inr other ↦ All-found n xs h.1 (rw other at k)
  ]

  -- Another row, which is as old as this one at least.
  abbrev pub is_ahead : PendingTx → Bool
  is_ahead x = not (x.id == r.id) && leb x.created_at r.created_at

  -- A row that is older than this one.
  abbrev pub is_older : PendingTx → Bool
  is_older x = ltb x.created_at r.created_at

  take-found :
      (n : ℕ) (xs : List PendingTx)
      → IsSorted xs
      → rows_of r.id xs ≡ r ∷ []
      → count is_ahead xs < n
      → rows_of r.id (take n xs) ≡ r ∷ []
  take-found zero xs h k few = absurd (omega arith)
  take-found (suc n) [] h k few = cc
  take-found (suc n) (x ∷ xs) h k few = elim (Bool-cases (x.id == r.id)) [
    | inl own ↦
        let found : x ∷ rows_of r.id xs ≡ r ∷ [] = (rw own at k) in
        let empty : rows_of r.id xs ≡ [] = cc in
        let same : x ∷ [] ≡ r ∷ [] = cc in rw (own, rows_of-take_none r.id n xs empty) same
    | inr other ↦
        let later : rows_of r.id xs ≡ r ∷ [] = (rw other at k) in
        let older : x.created_at ≤ r.created_at = All-found x.created_at xs h.0 later in
        rw other (take-found n xs h.1 later (ground arith))
  ]

  count-newer :
      (xs : List PendingTx) → All (λ y. r.created_at ≤ y.created_at) xs → count is_older xs ≡ 0
  count-newer [] h = refl
  count-newer (x ∷ xs) h = let rest = count-newer xs h.1 in let first = h.0 in ground arith

  take-left_out :
      (n : ℕ) (xs : List PendingTx)
      → IsSorted xs
      → rows_of r.id xs ≡ r ∷ []
      → n ≤ count is_older xs
      → rows_of r.id (take n xs) ≡ []
  take-left_out zero xs h k many = refl
  take-left_out (suc n) [] h k many = absurd (omega arith)
  take-left_out (suc n) (x ∷ xs) h k many = elim (Bool-cases (x.id == r.id)) [
    | inl own ↦
        let found : x ∷ rows_of r.id xs ≡ r ∷ [] = (rw own at k) in
        let whole : x ≡ r = cc in
        let same : x.created_at ≡ r.created_at = ap (λ (y : PendingTx). y.created_at) whole in
        let rest = count-newer xs (rw same at h.0) in absurd (ground arith)
    | inr other ↦ rw other (take-left_out n xs h.1 (rw other at k) (ground arith))
  ]

  due-found :
      (now : ℕ) (rows : List PendingTx)
      → rows_of r.id rows ≡ r ∷ []
      → is_due now r ≡ true
      → rows_of r.id (sort_by_age (select (is_due now) rows)) ≡ r ∷ []
  due-found now rows h due =
      rows_of-sort_one r.id r (select (is_due now) rows)
        (rows_of-select r.id (is_due now) rows ∙ rw (h, due) refl)

  -- A due row that fewer than twenty others precede is in the batch.
  pub retry_batch-found :
      (now : ℕ) (rows : List PendingTx)
      → rows_of r.id rows ≡ r ∷ []
      → is_due now r ≡ true
      → count (λ x. is_due now x && is_ahead x) rows < 20
      → rows_of r.id (retry_batch now rows) ≡ r ∷ []
  unfolding retry_batch
  retry_batch-found now rows h due few =
      let chosen = select (is_due now) rows in
      take-found 20 (sort_by_age chosen) (sort-IsSorted chosen) (due-found now rows h due)
        (omega (arith, count-sort is_ahead chosen, count-select is_ahead (is_due now) rows, few))

  -- A due row that twenty others precede is not.
  pub retry_batch-left_out :
      (now : ℕ) (rows : List PendingTx)
      → rows_of r.id rows ≡ r ∷ []
      → is_due now r ≡ true
      → 20 ≤ count (λ x. is_due now x && is_older x) rows
      → rows_of r.id (retry_batch now rows) ≡ []
  unfolding retry_batch
  retry_batch-left_out now rows h due many =
      let chosen = select (is_due now) rows in
      take-left_out 20 (sort_by_age chosen) (sort-IsSorted chosen) (due-found now rows h due)
        (omega (arith, count-sort is_older chosen, count-select is_older (is_due now) rows, many))
