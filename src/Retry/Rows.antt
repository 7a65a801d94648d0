-- ===== src/Retry/Rows.antt =====
-- The rows with an id, through the queries and updates of the worker.
use qc_backend.Base.{
  ℕ, zero, suc, List, [], ◌∷◌, Bool, true, false, ◌≡◌, refl, ◌∙◌, ap, ap₂, ◌⊎◌, inl, inr, any, map,
  select, take, nat_eq, nat_eq_iff, ◌==◌, nat_has_eq, arith, Bool-cases,
}
use qc_backend.Retry.Types.{PendingTx}
use qc_backend.Retry.Worker.{is_retryable, is_due, insert_by_age, sort_by_age, retry_batch, is_free}

abbrev pub rows_of : ℕ → List PendingTx → List PendingTx
rows_of id rows = select (λ r. r.id == id) rows

pub nat_eq_self : (n : ℕ) → nat_eq n n ≡ true
nat_eq_self n = (nat_eq_iff n n).1 refl

module _ (id : ℕ) where
  pub rows_of-select :
      (p : PendingTx → Bool) (xs : List PendingTx)
      → rows_of id (select p xs) ≡ select p (rows_of id xs)
  rows_of-select p [] = refl
  rows_of-select p (x ∷ xs) =
      let rest = rows_of-select p xs in
      elim (Bool-cases (p x)) [
        | inl good ↦ elim (Bool-cases (x.id == id)) [
          | inl own ↦ rw (good, own, good) (ap (λ ys. x ∷ ys) rest)
          | inr other ↦ rw (good, other) rest
        ]
        | inr bad ↦ elim (Bool-cases (x.id == id)) [
          | inl own ↦ rw (bad, own, bad) rest
          | inr other ↦ rw (bad, other) rest
        ]
      ]

  -- Rows that keep their ids keep their places.
  pub rows_of-map :
      (f : PendingTx → PendingTx) (xs : List PendingTx)
      → ((x : PendingTx) → (f x).id ≡ x.id)
      → rows_of id (map f xs) ≡ map f (rows_of id xs)
  rows_of-map f [] same = refl
  rows_of-map f (x ∷ xs) same =
      let rest = rows_of-map f xs same in
      let still : nat_eq (f x).id id ≡ nat_eq x.id id = ap (λ n. nat_eq n id) (same x) in
      elim (Bool-cases (x.id == id)) [
        | inl own ↦ rw (still, own) (ap (λ ys. f x ∷ ys) rest)
        | inr other ↦ rw (still, other) rest
      ]

  rows_of-insert_other :
      (t : PendingTx) (xs : List PendingTx)
      → nat_eq t.id id ≡ false
      → rows_of id (insert_by_age t xs) ≡ rows_of id xs
  rows_of-insert_other t [] h = rw h refl
  rows_of-insert_other t (x ∷ xs) h = let rest = rows_of-insert_other t xs h in ground arith

  rows_of-insert_own :
      (t : PendingTx) (xs : List PendingTx)
      → nat_eq t.id id ≡ true
      → rows_of id xs ≡ []
      → rows_of id (insert_by_age t xs) ≡ t ∷ []
  rows_of-insert_own t [] h none = rw h refl
  rows_of-insert_own t (x ∷ xs) h none = elim (Bool-cases (x.id == id)) [
    | inl own ↦ let found : x ∷ rows_of id xs ≡ [] = (rw own at none) in cc
    | inr other ↦
        let rest = rows_of-insert_own t xs h (rw other at none) in
        let empty : rows_of id xs ≡ [] = (rw other at none) in ground arith
  ]

  rows_of-sort_none : (xs : List PendingTx) → rows_of id xs ≡ [] → rows_of id (sort_by_age xs) ≡ []
  rows_of-sort_none [] h = refl
  rows_of-sort_none (x ∷ xs) h = elim (Bool-cases (x.id == id)) [
    | inl own ↦ let found : x ∷ rows_of id xs ≡ [] = (rw own at h) in cc
    | inr other ↦
        rows_of-insert_other x (sort_by_age xs) other ∙ rows_of-sort_none xs (rw other at h)
  ]

  pub rows_of-sort_one :
      (r : PendingTx) (xs : List PendingTx)
      → rows_of id xs ≡ r ∷ []
      → rows_of id (sort_by_age xs) ≡ r ∷ []
  rows_of-sort_one r [] h = cc
  rows_of-sort_one r (x ∷ xs) h = elim (Bool-cases (x.id == id)) [
    | inl own ↦
        let found : x ∷ rows_of id xs ≡ r ∷ [] = (rw own at h) in
        let empty : rows_of id xs ≡ [] = cc in
        let same : x ∷ [] ≡ r ∷ [] = cc in
        rows_of-insert_own x (sort_by_age xs) own (rows_of-sort_none xs empty) ∙ same
    | inr other ↦
        rows_of-insert_other x (sort_by_age xs) other ∙ rows_of-sort_one r xs (rw other at h)
  ]

  pub rows_of-take_none :
      (n : ℕ) (xs : List PendingTx) → rows_of id xs ≡ [] → rows_of id (take n xs) ≡ []
  rows_of-take_none zero xs h = refl
  rows_of-take_none (suc n) [] h = refl
  rows_of-take_none (suc n) (x ∷ xs) h = elim (Bool-cases (x.id == id)) [
    | inl own ↦ let found : x ∷ rows_of id xs ≡ [] = (rw own at h) in cc
    | inr other ↦ rw other (rows_of-take_none n xs (rw other at h))
  ]

  -- No row of these, or this one.
  abbrev pub Once : PendingTx → List PendingTx → Type 0
  Once r xs = (rows_of id xs ≡ []) ⊎ (rows_of id xs ≡ r ∷ [])

  Once-take :
      (r : PendingTx) (n : ℕ) (xs : List PendingTx) → rows_of id xs ≡ r ∷ [] → Once r (take n xs)
  Once-take r zero xs h = inl refl
  Once-take r (suc n) [] h = cc
  Once-take r (suc n) (x ∷ xs) h = elim (Bool-cases (x.id == id)) [
    | inl own ↦
        let found : x ∷ rows_of id xs ≡ r ∷ [] = (rw own at h) in
        let empty : rows_of id xs ≡ [] = cc in
        let same : x ∷ [] ≡ r ∷ [] = cc in rw (own, rows_of-take_none n xs empty) (inr same)
    | inr other ↦ rw other (Once-take r n xs (rw other at h))
  ]

  -- A row with an id of its own is in a batch at most once, and then it is due.
  pub retry_batch-Once :
      (r : PendingTx) (now : ℕ) (rows : List PendingTx)
      → rows_of id rows ≡ r ∷ []
      → (rows_of id (retry_batch now rows) ≡ [])
        ⊎ ((rows_of id (retry_batch now rows) ≡ r ∷ []) × (is_due now r ≡ true))
  unfolding retry_batch
  retry_batch-Once r now rows h = elim (Bool-cases (is_due now r)) [
    | inl due ↦
        let chosen : rows_of id (select (is_due now) rows) ≡ r ∷ [] =
          rows_of-select (is_due now) rows ∙ rw (h, due) refl in
        elim (Once-take r 20 (sort_by_age (select (is_due now) rows))
          (rows_of-sort_one r (select (is_due now) rows) chosen)) [
            | inl out ↦ inl out
            | inr there ↦ inr (there, due)
          ]
    | inr early ↦
        let left_out : rows_of id (select (is_due now) rows) ≡ [] =
          rows_of-select (is_due now) rows ∙ rw (h, early) refl in
        inl (
          rows_of-take_none 20 (sort_by_age (select (is_due now) rows))
            (rows_of-sort_none (select (is_due now) rows) left_out))
  ]

  any-is_free :
      (xs : List PendingTx) → any (is_free id) xs ≡ any (λ r. is_retryable r.status) (rows_of id xs)
  any-is_free [] = refl
  any-is_free (x ∷ xs) =
      let rest = any-is_free xs in
      elim (Bool-cases (x.id == id)) [
        | inl own ↦ rw (own, rest) refl
        | inr other ↦ rw (other, rest) refl
      ]

  -- The row with an id of its own can be locked exactly if it is to be tried.
  pub any-is_free_one :
      (r : PendingTx) (xs : List PendingTx)
      → rows_of id xs ≡ r ∷ []
      → any (is_free id) xs ≡ is_retryable r.status
  any-is_free_one r xs h = any-is_free xs ∙ rw h (ground arith)

  -- An update that leaves the rows with an id as they are.
  pub rows_of-unchanged :
      (f : PendingTx → PendingTx) (xs : List PendingTx)
      → ((x : PendingTx) → (f x).id ≡ x.id)
      → ((x : PendingTx) → nat_eq x.id id ≡ true → f x ≡ x)
      → rows_of id (map f xs) ≡ rows_of id xs
  rows_of-unchanged f [] same fixed = refl
  rows_of-unchanged f (x ∷ xs) same fixed =
      let rest = rows_of-unchanged f xs same fixed in
      let still : nat_eq (f x).id id ≡ nat_eq x.id id = ap (λ n. nat_eq n id) (same x) in
      elim (Bool-cases (x.id == id)) [
        | inl own ↦ rw (still, own) (ap₂ (λ y ys. y ∷ ys) (fixed x own) rest)
        | inr other ↦ rw (still, other) rest
      ]
