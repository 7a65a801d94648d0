-- ===== src/Ledger/Operational.antt =====
-- The operational calls against Ledger/Outcomes.
use qc_backend.Base.{
  some, none, ℤ, pos, neg, ◌≤ℤ◌, ltb_ℤ, Bool, false, ◌≡◌, refl, inl, inr, ok, transaction, raise_if,
  gets, from_result, ◌>>=◌, ◌>>◌, Bool-cases, Option-cases, Result-cases, int_laws, arith,
}
use qc_backend.Ledger.Types.{
  EntryType, Number, integer, fraction, not_finite, Error, insufficient_credits,
  insufficient_reserved_credits, Operational, Draft, Entry, Store,
}
use qc_backend.Ledger.Guards.{Call, normalize_positive_amount, validate_idempotency_key}
use qc_backend.Ledger.Table.{
  create_ledger_entry, stored, find_idempotent_entry, get_balance_projection, key_taken,
}
use qc_backend.Ledger.Operations.{
  draft_of, reserve_in_transaction, reserve_credits, consume_in_transaction,
  consume_reserved_credits, release_in_transaction, release_reserved_credits,
  record_purchased_credits, unless_existing, find_existing,
}
use qc_backend.Ledger.Balances.{
  projection-available, projection-reserved, available-truthy, reserved-truthy,
}
use qc_backend.Ledger.Outcomes.{
  IsAdmissible, Covered, Outcome, rejected, replayed, written, insert_entry-cases,
  rolled_back-Outcome,
}

-- What a passed test says of the balance after the subtraction.
pub Covered-sub : (b n : ℤ) → ltb_ℤ b n ≡ false → Covered b (neg n)
Covered-sub b n h = inr (grind (int_laws))

-- What `normalizePositiveAmount` lets through.
pub normalize_positive_amount-ok :
    (x : Number) (n : ℤ) → normalize_positive_amount x ≡ ok n → (x ≡ integer n) × (pos 1 ≤ℤ n)
unfolding normalize_positive_amount
normalize_positive_amount-ok (integer m) n h = ground arith
normalize_positive_amount-ok (fraction m) n h = cc
normalize_positive_amount-ok not_finite n h = cc

-- The shape that the calls share: look for the key, test, write.
abbrev pub checked_write : Operational → (Store → Bool) → Error → Draft → Call Entry
checked_write p fails code d = do
  existing ← find_existing p.tenant_id (some p.idempotency_key)
  unless_existing existing do raise_if (← gets fails) code; create_ledger_entry d

checked_write-Outcome :
    (p : Operational) (fails : Store → Bool) (code : Error) (d : Draft) (s : Store)
    → d.tenant_id ≡ p.tenant_id
    → d.idempotency_key ≡ some p.idempotency_key
    → d.actor_user_id ≡ none
    → (fails s ≡ false
        → key_taken d.tenant_id d.idempotency_key s.entries ≡ false
        → IsAdmissible s (stored d))
    → Outcome p.tenant_id (some p.idempotency_key) s (checked_write p fails code d s)
unfolding create_ledger_entry
checked_write-Outcome p fails code d s tenant key actor admissible =
    elim (Option-cases (find_idempotent_entry p.tenant_id (some p.idempotency_key) s.entries)) [
      | inr (e, found) ↦ replayed e found (rw found)
      | inl missing ↦ elim (Bool-cases (fails s)) [
        | inl short ↦ rejected code (rw (missing, short))
        | inr enough ↦ elim (insert_entry-cases (stored d) s) [
          | inl (e, refused) ↦ rejected e (rw (missing, enough, refused))
          | inr (fresh, created) ↦
              written (stored d) (admissible enough fresh) (tenant, key) actor
                (rw (missing, enough, created))
        ]
      ]
    ]

module _ (p : Operational) (s : Store) (n : ℤ) (h : pos 1 ≤ℤ n) where
  pub reserve_in_transaction-Outcome :
      Outcome p.tenant_id (some p.idempotency_key) s (reserve_in_transaction p n s)
  unfolding reserve_in_transaction
  reserve_in_transaction-Outcome =
      checked_write-Outcome p
        (λ t. ltb_ℤ (get_balance_projection p.tenant_id p.user_id t.entries).available n)
        insufficient_credits (draft_of p n EntryType.reserved (neg n) n) s refl refl refl
        (λ enough fresh. record {
          fresh = fresh;
          positive = h;
          deltas = (refl, refl);
          available_covered =
              Covered-sub _ n (rw (projection-available, ← available-truthy) at enough);
          reserved_covered = inl (omega arith);
        })

  pub consume_in_transaction-Outcome :
      Outcome p.tenant_id (some p.idempotency_key) s (consume_in_transaction p n s)
  unfolding consume_in_transaction
  consume_in_transaction-Outcome =
      checked_write-Outcome p
        (λ t. ltb_ℤ (get_balance_projection p.tenant_id p.user_id t.entries).reserved n)
        insufficient_reserved_credits (draft_of p n EntryType.consumed (pos 0) (neg n)) s refl refl
        refl
        (λ enough fresh. record {
          fresh = fresh;
          positive = h;
          deltas = (refl, refl);
          available_covered = inl (omega arith);
          reserved_covered =
              Covered-sub _ n (rw (projection-reserved, ← reserved-truthy) at enough);
        })

  pub release_in_transaction-Outcome :
      Outcome p.tenant_id (some p.idempotency_key) s (release_in_transaction p n s)
  unfolding release_in_transaction
  release_in_transaction-Outcome =
      checked_write-Outcome p
        (λ t. ltb_ℤ (get_balance_projection p.tenant_id p.user_id t.entries).reserved n)
        insufficient_reserved_credits (draft_of p n EntryType.released n (neg n)) s refl refl refl
        (λ enough fresh. record {
          fresh = fresh;
          positive = h;
          deltas = (refl, refl);
          available_covered = inl (omega arith);
          reserved_covered =
              Covered-sub _ n (rw (projection-reserved, ← reserved-truthy) at enough);
        })

  purchase-Outcome : Outcome p.tenant_id (some p.idempotency_key) s (
      checked_write p
        (λ t. false)
        insufficient_credits
        (draft_of p n EntryType.purchased n (pos 0))
        s)
  purchase-Outcome =
      checked_write-Outcome p (λ t. false) insufficient_credits
        (draft_of p n EntryType.purchased n (pos 0)) s refl refl refl
        (λ enough fresh. record {
          fresh = fresh;
          positive = h;
          deltas = (refl, refl);
          available_covered = inl (omega arith);
          reserved_covered = inl (omega arith);
        })

-- The two guards that every operational call begins with.
abbrev pub guarded : Operational → (ℤ → Call Entry) → Call Entry
guarded p body = do
  n ← from_result (normalize_positive_amount p.amount)
  from_result (validate_idempotency_key p.idempotency_key)
  body n

-- They refuse, or hand the body a positive amount.
guarded-Outcome :
    (p : Operational) (body : ℤ → Call Entry) (s : Store)
    → ((n : ℤ) → pos 1 ≤ℤ n → Outcome p.tenant_id (some p.idempotency_key) s (body n s))
    → Outcome p.tenant_id (some p.idempotency_key) s (guarded p body s)
guarded-Outcome p body s h = elim (Result-cases (normalize_positive_amount p.amount)) [
  | inr (e, bad) ↦ rejected e (rw bad)
  | inl (n, good) ↦ elim (Result-cases (validate_idempotency_key p.idempotency_key)) [
    | inr (e, blank) ↦ rejected e (rw (good, blank))
    | inl (_, given) ↦ rw (good, given) (h n (normalize_positive_amount-ok p.amount n good).1)
  ]
]

module _ (p : Operational) (s : Store) where
  pub reserve_credits-Outcome : Outcome p.tenant_id (some p.idempotency_key) s (reserve_credits p s)
  unfolding reserve_credits
  reserve_credits-Outcome =
      guarded-Outcome p (λ n. transaction (reserve_in_transaction p n)) s
        (λ n h. rolled_back-Outcome _ _ s _ (reserve_in_transaction-Outcome p s n h))

  pub consume_reserved_credits-Outcome :
      Outcome p.tenant_id (some p.idempotency_key) s (consume_reserved_credits p s)
  unfolding consume_reserved_credits
  consume_reserved_credits-Outcome =
      guarded-Outcome p (λ n. transaction (consume_in_transaction p n)) s
        (λ n h. rolled_back-Outcome _ _ s _ (consume_in_transaction-Outcome p s n h))

  pub release_reserved_credits-Outcome :
      Outcome p.tenant_id (some p.idempotency_key) s (release_reserved_credits p s)
  unfolding release_reserved_credits
  release_reserved_credits-Outcome =
      guarded-Outcome p (λ n. transaction (release_in_transaction p n)) s
        (λ n h. rolled_back-Outcome _ _ s _ (release_in_transaction-Outcome p s n h))

  pub record_purchased_credits-Outcome :
      Outcome p.tenant_id (some p.idempotency_key) s (record_purchased_credits p s)
  unfolding record_purchased_credits
  record_purchased_credits-Outcome =
      guarded-Outcome p
        (λ n.
          checked_write p (λ t. false) insufficient_credits
            (draft_of p n EntryType.purchased n (pos 0)))
        s (purchase-Outcome p s)
