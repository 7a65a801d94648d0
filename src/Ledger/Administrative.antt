-- ===== src/Ledger/Administrative.antt =====
-- The administrative calls against Ledger/Outcomes, and who may make them.
use Prim.Native.String.{◌++◌}
use qc_backend.Base.{
  ℕ, String, some, ℤ, pos, negsuc, abs, ◌+ℤ◌, ◌≤ℤ◌, ltb_ℤ, Bool, true, false, ◌&&◌, ◌≡◌, refl, inl,
  inr, ok, any, ◌==◌, raise_if, from_result, ◌>>=◌, ◌>>◌, Bool-cases, Option-cases, Result-cases,
  string_has_eq, arith,
}
use qc_backend.Ledger.Types.{
  Number, integer, fraction, not_finite, insufficient_credits, tenant_not_found, Mutation, Actor,
  Entry, Store,
}
use qc_backend.Ledger.Guards.{
  Call, normalize_positive_amount, normalize_non_zero_delta, ensure_platform_actor,
  ensure_tenant_exists, require_reason, or_else,
}
use qc_backend.Ledger.Table.{create_ledger_entry, stored, find_idempotent_entry, key_taken}
use qc_backend.Ledger.Admin.{
  Change, admin_draft, audit_of, grant_change, adjust_change, revoke_change, write_in_transaction,
  write_admin_ledger_entry, grant_credits, adjust_credits, revoke_credits,
}
use qc_backend.Ledger.Operations.{read_balance}
use qc_backend.Ledger.Registration.{bonus_draft, grant_initial_registration_bonus}
use qc_backend.Ledger.Balances.{projection-available, available-truthy}
use qc_backend.Ledger.Outcomes.{
  IsAdmissible, Covered, Outcome, rejected, replayed, written, audited, insert_entry-cases,
}
use qc_backend.Ledger.Operational.{Covered-sub, normalize_positive_amount-ok}

-- The delta of an adjustment is a non-zero integer.
pub normalize_non_zero_delta-ok :
    (x : Number) (n : ℤ) → normalize_non_zero_delta x ≡ ok n → pos 1 ≤ℤ abs n
unfolding normalize_non_zero_delta
normalize_non_zero_delta-ok (integer (pos ℕ.zero)) n h = cc
normalize_non_zero_delta-ok (integer (pos (ℕ.suc k))) n h = ground arith
normalize_non_zero_delta-ok (integer (negsuc k)) n h = ground arith
normalize_non_zero_delta-ok (fraction m) n h = cc
normalize_non_zero_delta-ok not_finite n h = cc

Covered-adjust :
    (b delta : ℤ) → (ltb_ℤ delta (pos 0) && ltb_ℤ (b +ℤ delta) (pos 0)) ≡ false → Covered b delta
Covered-adjust b delta h = elim (Bool-cases (ltb_ℤ delta (pos 0))) [
  | inl falls ↦ inr (ground arith)
  | inr rises ↦ inl (ground arith)
]

module _ (actor : Actor) (tenant : String) (p : Mutation) (s : Store) where
  write_admin_ledger_entry-Outcome :
      (reason : String) (c : Change)
      → (key_taken tenant p.idempotency_key s.entries ≡ false
          → IsAdmissible s (stored (admin_draft actor tenant p reason c)))
      → Outcome tenant p.idempotency_key s (write_admin_ledger_entry actor tenant p reason c s)
  unfolding write_admin_ledger_entry write_in_transaction create_ledger_entry
  write_admin_ledger_entry-Outcome reason c admissible =
      elim (Option-cases (find_idempotent_entry tenant p.idempotency_key s.entries)) [
        | inr (e, found) ↦ replayed e found (rw found)
        | inl missing ↦ elim (insert_entry-cases (stored (admin_draft actor tenant p reason c)) s) [
          | inl (e, refused) ↦ rejected e (rw (missing, refused))
          | inr (fresh, created) ↦
              audited (stored (admin_draft actor tenant p reason c))
                (audit_of actor tenant p reason c s.next_id) (admissible fresh) (refl, refl)
                (record {
                  resource = refl;
                  tenant = refl;
                  actor = refl;
                  amount = refl;
                  available = refl;
                  reserved = refl;
                })
                (rw (missing, created))
        ]
      ]

  -- `ensureTenantExists` in front of the rest of a call.
  tenant_checked-Outcome :
      (rest : Call Entry)
      → Outcome tenant p.idempotency_key s (rest s)
      → Outcome tenant p.idempotency_key s ((ensure_tenant_exists tenant >> rest) s)
  unfolding ensure_tenant_exists
  tenant_checked-Outcome rest h = elim (Bool-cases (any (λ t. t == tenant) s.tenants)) [
    | inl known ↦ rw known h
    | inr unknown ↦ rejected tenant_not_found (rw unknown)
  ]

  -- The two guards that every administrative call begins with.
  privileged-Outcome :
      (rest : String → Call Entry)
      → ((reason : String) → Outcome tenant p.idempotency_key s (rest reason s))
      → Outcome tenant p.idempotency_key s (
          (do
            from_result (ensure_platform_actor actor)
            reason ← from_result (require_reason (or_else p.reason actor.reason))
            rest reason)
            s)
  privileged-Outcome rest h = elim (Result-cases (ensure_platform_actor actor)) [
    | inr (e, denied) ↦ rejected e (rw denied)
    | inl (_, allowed) ↦ elim (Result-cases (require_reason (or_else p.reason actor.reason))) [
      | inr (e, blank) ↦ rejected e (rw (allowed, blank))
      | inl (reason, given) ↦ rw (allowed, given) (h reason)
    ]
  ]

  pub grant_credits-Outcome : Outcome tenant p.idempotency_key s (grant_credits actor tenant p s)
  unfolding grant_credits
  grant_credits-Outcome =
      privileged-Outcome
        (λ reason. do
          n ← from_result (normalize_positive_amount p.quantity)
          ensure_tenant_exists tenant
          write_admin_ledger_entry actor tenant p reason (grant_change n))
        (λ reason. elim (Result-cases (normalize_positive_amount p.quantity)) [
          | inr (e, bad) ↦ rejected e (rw bad)
          | inl (n, good) ↦
              let positive = (normalize_positive_amount-ok p.quantity n good).1 in
              rw good (
                tenant_checked-Outcome
                  (write_admin_ledger_entry actor tenant p reason (grant_change n))
                  (write_admin_ledger_entry-Outcome reason (grant_change n) (λ fresh. record {
                    fresh = fresh;
                    positive = positive;
                    deltas = (refl, refl);
                    available_covered = inl (omega arith);
                    reserved_covered = inl (omega arith);
                  })))
        ])

  -- The balance test of a revocation or of an adjustment, then the write.
  tested_write-Outcome :
      (fails : Bool) (reason : String) (c : Change)
      → (fails ≡ false
          → key_taken tenant p.idempotency_key s.entries ≡ false
          → IsAdmissible s (stored (admin_draft actor tenant p reason c)))
      → Outcome tenant p.idempotency_key s (
          (raise_if fails insufficient_credits >> write_admin_ledger_entry actor tenant p reason c)
            s)
  tested_write-Outcome true reason c h = rejected insufficient_credits refl
  tested_write-Outcome false reason c h = write_admin_ledger_entry-Outcome reason c (h refl)

  pub revoke_credits-Outcome : Outcome tenant p.idempotency_key s (revoke_credits actor tenant p s)
  unfolding revoke_credits
  revoke_credits-Outcome =
      privileged-Outcome
        (λ reason. do
          n ← from_result (normalize_positive_amount p.quantity)
          ensure_tenant_exists tenant
          balance ← read_balance tenant p.user_id
          raise_if (ltb_ℤ balance.available n) insufficient_credits
          write_admin_ledger_entry actor tenant p reason (revoke_change n))
        (λ reason. elim (Result-cases (normalize_positive_amount p.quantity)) [
          | inr (e, bad) ↦ rejected e (rw bad)
          | inl (n, good) ↦
              let positive = (normalize_positive_amount-ok p.quantity n good).1 in
              rw good (
                tenant_checked-Outcome
                  (do
                    balance ← read_balance tenant p.user_id
                    raise_if (ltb_ℤ balance.available n) insufficient_credits
                    write_admin_ledger_entry actor tenant p reason (revoke_change n))
                  (tested_write-Outcome _ reason (revoke_change n) (λ enough fresh. record {
                    fresh = fresh;
                    positive = positive;
                    deltas = (refl, refl);
                    available_covered =
                        Covered-sub _ n (rw (projection-available, ← available-truthy) at enough);
                    reserved_covered = inl (omega arith);
                  })))
        ])

  pub adjust_credits-Outcome : Outcome tenant p.idempotency_key s (adjust_credits actor tenant p s)
  unfolding adjust_credits
  adjust_credits-Outcome =
      privileged-Outcome
        (λ reason. do
          delta ← from_result (normalize_non_zero_delta p.quantity)
          ensure_tenant_exists tenant
          balance ← read_balance tenant p.user_id
          raise_if (ltb_ℤ delta (pos 0) && ltb_ℤ (balance.available +ℤ delta) (pos 0))
              insufficient_credits
          write_admin_ledger_entry actor tenant p reason (adjust_change delta))
        (λ reason. elim (Result-cases (normalize_non_zero_delta p.quantity)) [
          | inr (e, bad) ↦ rejected e (rw bad)
          | inl (delta, good) ↦
              let positive = normalize_non_zero_delta-ok p.quantity delta good in
              rw good (
                tenant_checked-Outcome
                  (do
                    balance ← read_balance tenant p.user_id
                    raise_if (ltb_ℤ delta (pos 0) && ltb_ℤ (balance.available +ℤ delta) (pos 0))
                        insufficient_credits
                    write_admin_ledger_entry actor tenant p reason (adjust_change delta))
                  (tested_write-Outcome _ reason (adjust_change delta) (λ enough fresh. record {
                    fresh = fresh;
                    positive = positive;
                    deltas = (refl, refl);
                    available_covered =
                        Covered-adjust _ delta
                          (rw (projection-available, ← available-truthy) at enough);
                    reserved_covered = inl (omega arith);
                  })))
        ])

-- The bonus is no administrator's call: it needs no actor and leaves no audit row.
pub grant_initial_registration_bonus-Outcome :
    (tenant user metadata : String) (s : Store)
    → Outcome tenant
        (some ("registration-bonus:" ++ user))
        s
        (grant_initial_registration_bonus tenant user metadata s)
unfolding grant_initial_registration_bonus
grant_initial_registration_bonus-Outcome tenant user metadata s =
    elim (Option-cases
      (find_idempotent_entry tenant (some ("registration-bonus:" ++ user)) s.entries)) [
        | inr (e, found) ↦ replayed e found (rw found)
        | inl missing ↦ elim (insert_entry-cases (bonus_draft tenant user metadata) s) [
          | inl (e, refused) ↦ rejected e (rw (missing, refused))
          | inr (fresh, created) ↦
              written (bonus_draft tenant user metadata)
                (record {
                  fresh = fresh;
                  positive = omega arith;
                  deltas = (refl, refl);
                  available_covered = inl (omega arith);
                  reserved_covered = inl (omega arith);
                })
                (refl, refl) refl (rw (missing, created))
        ]
      ]
