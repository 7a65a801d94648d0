-- ===== src/Ledger/Replay.antt =====
-- A call that is made again with the same key returns the same entry and writes nothing.
use qc_backend.Base.{
  String, Option, some, ℤ, pos, Bool, true, false, ◌≡◌, inl, inr, is_empty, any, ◌==◌, Result, ok,
  transaction, ◌>>◌, Bool-cases, Result-cases, string_has_eq,
}
use qc_backend.Ledger.Types.{
  EntryType, Error, Operational, Mutation, Actor, Entry, Store, insufficient_credits,
}
use qc_backend.Ledger.Guards.{
  Call, normalize_positive_amount, validate_idempotency_key, ensure_platform_actor,
  ensure_tenant_exists, require_reason, or_else,
}
use qc_backend.Ledger.Table.{find_idempotent_entry}
use qc_backend.Ledger.Operations.{
  draft_of, reserve_in_transaction, reserve_credits, consume_in_transaction,
  consume_reserved_credits, release_in_transaction, release_reserved_credits,
  record_purchased_credits,
}
use qc_backend.Ledger.Admin.{
  write_in_transaction, write_admin_ledger_entry, grant_credits, grant_change,
}
use qc_backend.Ledger.Registration.{grant_initial_registration_bonus}
use qc_backend.Ledger.Operational.{guarded, checked_write}
use qc_backend.Ledger.Commands.{
  Command, reserve, consume, release, purchase, grant, adjust, revoke, bonus, perform,
  perform-Outcome, tenant_of, key_of,
}
use qc_backend.Ledger.Keys.{Outcome-found}
use qc_backend.Ledger.Outcomes.{Outcome, rejected, replayed, written, audited}

module _ (p : Operational) (t : Store) (x : Entry)
    (found : find_idempotent_entry p.tenant_id (some p.idempotency_key) t.entries ≡ some x) where
  reserve_in_transaction-found : (n : ℤ) → transaction (reserve_in_transaction p n) t ≡ (ok x, t)
  unfolding reserve_in_transaction
  reserve_in_transaction-found n = rw found

  consume_in_transaction-found : (n : ℤ) → transaction (consume_in_transaction p n) t ≡ (ok x, t)
  unfolding consume_in_transaction
  consume_in_transaction-found n = rw found

  release_in_transaction-found : (n : ℤ) → transaction (release_in_transaction p n) t ≡ (ok x, t)
  unfolding release_in_transaction
  release_in_transaction-found n = rw found

  -- The guards of a call that succeeded pass again.
  guarded-replay :
      (body : ℤ → Call Entry) (s : Store)
      → ((n : ℤ) → body n t ≡ (ok x, t))
      → guarded p body s ≡ (ok x, t)
      → guarded p body t ≡ (ok x, t)
  guarded-replay body s again h = elim (Result-cases (normalize_positive_amount p.amount)) [
    | inr (e, bad) ↦ let r = rw bad at h in cc
    | inl (n, good) ↦ elim (Result-cases (validate_idempotency_key p.idempotency_key)) [
      | inr (e, blank) ↦ let r = rw (good, blank) at h in cc
      | inl (_, given) ↦ rw (good, given) (again n)
    ]
  ]

  purchase-found :
      (n : ℤ)
      → checked_write p
          (λ s. false)
          insufficient_credits
          (draft_of p n EntryType.purchased n (pos 0))
          t
        ≡ (ok x, t)
  purchase-found n = rw found

-- `ensureTenantExists` reads only.
tenant_checked-replay :
    (tenant : String) (rest : Call Entry) (s t : Store) (x : Entry)
    → s.tenants ≡ t.tenants
    → rest t ≡ (ok x, t)
    → (ensure_tenant_exists tenant >> rest) s ≡ (ok x, t)
    → (ensure_tenant_exists tenant >> rest) t ≡ (ok x, t)
unfolding ensure_tenant_exists
tenant_checked-replay tenant rest s t x same again h =
    elim (Bool-cases (any (λ u. u == tenant) s.tenants)) [
      | inr unknown ↦ let r = rw unknown at h in cc
      | inl known ↦ let known' = rw same at known in rw known' again
    ]

Outcome-tenants :
    (t : String) (key : Option String) (s : Store) (r : Result Error Entry × Store)
    → Outcome t key s r
    → s.tenants ≡ r.1.tenants
Outcome-tenants t key s r (rejected e h) = rw h
Outcome-tenants t key s r (replayed e found h) = rw h
Outcome-tenants t key s r (written d a same n h) = rw h
Outcome-tenants t key s r (audited d x a same n h) = rw h

module _ (c : Command) (s s' : Store) (e : Entry) (done : perform c s ≡ (ok e, s')) where
  perform-found :
      (k : String)
      → key_of c ≡ some k
      → is_empty k ≡ false
      → find_idempotent_entry (tenant_of c) (key_of c) s'.entries ≡ some e
  perform-found k keyed given =
      rw keyed
        (Outcome-found (tenant_of c) k s s' e given (rw (keyed, done) at (perform-Outcome c s)))

  perform-tenants : s.tenants ≡ s'.tenants
  perform-tenants =
      Outcome-tenants (tenant_of c) (key_of c) s (ok e, s') (rw done at (perform-Outcome c s))

grant_credits-replay :
    (actor : Actor) (tenant : String) (p : Mutation) (s s' : Store) (e : Entry)
    → find_idempotent_entry tenant p.idempotency_key s'.entries ≡ some e
    → s.tenants ≡ s'.tenants
    → grant_credits actor tenant p s ≡ (ok e, s')
    → grant_credits actor tenant p s' ≡ (ok e, s')
unfolding grant_credits
grant_credits-replay actor tenant p s s' e found same h =
    elim (Result-cases (ensure_platform_actor actor)) [
      | inr (x, denied) ↦ let r = rw denied at h in cc
      | inl (_, allowed) ↦ elim (Result-cases (require_reason (or_else p.reason actor.reason))) [
        | inr (x, blank) ↦ let r = rw (allowed, blank) at h in cc
        | inl (reason, stated) ↦ elim (Result-cases (normalize_positive_amount p.quantity)) [
          | inr (x, bad) ↦ let r = rw (allowed, stated, bad) at h in cc
          | inl (n, good) ↦
              rw (allowed, stated, good)
                (tenant_checked-replay tenant
                  (write_admin_ledger_entry actor tenant p reason (grant_change n)) s s' e same
                  (write_found reason n) (rw (allowed, stated, good) at h))
        ]
      ]
    ]
  where
    write_found :
        (reason : String) (n : ℤ)
        → write_admin_ledger_entry actor tenant p reason (grant_change n) s' ≡ (ok e, s')
    write_found reason n = unfold write_admin_ledger_entry write_in_transaction in rw found

-- The calls that look for their key before they test a balance.
abbrev pub tests_key_first : Command → Bool
tests_key_first (adjust actor tenant p) = false
tests_key_first (revoke actor tenant p) = false
tests_key_first _ = true

-- If a call other than an adjustment or a revocation, with a non-empty idempotency key, has
-- returned an entry, then the same call made at once again returns the same entry and leaves
-- every table as it is.
pub perform-replay :
    (c : Command) (k : String) (s s' : Store) (e : Entry)
    → tests_key_first c ≡ true
    → key_of c ≡ some k
    → is_empty k ≡ false
    → perform c s ≡ (ok e, s')
    → perform c s' ≡ (ok e, s')
unfolding perform reserve_credits consume_reserved_credits release_reserved_credits
    record_purchased_credits grant_initial_registration_bonus
perform-replay (reserve p) k s s' e first keyed given h =
    let found = perform-found (reserve p) s s' e h k keyed given in
    guarded-replay p s' e found _ s (reserve_in_transaction-found p s' e found) h
perform-replay (consume p) k s s' e first keyed given h =
    let found = perform-found (consume p) s s' e h k keyed given in
    guarded-replay p s' e found _ s (consume_in_transaction-found p s' e found) h
perform-replay (release p) k s s' e first keyed given h =
    let found = perform-found (release p) s s' e h k keyed given in
    guarded-replay p s' e found _ s (release_in_transaction-found p s' e found) h
perform-replay (purchase p) k s s' e first keyed given h =
    let found = perform-found (purchase p) s s' e h k keyed given in
    guarded-replay p s' e found _ s (purchase-found p s' e found) h
perform-replay (grant actor tenant p) k s s' e first keyed given h =
    grant_credits-replay actor tenant p s s' e
      (perform-found (grant actor tenant p) s s' e h k keyed given)
      (perform-tenants (grant actor tenant p) s s' e h) h
perform-replay (adjust actor tenant p) k s s' e first keyed given h = cc
perform-replay (revoke actor tenant p) k s s' e first keyed given h = cc
perform-replay (bonus tenant user metadata) k s s' e first keyed given h =
    rw (perform-found (bonus tenant user metadata) s s' e h k keyed given)
