-- ===== src/Ledger/Outcomes.antt =====
-- What a call of the ledger can do: refuse, return an entry that its key already names, or write
-- one admissible entry, with its audit row where an administrator acts.
use qc_backend.Base.{
  String, Option, some, none, ℤ, pos, neg, abs, ◌+ℤ◌, ◌≤ℤ◌, false, ◌≡◌, ◌⊎◌, inl, inr, ok, err,
  Result, rolled_back, Bool-cases,
}
use qc_backend.Ledger.Types.{
  EntryType, Error, out_of_range, unique_constraint, foreign_key, Draft, Entry, Store, AuditRecord,
}
use qc_backend.Ledger.Table.{
  fits_columns, key_taken, has_parents, inserted, with_entry, insert_entry, find_idempotent_entry,
}
use qc_backend.Ledger.Admin.{with_audit}
use qc_backend.Ledger.Balances.{available, reserved}

-- The deltas that belong to an entry's type and amount.
abbrev pub Deltas : EntryType → ℤ → ℤ → ℤ → Type 0
Deltas EntryType.purchased n a r = (a ≡ n) × (r ≡ pos 0)
Deltas EntryType.granted n a r = (a ≡ n) × (r ≡ pos 0)
Deltas EntryType.adjusted n a r = (n ≡ abs a) × (r ≡ pos 0)
Deltas EntryType.reserved n a r = (a ≡ neg n) × (r ≡ n)
Deltas EntryType.consumed n a r = (a ≡ pos 0) × (r ≡ neg n)
Deltas EntryType.released n a r = (a ≡ n) × (r ≡ neg n)
Deltas EntryType.revoked n a r = (a ≡ neg n) × (r ≡ pos 0)
Deltas EntryType.refunded n a r = ⊥
Deltas EntryType.expired n a r = ⊥

-- A column of the balance does not fall, or stays at least zero.
abbrev pub Covered : ℤ → ℤ → Type 0
Covered before delta = (pos 0 ≤ℤ delta) ⊎ (pos 0 ≤ℤ before +ℤ delta)

pub record IsAdmissible (s : Store) (d : Draft) : Type 0 where
  pub fresh : key_taken d.tenant_id d.idempotency_key s.entries ≡ false
  pub positive : pos 1 ≤ℤ d.amount
  pub deltas : Deltas d.entry_type d.amount d.available_delta d.reserved_delta
  pub available_covered : Covered (available d.tenant_id d.user_id s.entries) d.available_delta
  pub reserved_covered : Covered (reserved d.tenant_id d.user_id s.entries) d.reserved_delta

-- The audit row tells of the entry.
pub record Tells (s : Store) (d : Draft) (a : AuditRecord) : Type 0 where
  pub resource : a.resource_id ≡ s.next_id
  pub tenant : a.tenant_id ≡ d.tenant_id
  pub actor : some a.actor_user_id ≡ d.actor_user_id
  pub amount : a.amount ≡ d.amount
  pub available : a.available_delta ≡ d.available_delta
  pub reserved : a.reserved_delta ≡ d.reserved_delta

-- The outcome `r` of a call that carries an idempotency key of a tenant.
pub data Outcome (tenant : String) (key : Option String) (s : Store)
    (r : Result Error Entry × Store) : Type 0 where
  rejected : (e : Error) → r ≡ (err e, s) → Outcome tenant key s r
  replayed :
      (e : Entry)
      → find_idempotent_entry tenant key s.entries ≡ some e
      → r ≡ (ok e, s)
      → Outcome tenant key s r
  written :
      (d : Draft)
      → IsAdmissible s d
      → (d.tenant_id ≡ tenant) × (d.idempotency_key ≡ key)
      → d.actor_user_id ≡ none
      → r ≡ (ok (inserted d s), with_entry d s)
      → Outcome tenant key s r
  audited :
      (d : Draft) (a : AuditRecord)
      → IsAdmissible s d
      → (d.tenant_id ≡ tenant) × (d.idempotency_key ≡ key)
      → Tells s d a
      → r ≡ (ok (inserted d s), with_audit a (with_entry d s))
      → Outcome tenant key s r

pub insert_entry-cases :
    (d : Draft) (s : Store)
    → ((e : Error) × (insert_entry d s ≡ (err e, s)))
      ⊎ ((key_taken d.tenant_id d.idempotency_key s.entries ≡ false)
          × (insert_entry d s ≡ (ok (inserted d s), with_entry d s)))
unfolding insert_entry
insert_entry-cases d s = elim (Bool-cases (fits_columns d)) [
  | inr large ↦ inl (out_of_range, rw large)
  | inl fits ↦ elim (Bool-cases (key_taken d.tenant_id d.idempotency_key s.entries)) [
    | inl taken ↦ inl (unique_constraint, rw (fits, taken))
    | inr fresh ↦ elim (Bool-cases (has_parents d.tenant_id d.purchase_order_id s)) [
      | inl there ↦ inr (fresh, rw (fits, fresh, there))
      | inr absent ↦ inl (foreign_key, rw (fits, fresh, absent))
    ]
  ]
]

-- A transaction does not change what its body can do: the body writes last.
pub rolled_back-Outcome :
    (tenant : String) (key : Option String) (s : Store) (r : Result Error Entry × Store)
    → Outcome tenant key s r
    → Outcome tenant key s (rolled_back s r)
rolled_back-Outcome t k s r (rejected e h) = rejected e (rw h)
rolled_back-Outcome t k s r (replayed e found h) = replayed e found (rw h)
rolled_back-Outcome t k s r (written d a same n h) = written d a same n (rw h)
rolled_back-Outcome t k s r (audited d x a same n h) = audited d x a same n (rw h)
