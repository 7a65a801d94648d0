-- ===== src/Ledger/Keys.antt =====
-- Idempotency: the entry that a key names after a call.
use qc_backend.Base.{String, some, false, ◌≡◌, is_empty, ok, str_eq_refl, string_has_eq, arith}
use qc_backend.Ledger.Types.{Draft, Entry, Store}
use qc_backend.Ledger.Table.{inserted, with_entry, find_idempotent_entry}
use qc_backend.Ledger.Outcomes.{Outcome, rejected, replayed, written, audited}

module _ (tenant k : String) where
  find-inserted :
      (d : Draft) (s : Store)
      → is_empty k ≡ false
      → d.tenant_id ≡ tenant
      → d.idempotency_key ≡ some k
      → find_idempotent_entry tenant (some k) (with_entry d s).entries ≡ some (inserted d s)
  unfolding find_idempotent_entry
  find-inserted d s given e f = rw (given, f, e, str_eq_refl tenant, str_eq_refl k)

  -- After a call with a key succeeded, the key names the entry that the call returned.
  pub Outcome-found :
      (s s' : Store) (e : Entry)
      → is_empty k ≡ false
      → Outcome tenant (some k) s (ok e, s')
      → find_idempotent_entry tenant (some k) s'.entries ≡ some e
  Outcome-found s s' e given (rejected x h) = cc
  Outcome-found s s' e given (replayed x found h) = ground arith
  Outcome-found s s' e given (written d a same n h) =
      ground (arith, find-inserted d s given same.0 same.1)
  Outcome-found s s' e given (audited d x a same n h) =
      ground (arith, find-inserted d s given same.0 same.1)
