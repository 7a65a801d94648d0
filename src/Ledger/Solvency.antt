-- ===== src/Ledger/Solvency.antt =====
-- No call takes a user's available or reserved credits below zero.
use qc_backend.Base.{
  String, List, Option, some, none, ℤ, pos, ◌+ℤ◌, ◌≤ℤ◌, true, false, ◌≡◌, inl, inr, is_empty,
  is_some_of, Result, Bool-cases, eq_iff, string_has_eq, int_laws, arith,
}
use qc_backend.Ledger.Types.{Error, Draft, Entry, Store}
use qc_backend.Ledger.Table.{in_scope, inserted, with_entry}
use qc_backend.Ledger.Balances.{available, reserved, available-cons, reserved-cons}
use qc_backend.Ledger.Outcomes.{
  IsAdmissible, Covered, Outcome, rejected, replayed, written, audited,
}
use qc_backend.Ledger.Commands.{Command, perform_all, perform_all-keeps}

-- The balances of one user of one tenant are at least zero.
pub record IsSolvent (tenant user : String) (rows : List Entry) : Type 0 where
  pub available : pos 0 ≤ℤ available tenant (some user) rows
  pub reserved : pos 0 ≤ℤ reserved tenant (some user) rows

pub eq-some_of_is_some_of : (o : Option String) (u : String) → is_some_of o u ≡ true → o ≡ some u
eq-some_of_is_some_of none u h = cc
eq-some_of_is_some_of (some v) u h = ground (arith, eq_iff v u)

-- A row in the scope of a user names the tenant and the user.
in_scope-user :
    (tenant user : String) (e : Entry)
    → is_empty user ≡ false
    → in_scope tenant (some user) e ≡ true
    → (e.tenant_id ≡ tenant) × (e.user_id ≡ some user)
in_scope-user tenant user e given h =
    ground (arith, eq_iff e.tenant_id tenant, eq-some_of_is_some_of e.user_id user)

pub Covered-nonneg :
    (before delta : ℤ) → Covered before delta → pos 0 ≤ℤ before → pos 0 ≤ℤ delta +ℤ before
Covered-nonneg before delta (inl rises) h = omega int_laws
Covered-nonneg before delta (inr stays) h = omega int_laws

module _ (tenant user : String) (given : is_empty user ≡ false) where
  with_entry-IsSolvent :
      (s : Store) (d : Draft)
      → IsAdmissible s d
      → IsSolvent tenant user s.entries
      → IsSolvent tenant user (with_entry d s).entries
  with_entry-IsSolvent s d a h = elim (Bool-cases (in_scope tenant (some user) (inserted d s))) [
    | inl inside ↦
        let (same_tenant, same_user) = in_scope-user tenant user (inserted d s) given inside in
        record {
          available =
              rw (available-cons, inside)
                (Covered-nonneg _ _ (rw (same_tenant, same_user) at a.available_covered)
                  h.available);
          reserved =
              rw (reserved-cons, inside)
                (Covered-nonneg _ _ (rw (same_tenant, same_user) at a.reserved_covered) h.reserved);
        }
    | inr outside ↦ record {
      available = rw (available-cons, outside) h.available;
      reserved = rw (reserved-cons, outside) h.reserved;
    }
  ]

  pub Outcome-IsSolvent :
      (t : String) (key : Option String) (s : Store) (r : Result Error Entry × Store)
      → Outcome t key s r
      → IsSolvent tenant user s.entries
      → IsSolvent tenant user r.1.entries
  Outcome-IsSolvent t key s r (rejected e h) v = rw h v
  Outcome-IsSolvent t key s r (replayed e found h) v = rw h v
  Outcome-IsSolvent t key s r (written d a same n h) v = rw h (with_entry-IsSolvent s d a v)
  Outcome-IsSolvent t key s r (audited d x a same n h) v = rw h (with_entry-IsSolvent s d a v)

-- Whatever sequence of ledger calls runs, with whatever parameters, scopes and tenants, a user
-- (with a non-empty id) whose available and reserved credits start at least zero never has
-- negative ones.
pub perform_all-IsSolvent :
    (tenant user : String) (cs : List Command) (s : Store)
    → is_empty user ≡ false
    → IsSolvent tenant user s.entries
    → IsSolvent tenant user (perform_all cs s).entries
perform_all-IsSolvent tenant user cs s given h =
    perform_all-keeps (λ t. IsSolvent tenant user t.entries) (Outcome-IsSolvent tenant user given)
      cs s h
