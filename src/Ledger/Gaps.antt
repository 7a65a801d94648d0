-- ===== src/Ledger/Gaps.antt =====
-- Where the scopes of the balances overlap.
use qc_backend.Base.{
  none, ℤ, pos, negsuc, neg, ◌+ℤ◌, ◌≤ℤ◌, ltb_ℤ, false, ◌≡◌, ok, str_eq_refl, string_has_eq,
  int_laws, arith, refl, ◌∙◌,
}
use qc_backend.Ledger.Types.{EntryType, Operational, Entry, Store}
use qc_backend.Ledger.Table.{stored, inserted, with_entry}
use qc_backend.Ledger.Operations.{draft_of, reserve_credits}
use qc_backend.Ledger.Balances.{available, available-cons}
use qc_backend.Ledger.Account.{IsFresh, reserve_credits-fresh}

not_short : (a n : ℤ) → n ≤ℤ a → ltb_ℤ a n ≡ false
not_short a n h = ground arith

-- A fresh reservation for a user who has the credits succeeds also where the tenant as a whole
-- has fewer, and then leaves the tenant's available credits below zero: a call with a user tests
-- that user's rows only, and rows without a user count for the tenant alone.
pub reserve_credits-overdraws :
    (p : Operational) (n : ℤ) (s : Store)
    → IsFresh p n s
    → n ≤ℤ available p.tenant_id p.user_id s.entries
    → available p.tenant_id none s.entries +ℤ pos 1 ≤ℤ n
    → ((e : Entry) × ((reserve_credits p s).0 ≡ ok e))
      × (available p.tenant_id none (reserve_credits p s).1.entries ≤ℤ negsuc 0)
reserve_credits-overdraws p n s fresh enough less =
    let d = draft_of p n EntryType.reserved (neg n) n in
    let run : reserve_credits p s ≡ (ok (inserted (stored d) s), with_entry (stored d) s) =
      reserve_credits-fresh p n s fresh ∙ rw (not_short _ n enough) in
    rw run
      ((inserted (stored d) s, refl), rw (available-cons, str_eq_refl p.tenant_id) (omega int_laws))
