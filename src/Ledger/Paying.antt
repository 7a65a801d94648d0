-- ===== src/Ledger/Paying.antt =====
-- What a registration costs: one credit, or nothing at all.
use qc_backend.Base.{
  any, some, ℤ, pos, neg, ◌+ℤ◌, ◌-ℤ◌, ◌≤ℤ◌, ltb_ℤ, true, false, ◌==◌, ◌≡◌, refl, sym, ap, ◌∙◌,
  is_blank, is_empty-trim, is_blank-append, append-ne_self, ok, err, eq_iff, str_eq_refl,
  string_has_eq, int_laws, arith, Bool-cases, inl, inr, parts_of_eq, eq_of_parts,
}
use qc_backend.Ledger.Types.{EntryType, Operational, Draft, Store, insufficient_credits}
use qc_backend.Ledger.Table.{key_taken, has_parents, stored, inserted, with_entry}
use qc_backend.Ledger.Operations.{draft_of}
use qc_backend.Ledger.Registration.{
  Registration, Kind, reference_of, build_ledger_params, reserve_for_registration, consume_key,
  consume_reserved_for_registration, consume_for_registration, get_summary,
}
use qc_backend.Ledger.Balances.{available, reserved}
use qc_backend.Ledger.Account.{
  Account, account, IsFresh, account-with_entry, reserve_credits-fresh,
  consume_reserved_credits-fresh,
}

-- A registration's key is not blank, neither it nor the key of its consumption is in use, and its
-- tenant is there.
pub record CanRegister (p : Registration) (s : Store) : Type 0 where
  pub given : is_blank p.idempotency_key ≡ false
  pub unused : key_taken p.tenant_id (some p.idempotency_key) s.entries ≡ false
  pub unused_consume :
      key_taken p.tenant_id (some (consume_key p.idempotency_key)) s.entries ≡ false
  pub known : any (λ t. t == p.tenant_id) s.tenants ≡ true

-- The account of the user who registers.
abbrev pub account_of : Registration → Store → Account
account_of p s = account p.tenant_id (some p.user_id) s.entries

module _ (k : Kind) (p : Registration) (s : Store) (h : CanRegister p s) where
  first : Operational
  unfolding build_ledger_params
  first = build_ledger_params p (reference_of k)

  second : Operational
  unfolding build_ledger_params
  second =
      build_ledger_params (record p { idempotency_key = consume_key p.idempotency_key })
        (reference_of k)

  first_draft : Draft
  unfolding first
  first_draft = draft_of first (pos 1) EntryType.reserved (neg (pos 1)) (pos 1)

  second_draft : Draft
  unfolding second
  second_draft = draft_of second (pos 1) EntryType.consumed (pos 0) (neg (pos 1))

  after : Store
  after = with_entry (stored first_draft) s

  IsFresh-first : IsFresh first (pos 1) s
  unfolding first has_parents
  IsFresh-first = record {
    amount = refl;
    positive = omega arith;
    fits = omega arith;
    given = is_empty-trim p.idempotency_key ∙ h.given;
    unused = h.unused;
    parents = rw h.known;
  }

  keys_differ : (p.idempotency_key == consume_key p.idempotency_key) ≡ false
  keys_differ = elim (Bool-cases (p.idempotency_key == consume_key p.idempotency_key)) [
    | inr differ ↦ differ
    | inl same ↦
        absurd (append-ne_self p.idempotency_key ":consume" refl (sym ((eq_iff _ _).0 same)))
  ]

  IsFresh-second : IsFresh second (pos 1) after
  unfolding second first first_draft after key_taken has_parents
  IsFresh-second = record {
    amount = refl;
    positive = omega arith;
    fits = omega arith;
    given = is_empty-trim (consume_key p.idempotency_key) ∙ rw (is_blank-append, h.given);
    unused = rw (keys_differ, str_eq_refl p.tenant_id) h.unused_consume;
    parents = rw h.known;
  }

  account-after : account_of p after ≡ record {
    available = neg (pos 1) +ℤ available p.tenant_id (some p.user_id) s.entries;
    reserved = pos 1 +ℤ reserved p.tenant_id (some p.user_id) s.entries;
  }
  unfolding after first first_draft
  account-after = account-with_entry first_draft s

  finally : Store
  finally = with_entry (stored second_draft) after

  account-finally : account_of p finally ≡ record {
    available = pos 0 +ℤ (account_of p after).available;
    reserved = neg (pos 1) +ℤ (account_of p after).reserved;
  }
  unfolding finally second second_draft
  account-finally = account-with_entry second_draft after

  reserve_step :
      pos 1 ≤ℤ available p.tenant_id (some p.user_id) s.entries
      → reserve_for_registration k p s ≡ (ok (inserted (stored first_draft) s), after)
  unfolding reserve_for_registration after first_draft first
  reserve_step enough =
      reserve_credits-fresh first (pos 1) s IsFresh-first ∙ rw (not_short _ enough)
    where
      not_short : (a : ℤ) → pos 1 ≤ℤ a → ltb_ℤ a (pos 1) ≡ false
      not_short a e = ground arith

  consume_step :
      pos 0 ≤ℤ reserved p.tenant_id (some p.user_id) s.entries
      → consume_reserved_for_registration k
          (record p { idempotency_key = consume_key p.idempotency_key })
          after
        ≡ (ok (inserted (stored second_draft) after), finally)
  unfolding consume_reserved_for_registration finally second_draft second
  consume_step none_owed =
      consume_reserved_credits-fresh second (pos 1) after IsFresh-second
      ∙ rw (not_short _ reserved_now)
    where
      not_short : (a : ℤ) → pos 1 ≤ℤ a → ltb_ℤ a (pos 1) ≡ false
      not_short a e = ground arith

      reserved_now : pos 1 ≤ℤ reserved p.tenant_id (some p.user_id) after.entries
      reserved_now =
          omega (int_laws, parts_of_eq _ _ (ap (λ (a : Account). a.reserved) account-after))

  refused_step :
      available p.tenant_id (some p.user_id) s.entries ≤ℤ pos 0
      → reserve_for_registration k p s ≡ (err insufficient_credits, s)
  unfolding reserve_for_registration first
  refused_step short = reserve_credits-fresh first (pos 1) s IsFresh-first ∙ rw (is_short _ short)
    where
      is_short : (a : ℤ) → a ≤ℤ pos 0 → ltb_ℤ a (pos 1) ≡ true
      is_short a e = ground arith

  paid_run :
      pos 1 ≤ℤ available p.tenant_id (some p.user_id) s.entries
      → pos 0 ≤ℤ reserved p.tenant_id (some p.user_id) s.entries
      → consume_for_registration k p s
        ≡ (ok (get_summary p.tenant_id p.user_id finally.entries), finally)
  unfolding consume_for_registration
  paid_run enough none_owed = rw (reserve_step enough) (rw (consume_step none_owed))

  paid_available : (account_of p finally).available ≡ (account_of p s).available -ℤ pos 1
  paid_available = eq_of_parts _ _ (
      omega (
        int_laws,
        parts_of_eq _ _ (ap (λ (a : Account). a.available) account-after),
        parts_of_eq _ _ (ap (λ (a : Account). a.available) account-finally),
      ))

  paid_reserved : (account_of p finally).reserved ≡ (account_of p s).reserved
  paid_reserved = eq_of_parts _ _ (
      omega (
        int_laws,
        parts_of_eq _ _ (ap (λ (a : Account). a.reserved) account-after),
        parts_of_eq _ _ (ap (λ (a : Account). a.reserved) account-finally),
      ))

-- A user of a known tenant with a credit, nothing owed among the reserved ones, and a key that is
-- not blank and not in use (nor its `:consume` form): the registration succeeds with the summary of the new
-- ledger, one available credit is gone, and the reserved credits are as before.
pub consume_for_registration-pays :
    (k : Kind) (p : Registration) (s : Store)
    → CanRegister p s
    → pos 1 ≤ℤ (account_of p s).available
    → pos 0 ≤ℤ (account_of p s).reserved
    → (let r = consume_for_registration k p s in
        (r.0 ≡ ok (get_summary p.tenant_id p.user_id r.1.entries))
        × ((account_of p r.1).available ≡ (account_of p s).available -ℤ pos 1)
        × ((account_of p r.1).reserved ≡ (account_of p s).reserved))
consume_for_registration-pays k p s h enough none_owed =
    rw (paid_run k p s h enough none_owed) (refl, paid_available k p s h, paid_reserved k p s h)

-- For a user of a known tenant, with no available credit, and a key that is not blank and not in
-- use (nor its `:consume` form), the registration is refused and the ledger stays as it is.
pub consume_for_registration-refused :
    (k : Kind) (p : Registration) (s : Store)
    → CanRegister p s
    → (account_of p s).available ≤ℤ pos 0
    → consume_for_registration k p s ≡ (err insufficient_credits, s)
unfolding consume_for_registration
consume_for_registration-refused k p s h short = rw (refused_step k p s h short)
