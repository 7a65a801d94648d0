-- ===== src/Ledger/Registration.antt =====
-- RegistrationCreditFacet.ts: registration pays one credit, by a reservation that is consumed.
use Prim.Native.String.{◌++◌}
use qc_backend.Base.{
  String, List, Option, some, none, ℤ, pos, ◌+ℤ◌, ltb_ℤ, if◌then◌else◌, select, is_some_of, ◌==◌,
  ◌&&◌, foldl, string_has_eq, gets, transaction, ◌>>=◌, ◌>>◌,
}
use qc_backend.Ledger.Types.{EntryType, same_type, integer, Operational, Draft, Entry}
use qc_backend.Ledger.Guards.{Call}
use qc_backend.Ledger.Table.{insert_entry}
use qc_backend.Ledger.Operations.{
  unless_existing, find_existing, reserve_credits, consume_reserved_credits,
  release_reserved_credits,
}

-- `RegistrationCreditParams`
pub record Registration : Type 0 where
  pub tenant_id : String
  pub user_id : String
  pub idempotency_key : String
  pub reference_id : Option String
  pub reason : Option String
  pub metadata : Option String

-- What is registered: a dependent or an asset, with its reference type.
pub data Kind : Type 0 where
  dependent asset : Kind

abbrev pub reference_of : Kind → String
reference_of dependent = "DEPENDENT_REGISTRATION"
reference_of asset = "ASSET_REGISTRATION"

unfoldable pub build_ledger_params : Registration → String → Operational
build_ledger_params p type = record {
  tenant_id = p.tenant_id;
  user_id = some p.user_id;
  amount = integer (pos 1);
  idempotency_key = p.idempotency_key;
  reference_type = some type;
  reference_id = p.reference_id;
  reason = elim p.reason [ none ↦ some "registration credit consumption" | some r ↦ some r ];
  metadata = p.metadata;
  purchase_order_id = none;
}

unfoldable pub reserve_for_registration : Kind → Registration → Call Entry
unfolding build_ledger_params
reserve_for_registration k p = reserve_credits (build_ledger_params p (reference_of k))

unfoldable pub consume_reserved_for_registration : Kind → Registration → Call Entry
unfolding build_ledger_params
consume_reserved_for_registration k p =
    consume_reserved_credits (build_ledger_params p (reference_of k))

unfoldable pub release_for_registration : Kind → Registration → Call Entry
unfolding build_ledger_params
release_for_registration k p = release_reserved_credits (build_ledger_params p (reference_of k))

pub record Summary : Type 0 where
  pub tenant_id : String
  pub user_id : String
  pub credits_balance : ℤ
  pub reserved : ℤ
  pub consumed : ℤ

-- The accumulator of `getSummary`.
abbrev pub add_summary : Summary → Entry → Summary
add_summary acc e = record acc {
  credits_balance = acc.credits_balance +ℤ e.available_delta;
  reserved = acc.reserved +ℤ e.reserved_delta;
  consumed =
      if same_type e.entry_type EntryType.consumed then acc.consumed +ℤ e.amount else acc.consumed;
}

-- `Math.max(0, n)`
abbrev pub at_least_zero : ℤ → ℤ
at_least_zero n = if ltb_ℤ n (pos 0) then pos 0 else n

unfoldable pub get_summary : String → String → List Entry → Summary
get_summary tenant user rows =
    let found = select (λ e. e.tenant_id == tenant && is_some_of e.user_id user) rows in
    let start : Summary = record {
      tenant_id = tenant;
      user_id = user;
      credits_balance = pos 0;
      reserved = pos 0;
      consumed = pos 0;
    } in
    let totals = foldl add_summary start found in
    record totals {
      credits_balance = at_least_zero totals.credits_balance;
      reserved = at_least_zero totals.reserved;
    }

abbrev pub consume_key : String → String
consume_key key = key ++ ":consume"

-- `consumeForDependentRegistration` and `consumeForAssetRegistration`
unfoldable pub consume_for_registration : Kind → Registration → Call Summary
consume_for_registration k p = do
  reserve_for_registration k p
  consume_reserved_for_registration k (record p { idempotency_key = consume_key p.idempotency_key })
  gets (λ s. get_summary p.tenant_id p.user_id s.entries)

-- The entry of `grantInitialRegistrationBonus`; its metadata is a parameter, already merged.
abbrev pub bonus_draft : String → String → String → Draft
bonus_draft tenant user metadata = record {
  tenant_id = tenant;
  user_id = some user;
  purchase_order_id = none;
  entry_type = EntryType.granted;
  amount = pos 5;
  available_delta = pos 5;
  reserved_delta = pos 0;
  reference_type = some "REGISTRATION_BONUS";
  reference_id = some user;
  idempotency_key = some ("registration-bonus:" ++ user);
  actor_user_id = none;
  reason = some "initial registration bonus";
  metadata = some metadata;
}

unfoldable pub grant_initial_registration_bonus : String → String → String → Call Entry
grant_initial_registration_bonus tenant user metadata = transaction do
  existing ← find_existing tenant (some ("registration-bonus:" ++ user))
  unless_existing existing (insert_entry (bonus_draft tenant user metadata))
