-- ===== src/Ledger/Table.antt =====
-- The table of entries: `createLedgerEntry`, `findIdempotentEntry`, `getBalanceProjection`.
use qc_backend.Base.{
  suc, String, List, ◌∷◌, Option, some, none, ℤ, pos, negsuc, ◌+ℤ◌, Bool, true, false, not, ◌&&◌,
  ◌==◌, if◌then◌else◌, leb_ℤ, truthy, any, is_some_of, select, find_first, length, foldl, pure,
  raise_if, gets, modify, ◌>>=◌, ◌>>◌, string_has_eq,
}
use qc_backend.Ledger.Types.{
  EntryType, same_type, Draft, Entry, Store, Balance, out_of_range, unique_constraint, foreign_key,
}
use qc_backend.Ledger.Guards.{Call}

-- A column of type INT4.
abbrev pub fits_int4 : ℤ → Bool
fits_int4 n = leb_ℤ (negsuc 2147483647) n && leb_ℤ n (pos 2147483647)

abbrev pub fits_columns : Draft → Bool
fits_columns d = fits_int4 d.amount && (fits_int4 d.available_delta && fits_int4 d.reserved_delta)

-- The row has this tenant and this idempotency key.
abbrev pub has_key : String → String → Entry → Bool
has_key tenant key e = e.tenant_id == tenant && is_some_of e.idempotency_key key

-- `@@unique([tenantId, idempotencyKey])`; rows without a key do not clash.
unfoldable pub key_taken : String → Option String → List Entry → Bool
key_taken tenant none rows = false
key_taken tenant (some key) rows = any (has_key tenant key) rows

abbrev pub has_order : Option String → List String → Bool
has_order none orders = true
has_order (some id) orders = any (λ o. o == id) orders

-- The foreign keys: the tenant is there, and so is the purchase order, if the row names one.
unfoldable pub has_parents : String → Option String → Store → Bool
has_parents tenant order s = any (λ t. t == tenant) s.tenants && has_order order s.purchase_orders

-- The columns as `createLedgerEntry` fills them.
abbrev pub stored : Draft → Draft
stored d = record d {
  user_id = truthy d.user_id;
  purchase_order_id = truthy d.purchase_order_id;
  metadata = elim d.metadata [ none ↦ some "{}" | some m ↦ some m ];
}

abbrev pub inserted : Draft → Store → Entry
inserted d s = record { id = s.next_id; draft = d }

abbrev pub with_entry : Draft → Store → Store
with_entry d s = record s { entries = inserted d s ∷ s.entries; next_id = suc s.next_id }

-- `tx.creditLedgerEntry.create`
unfoldable pub insert_entry : Draft → Call Entry
insert_entry d = do
  raise_if (not (fits_columns d)) out_of_range
  raise_if (← gets (λ s. key_taken d.tenant_id d.idempotency_key s.entries)) unique_constraint
  raise_if (← gets (λ s. not (has_parents d.tenant_id d.purchase_order_id s))) foreign_key
  entry ← gets (inserted d)
  modify (with_entry d)
  pure entry

unfoldable pub create_ledger_entry : Draft → Call Entry
create_ledger_entry d = insert_entry (stored d)

abbrev pub find_keyed : String → Option String → List Entry → Option Entry
find_keyed tenant none rows = none
find_keyed tenant (some key) rows = find_first (has_key tenant key) rows

unfoldable pub find_idempotent_entry : String → Option String → List Entry → Option Entry
find_idempotent_entry tenant key rows = find_keyed tenant (truthy key) rows

abbrev pub fits_user : Option String → Entry → Bool
fits_user none e = true
fits_user (some u) e = is_some_of e.user_id u

-- The rows of `where: { tenantId, ...(userId ? { userId } : {}) }`.
abbrev pub in_scope : String → Option String → Entry → Bool
in_scope tenant user e = e.tenant_id == tenant && fits_user (truthy user) e

-- The accumulator of the `reduce`; a type that is missing from `byType` reads as 0.
pub record Totals : Type 0 where
  pub available : ℤ
  pub reserved : ℤ
  pub by_type : EntryType → ℤ

abbrev pub no_totals : Totals
no_totals = record { available = pos 0; reserved = pos 0; by_type = λ t. pos 0 }

abbrev pub add_entry : Totals → Entry → Totals
add_entry acc e = record {
  available = acc.available +ℤ e.available_delta;
  reserved = acc.reserved +ℤ e.reserved_delta;
  by_type = λ t. if same_type t e.entry_type then acc.by_type t +ℤ e.amount else acc.by_type t;
}

unfoldable pub get_balance_projection : String → Option String → List Entry → Balance
get_balance_projection tenant user rows =
    let found = select (in_scope tenant user) rows in
    let totals = foldl add_entry no_totals found in
    record {
      tenant_id = tenant;
      user_id = user;
      available = totals.available;
      reserved = totals.reserved;
      total = totals.available +ℤ totals.reserved;
      purchased = totals.by_type EntryType.purchased;
      granted = totals.by_type EntryType.granted;
      adjusted = totals.by_type EntryType.adjusted;
      consumed = totals.by_type EntryType.consumed;
      revoked = totals.by_type EntryType.revoked;
      entry_count = length found;
    }
