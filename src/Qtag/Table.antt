-- ===== src/Qtag/Table.antt =====
-- QTagFulfillmentFacet.ts: `createLedgerEntry`, `findIdempotentEntry`, `getBalanceProjection` and
-- `createAdminAuditLog`.
use qc_backend.Base.{
  ℕ, ◌+◌, String, List, ◌∷◌, Option, some, none, ℤ, pos, ◌+ℤ◌, Bool, true, false, not, ◌&&◌, ◌==◌,
  if◌then◌else◌, truthy, any, is_some_of, select, find_first, length, foldl, pure, raise_if, gets,
  modify, ◌>>=◌, ◌>>◌, string_has_eq,
}
use qc_backend.Ledger.Types.{Actor}
use qc_backend.Ledger.Table.{fits_int4}
use qc_backend.Qtag.Types.{
  EntryType, same_type, Draft, Entry, AuditAction, World, Call, Outside, Order, unique_constraint,
  out_of_range, foreign_key,
}

abbrev pub keyed : String → String → Entry → Bool
keyed tenant key e = e.tenant_id == tenant && is_some_of e.idempotency_key key

-- `@@unique([tenantId, idempotencyKey])`; rows without a key do not clash.
abbrev pub is_taken : String → Option String → List Entry → Bool
is_taken tenant none rows = false
is_taken tenant (some key) rows = any (keyed tenant key) rows

abbrev metadata_or_empty : Option String → Option String
metadata_or_empty none = some "{}"
metadata_or_empty (some m) = some m

abbrev pub columns : Draft → Draft
columns d = record d { user_id = truthy d.user_id; metadata = metadata_or_empty d.metadata }

abbrev pub new_entry : Outside → Draft → World → Entry
new_entry o d w = record { id = o.cuid w.drawn; draft = columns d }

abbrev pub with_new_entry : Outside → Draft → World → World
with_new_entry o d w = record w { entries = new_entry o d w ∷ w.entries; drawn = w.drawn + 1 }

abbrev pub fits_numbers : Draft → Bool
fits_numbers d = fits_int4 d.quantity && (fits_int4 d.available_delta && fits_int4 d.reserved_delta)

abbrev pub is_null_or : (String → Bool) → Option String → Bool
is_null_or there none = true
is_null_or there (some id) = there id

abbrev pub has_order_row : World → String → Bool
has_order_row w id = any (λ (r : Order). r.id == id) w.orders

-- The foreign keys: the tenant is there, and so are the purchase order and the order of the tag, if
-- the row names them.
unfoldable pub has_references : Draft → World → Bool
has_references d w =
    any (λ t. t == d.tenant_id) w.tenants
    && (is_null_or (λ id. any (λ p. p == id) w.purchase_orders) d.purchase_order_id
        && is_null_or (has_order_row w) d.fulfillment_order_id)

unfoldable pub create_entry : Outside → Draft → Call Entry
create_entry o d = do
  raise_if (not (fits_numbers d)) out_of_range
  taken ← gets (λ (w : World). is_taken d.tenant_id d.idempotency_key w.entries)
  raise_if taken unique_constraint
  parents ← gets (has_references d)
  raise_if (not parents) foreign_key
  e ← gets (new_entry o d)
  modify (with_new_entry o d)
  pure e

abbrev keyed_entry : String → Option String → List Entry → Option Entry
keyed_entry tenant none rows = none
keyed_entry tenant (some key) rows = find_first (keyed tenant key) rows

unfoldable pub find_entry : String → Option String → List Entry → Option Entry
find_entry tenant key rows = keyed_entry tenant (truthy key) rows

abbrev pub is_of_user : Option String → Entry → Bool
is_of_user none e = true
is_of_user (some u) e = is_some_of e.user_id u

-- The rows of `where: { tenantId, ...(userId ? { userId } : {}) }`.
abbrev pub is_counted : String → Option String → Entry → Bool
is_counted tenant user e = e.tenant_id == tenant && is_of_user (truthy user) e

-- The accumulator of the `reduce`; a type that is missing from `byType` reads as 0.
pub record Totals : Type 0 where
  pub available : ℤ
  pub reserved : ℤ
  pub by_type : EntryType → ℤ

abbrev pub nothing_yet : Totals
nothing_yet = record { available = pos 0; reserved = pos 0; by_type = λ t. pos 0 }

abbrev pub count_entry : Totals → Entry → Totals
count_entry acc e = record {
  available = acc.available +ℤ e.available_delta;
  reserved = acc.reserved +ℤ e.reserved_delta;
  by_type = λ t. if same_type t e.entry_type then acc.by_type t +ℤ e.quantity else acc.by_type t;
}

pub record QtagBalance : Type 0 where
  pub tenant_id : String
  pub user_id : Option String
  pub available : ℤ
  pub reserved : ℤ
  pub total : ℤ
  pub purchased : ℤ
  pub granted : ℤ
  pub consumed : ℤ
  pub released : ℤ
  pub revoked : ℤ
  pub entry_count : ℕ

unfoldable pub balance_of : String → Option String → List Entry → QtagBalance
balance_of tenant user rows =
    let found = select (is_counted tenant user) rows in
    let totals = foldl count_entry nothing_yet found in
    record {
      tenant_id = tenant;
      user_id = user;
      available = totals.available;
      reserved = totals.reserved;
      total = totals.available +ℤ totals.reserved;
      purchased = totals.by_type EntryType.purchased;
      granted = totals.by_type EntryType.granted;
      consumed = totals.by_type EntryType.consumed;
      released = totals.by_type EntryType.released;
      revoked = totals.by_type EntryType.revoked;
      entry_count = length found;
    }

abbrev pub with_audit :
    Actor → String → AuditAction → String → String → Option String → Option String → World → World
with_audit actor tenant action resource reason ip agent w = record w {
  audits =
      record {
        tenant_id = tenant;
        actor_user_id = actor.actor_user_id;
        actor_tenant_id = actor.actor_tenant_id;
        action = action;
        resource_id = resource;
        reason = reason;
        correlation_id = actor.correlation_id;
        ip_address = ip;
        user_agent = agent;
      }
      ∷ w.audits;
}

unfoldable pub write_audit :
    Actor → String → AuditAction → String → String → Option String → Option String → Call (Unit {0})
write_audit actor tenant action resource reason ip agent =
    modify (with_audit actor tenant action resource reason ip agent)
