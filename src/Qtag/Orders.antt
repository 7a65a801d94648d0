-- ===== src/Qtag/Orders.antt =====
-- QTagFulfillmentFacet.ts: the calls that write.
use qc_backend.Base.{
  ◌+◌, String, ◌∷◌, Option, some, none, ℤ, pos, negsuc, Bool, true, false, not, ◌&&◌, ◌==◌, ltb_ℤ,
  is_empty, truthy, any, find_first, pure, raise_if, from_result, or_raise, gets, modify,
  transaction, ◌>>=◌, ◌>>◌, string_has_eq,
}
use Prim.Native.String.{◌++◌}
use qc_backend.Ledger.Types.{Number, Actor}
use qc_backend.Qtag.Types.{
  granted, purchased, reserved, OrderStatus, requested, cancelled, expired, Draft, Entry, Order,
  Asset, qtag_granted, qtag_reserved, World, Call, Outside, asset_not_found, asset_already_tagged,
  qtag_already_reserved, insufficient_qtags, unique_constraint,
}
use qc_backend.Qtag.Guards.{
  normalize_positive_quantity, validate_key, ensure_platform, ensure_tenant, reason_of,
}
use qc_backend.Qtag.Table.{create_entry, find_entry, balance_of, write_audit}

-- `QTagMutationContext`
pub record Grant : Type 0 where
  pub user_id : Option String
  pub quantity : Number
  pub reason : Option String
  pub idempotency_key : Option String
  pub reference_type : Option String
  pub reference_id : Option String
  pub metadata : Option String
  pub ip_address : Option String
  pub user_agent : Option String

abbrev pub grant_draft : Actor → String → Grant → ℤ → String → Draft
grant_draft actor tenant p quantity reason = record {
  tenant_id = tenant;
  user_id = p.user_id;
  purchase_order_id = none;
  fulfillment_order_id = none;
  entry_type = granted;
  quantity = quantity;
  available_delta = quantity;
  reserved_delta = pos 0;
  idempotency_key = p.idempotency_key;
  reference_type = p.reference_type;
  reference_id = p.reference_id;
  actor_user_id = some actor.actor_user_id;
  reason = some reason;
  metadata = p.metadata;
}

-- What follows the search for an entry with the key.
abbrev pub granted_or_found :
    Outside → Actor → String → Grant → ℤ → String → Option Entry → Call Entry
granted_or_found o actor tenant p quantity reason (some e) = pure e
granted_or_found o actor tenant p quantity reason none = do
  e ← create_entry o (grant_draft actor tenant p quantity reason)
  write_audit actor tenant qtag_granted e.id reason p.ip_address p.user_agent
  pure e

unfoldable pub grant_qtags : Outside → Actor → String → Grant → Call Entry
unfolding create_entry find_entry write_audit
grant_qtags o actor tenant p = do
  from_result (ensure_platform actor)
  reason ← from_result (reason_of p.reason actor)
  quantity ← from_result (normalize_positive_quantity p.quantity)
  ensure_tenant tenant
  transaction do
    found ← gets (λ (w : World). find_entry tenant p.idempotency_key w.entries)
    granted_or_found o actor tenant p quantity reason found

pub record Purchase : Type 0 where
  pub tenant_id : String
  pub user_id : Option String
  pub purchase_order_id : String
  pub quantity : Number
  pub idempotency_key : String
  pub reason : Option String
  pub metadata : Option String

abbrev pub or_default : Option String → String → String
or_default o s = elim (truthy o) [ none ↦ s | some x ↦ x ]

abbrev pub purchase_draft : Purchase → ℤ → Draft
purchase_draft p quantity = record {
  tenant_id = p.tenant_id;
  user_id = p.user_id;
  purchase_order_id = some p.purchase_order_id;
  fulfillment_order_id = none;
  entry_type = purchased;
  quantity = quantity;
  available_delta = quantity;
  reserved_delta = pos 0;
  idempotency_key = some p.idempotency_key;
  reference_type = some "purchase_order";
  reference_id = some p.purchase_order_id;
  actor_user_id = none;
  reason = some (or_default p.reason "Compra de QTAG confirmada pelo provedor.");
  metadata = p.metadata;
}

abbrev pub purchased_or_found : Outside → Purchase → ℤ → Option Entry → Call Entry
purchased_or_found o p quantity (some e) = pure e
purchased_or_found o p quantity none = create_entry o (purchase_draft p quantity)

-- `purchaseConfirmed`, within its caller's transaction
unfoldable pub purchase_confirmed : Outside → Purchase → Call Entry
unfolding create_entry find_entry
purchase_confirmed o p = do
  quantity ← from_result (normalize_positive_quantity p.quantity)
  from_result (validate_key p.idempotency_key)
  found ← gets (λ (w : World). find_entry p.tenant_id (some p.idempotency_key) w.entries)
  purchased_or_found o p quantity found

pub record Reservation : Type 0 where
  pub user_id : Option String
  pub asset_id : String
  pub reason : Option String
  pub idempotency_key : Option String
  pub shipping_recipient : Option String
  pub sku : Option String
  pub metadata : Option String
  pub ip_address : Option String
  pub user_agent : Option String

-- The result of a reservation or a release; `order` is missing where a reservation is found whose
-- order is gone.
pub record Reserved : Type 0 where
  pub order : Option Order
  pub ledger_entry : Entry
  pub deduped : Bool

abbrev pub is_open : OrderStatus → Bool
is_open cancelled = false
is_open expired = false
is_open _ = true

abbrev pub of_asset : String → String → Order → Bool
of_asset tenant asset r = r.tenant_id == tenant && r.asset_id == asset

abbrev pub new_order : Outside → Actor → String → Reservation → String → World → Order
new_order o actor tenant p reason w = record {
  id = o.cuid w.drawn;
  tenant_id = tenant;
  user_id = truthy p.user_id;
  asset_id = p.asset_id;
  status = requested;
  sku = p.sku;
  shipping_recipient = p.shipping_recipient;
  tracking_code = none;
  carrier = none;
  notes = some reason;
  attempts = 0;
  last_error = none;
  claimed_by_actor_id = some actor.actor_user_id;
  dispatched_at = none;
  delivered_at = none;
  activated_at = none;
  cancelled_at = none;
  cancellation_reason = none;
}

abbrev pub with_order : Order → World → World
with_order r w = record w { orders = r ∷ w.orders; drawn = w.drawn + 1 }

unfoldable pub create_order : Order → Call (Unit {0})
create_order r = do
  taken ← gets (λ (w : World). any (λ (x : Order). x.id == r.id) w.orders)
  raise_if taken unique_constraint
  modify (with_order r)

abbrev pub reserve_draft : Actor → String → Reservation → String → String → String → Draft
reserve_draft actor tenant p key reason order = record {
  tenant_id = tenant;
  user_id = p.user_id;
  purchase_order_id = none;
  fulfillment_order_id = some order;
  entry_type = reserved;
  quantity = pos 1;
  available_delta = negsuc 0;
  reserved_delta = pos 1;
  idempotency_key = some key;
  reference_type = some "asset";
  reference_id = some p.asset_id;
  actor_user_id = some actor.actor_user_id;
  reason = some reason;
  metadata = p.metadata;
}

abbrev pub reserved_or_found :
    Outside → Actor → String → Reservation → String → String → Option Entry → Call Reserved
reserved_or_found o actor tenant p key reason (some e) = do
  order ← gets (λ (w : World). find_first (of_asset tenant p.asset_id) w.orders)
  pure (record { order = order; ledger_entry = e; deduped = true })
reserved_or_found o actor tenant p key reason none = do
  active ← gets (λ (w : World).
      any (λ (r : Order). of_asset tenant p.asset_id r && is_open r.status) w.orders)
  raise_if active qtag_already_reserved
  balance ← gets (λ (w : World). balance_of tenant p.user_id w.entries)
  raise_if (ltb_ℤ balance.available (pos 1)) insufficient_qtags
  order ← gets (new_order o actor tenant p reason)
  create_order order
  e ← create_entry o (reserve_draft actor tenant p key reason order.id)
  write_audit actor tenant qtag_reserved order.id reason p.ip_address p.user_agent
  pure (record { order = some order; ledger_entry = e; deduped = false })

abbrev pub has_text : Option String → Bool
has_text none = false
has_text (some s) = not (is_empty s)

unfoldable pub reserve_for_asset : Outside → Actor → String → Reservation → Call Reserved
unfolding create_entry find_entry balance_of write_audit create_order
reserve_for_asset o actor tenant p = do
  from_result (ensure_platform actor)
  reason ← from_result (reason_of p.reason actor)
  ensure_tenant tenant
  found ← gets (λ (w : World).
      find_first (λ (a : Asset). a.id == p.asset_id && a.tenant_id == tenant) w.assets)
  asset ← or_raise found asset_not_found
  raise_if (has_text asset.device_id) asset_already_tagged
  let key = or_default p.idempotency_key ("qtag-reserve:" ++ (tenant ++ (":" ++ p.asset_id)))
  transaction do
    existing ← gets (λ (w : World). find_entry tenant (some key) w.entries)
    reserved_or_found o actor tenant p key reason existing
