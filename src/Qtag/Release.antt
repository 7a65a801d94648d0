-- ===== src/Qtag/Release.antt =====
-- QTagFulfillmentFacet.ts: the calls on an order that is there.
use qc_backend.Base.{
  ℕ, String, Option, some, none, pos, negsuc, Bool, true, false, not, ◌&&◌, ◌==◌, if◌then◌else◌,
  ltb_ℤ, map, find_first, pure, raise_if, from_result, or_raise, gets, modify, transaction, ◌>>=◌,
  ◌>>◌, string_has_eq,
}
use Prim.Native.String.{◌++◌}
use qc_backend.Ledger.Types.{Actor}
use qc_backend.Qtag.Types.{
  consumed, released, OrderStatus, dispatched, delivered, activated, cancelled, Draft, Entry, Order,
  qtag_released, qtag_status_changed, World, Call, Outside, insufficient_reserved_qtags,
  fulfillment_order_not_found, qtag_already_activated,
}
use qc_backend.Qtag.Guards.{ensure_platform, ensure_tenant, reason_of}
use qc_backend.Qtag.Table.{create_entry, find_entry, balance_of, write_audit}
use qc_backend.Qtag.Orders.{Reserved, or_default}

abbrev pub is_activated : OrderStatus → Bool
is_activated activated = true
is_activated _ = false

abbrev pub order_named : String → String → Order → Bool
order_named tenant id r = r.id == id && r.tenant_id == tenant

-- `update({ where: { id } })`, on an order that is there
unfoldable pub on_order : String → (Order → Order) → Order → Order
on_order id f r = if r.id == id then f r else r

abbrev pub update_order : String → (Order → Order) → Call (Unit {0})
update_order id f = modify (λ w. record w { orders = map (on_order id f) w.orders })

-- `ReleaseReservationParams`
pub record Release : Type 0 where
  pub reason : Option String
  pub idempotency_key : Option String
  pub ip_address : Option String
  pub user_agent : Option String

abbrev pub release_draft : Actor → String → Order → String → String → Draft
release_draft actor tenant order key reason = record {
  tenant_id = tenant;
  user_id = order.user_id;
  purchase_order_id = none;
  fulfillment_order_id = some order.id;
  entry_type = released;
  quantity = pos 1;
  available_delta = pos 1;
  reserved_delta = negsuc 0;
  idempotency_key = some key;
  reference_type = some "qtag_fulfillment_order";
  reference_id = some order.id;
  actor_user_id = some actor.actor_user_id;
  reason = some reason;
  metadata = none;
}

abbrev pub with_cancellation : ℕ → String → Order → Order
with_cancellation now reason r = record r {
  status = cancelled;
  cancelled_at = some now;
  cancellation_reason = some reason;
  last_error = none;
}

abbrev pub released_or_found :
    Outside → ℕ → Actor → String → Order → Release → String → String → Option Entry → Call Reserved
released_or_found o now actor tenant order p key reason (some e) =
    pure (record { order = some order; ledger_entry = e; deduped = true })
released_or_found o now actor tenant order p key reason none = do
  balance ← gets (λ (w : World). balance_of tenant order.user_id w.entries)
  raise_if (ltb_ℤ balance.reserved (pos 1)) insufficient_reserved_qtags
  e ← create_entry o (release_draft actor tenant order key reason)
  update_order order.id (with_cancellation now reason)
  write_audit actor tenant qtag_released order.id reason p.ip_address p.user_agent
  pure (record {
    order = some (with_cancellation now reason order);
    ledger_entry = e;
    deduped = false;
  })

abbrev pub release_found :
    Outside → ℕ → Actor → String → Release → String → String → Order → Call Reserved
release_found o now actor tenant p key reason order = do
  raise_if (is_activated order.status) qtag_already_activated
  existing ← gets (λ (w : World). find_entry tenant (some key) w.entries)
  released_or_found o now actor tenant order p key reason existing

unfoldable pub release_reservation :
    Outside → ℕ → Actor → (tenant fulfillment_order_id : String) → Release → Call Reserved
unfolding create_entry find_entry balance_of write_audit on_order
release_reservation o now actor tenant order_id p = do
  from_result (ensure_platform actor)
  reason ← from_result (reason_of p.reason actor)
  ensure_tenant tenant
  transaction do
    found ← gets (λ (w : World). find_first (order_named tenant order_id) w.orders)
    order ← or_raise found fulfillment_order_not_found
    release_found o now actor tenant p (or_default p.idempotency_key ("qtag-release:" ++ order_id))
        reason order

-- `ConsumeReservationParams`
pub record Consumption : Type 0 where
  pub tenant_id : String
  pub fulfillment_order_id : String
  pub asset_id : String
  pub user_id : Option String
  pub reason : Option String
  -- The entry's metadata, `{ assetId }`, as text.
  pub metadata : Option String

abbrev pub consume_draft : Consumption → Draft
consume_draft p = record {
  tenant_id = p.tenant_id;
  user_id = p.user_id;
  purchase_order_id = none;
  fulfillment_order_id = some p.fulfillment_order_id;
  entry_type = consumed;
  quantity = pos 1;
  available_delta = pos 0;
  reserved_delta = negsuc 0;
  idempotency_key = some ("qtag-consume:" ++ p.fulfillment_order_id);
  reference_type = some "qtag_fulfillment_order";
  reference_id = some p.fulfillment_order_id;
  actor_user_id = none;
  reason = some (or_default p.reason "QTAG ativada após gravação física confirmada.");
  metadata = p.metadata;
}

abbrev pub consumed_or_found : Outside → Consumption → Option Entry → Call Entry
consumed_or_found o p (some e) = pure e
consumed_or_found o p none = do
  balance ← gets (λ (w : World). balance_of p.tenant_id p.user_id w.entries)
  raise_if (ltb_ℤ balance.reserved (pos 1)) insufficient_reserved_qtags
  create_entry o (consume_draft p)

-- `consumeReservation`, within its caller's calls
unfoldable pub consume_reservation : Outside → Consumption → Call Entry
unfolding create_entry find_entry balance_of
consume_reservation o p = do
  found ← gets (λ (w : World).
      find_entry p.tenant_id (some ("qtag-consume:" ++ p.fulfillment_order_id)) w.entries)
  consumed_or_found o p found

-- `TransitionFulfillmentParams`
pub record Change : Type 0 where
  pub status : OrderStatus
  pub reason : Option String
  pub tracking_code : Option String
  pub carrier : Option String
  pub notes : Option String
  pub claimed_by_actor_id : Option String
  pub last_error : Option String
  pub ip_address : Option String
  pub user_agent : Option String

-- An update leaves a column that is given no value.
abbrev given_or : {A : Type 0} → Option A → Option A → Option A
given_or none old = old
given_or (some new) old = some new

abbrev time_of_dispatch : ℕ → OrderStatus → Option ℕ
time_of_dispatch now dispatched = some now
time_of_dispatch now _ = none

abbrev time_of_delivery : ℕ → OrderStatus → Option ℕ
time_of_delivery now delivered = some now
time_of_delivery now _ = none

abbrev pub with_change : ℕ → Actor → Change → Order → Order
with_change now actor p r = record r {
  status = p.status;
  tracking_code = given_or p.tracking_code r.tracking_code;
  carrier = given_or p.carrier r.carrier;
  notes = given_or p.notes r.notes;
  claimed_by_actor_id = some (or_default p.claimed_by_actor_id actor.actor_user_id);
  last_error = given_or p.last_error r.last_error;
  dispatched_at = given_or (time_of_dispatch now p.status) r.dispatched_at;
  delivered_at = given_or (time_of_delivery now p.status) r.delivered_at;
}

unfoldable pub transition_fulfillment_status :
    ℕ → Actor → (tenant fulfillment_order_id : String) → Change → Call Order
unfolding write_audit on_order
transition_fulfillment_status now actor tenant order_id p = do
  from_result (ensure_platform actor)
  reason ← from_result (reason_of p.reason actor)
  ensure_tenant tenant
  transaction do
    found ← gets (λ (w : World). find_first (order_named tenant order_id) w.orders)
    order ← or_raise found fulfillment_order_not_found
    raise_if (is_activated order.status && not (is_activated p.status)) qtag_already_activated
    update_order order.id (with_change now actor p)
    write_audit actor tenant qtag_status_changed order.id reason p.ip_address p.user_agent
    pure (with_change now actor p order)
