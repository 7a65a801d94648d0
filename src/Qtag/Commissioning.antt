-- ===== src/Qtag/Commissioning.antt =====
-- CommissioningFacet.ts: a tag is encoded in a session, whose end (Confirming) moves the order. No call runs in a
-- transaction. The answer of a start leaves out the pages of the layout and the lock flag.
use qc_backend.Base.{
  any, ℕ, ◌+◌, String, ◌∷◌, Option, some, none, Bool, true, false, not, ◌&&◌, ◌==◌, nat_eq, truthy,
  find_first, all_hex, text_length, pure, raise_if, or_raise, gets, modify, ◌>>=◌, ◌>>◌,
  string_has_eq,
}
use qc_backend.Qtag.Types.{
  OrderStatus, requested, ready_for_encoding, encoding_in_progress, encoding_failed, in_progress,
  Order, Asset, Session, Event, World, Call, Outside, Signed, invalid_ntag_uid,
  fulfillment_order_not_found, order_not_ready, signing_failed, layout_failed, foreign_key,
}
use qc_backend.Qtag.Table.{is_null_or, has_order_row}
use qc_backend.Qtag.Release.{on_order, update_order}

-- `SecureContext`, as far as the facet reads it
pub record Caller : Type 0 where
  pub tenant_id : String
  pub api_key_id : String

-- `StartPayload`; the metadata is JSON text.
pub record Start : Type 0 where
  pub asset_id : String
  pub ntag_uid : String
  pub metadata : String
  pub fulfillment_order_id : Option String
  pub station_id : Option String
  pub operator_id : Option String

pub record Started : Type 0 where
  pub session_id : String
  pub layout : String
  pub sdm_mac_key : String
  pub write_key : String

abbrev pub is_ready : OrderStatus → Bool
is_ready requested = true
is_ready ready_for_encoding = true
is_ready encoding_failed = true
is_ready _ = false

abbrev pub is_order_of : String → String → Order → Bool
is_order_of tenant asset r = r.tenant_id == tenant && r.asset_id == asset

abbrev pub order_with_id : String → World → Option Order
order_with_id id w = find_first (λ (r : Order). r.id == id) w.orders

abbrev pub start_order_named : Caller → String → String → Call (Option Order)
start_order_named ctx asset id = do
  found ← gets (order_with_id id)
  order ← or_raise found fulfillment_order_not_found
  raise_if (not (is_order_of ctx.tenant_id asset order)) fulfillment_order_not_found
  raise_if (not (is_ready order.status)) order_not_ready
  pure (some order)

-- The order that the payload names, if it names one.
abbrev pub start_order : Caller → String → Option String → Call (Option Order)
start_order ctx asset none = pure none
start_order ctx asset (some id) = start_order_named ctx asset id

abbrev attempt_after : Option Order → ℕ
attempt_after none = 1
attempt_after (some r) = r.attempts + 1

abbrev operator_of : Caller → Start → String
operator_of ctx p = elim (truthy p.operator_id) [ none ↦ ctx.api_key_id | some s ↦ s ]

abbrev pub new_session : Outside → Caller → Start → String → String → Option Order → World → Session
new_session o ctx p uid layout order w = record {
  id = o.cuid w.drawn;
  tenant_id = ctx.tenant_id;
  asset_id = p.asset_id;
  fulfillment_order_id = p.fulfillment_order_id;
  ntag_uid = uid;
  status = in_progress;
  attempt_no = attempt_after order;
  station_id = p.station_id;
  operator_id = some (operator_of ctx p);
  layout_b64 = layout;
  sdm_mac_key_id = o.wrap_user_key (o.fresh_key 0 w.drawn);
  sdm_enc_key_id = o.wrap_user_key (o.fresh_key 1 w.drawn);
  locked_at = none;
}

abbrev with_session : Session → World → World
with_session s w = record w { sessions = s ∷ w.sessions; drawn = w.drawn + 1 }

abbrev pub encoding : Caller → Start → Order → Order
encoding ctx p r = record r {
  status = encoding_in_progress;
  attempts = r.attempts + 1;
  claimed_by_actor_id = some (operator_of ctx p);
  last_error = none;
}

abbrev pub mark_encoding : Caller → Start → Option Order → Call (Unit {0})
mark_encoding ctx p none = pure tt
mark_encoding ctx p (some r) = update_order r.id (encoding ctx p)

abbrev anchor_event : Caller → Start → String → Signed → Event
anchor_event ctx p uid s = record {
  tenant_id = ctx.tenant_id;
  asset_id = p.asset_id;
  falcon_hash = s.falcon_hash;
  ntag_uid = uid;
  dat = s.dat;
  signature_hash = s.payload_hash;
}

-- The foreign keys of the event: its tenant and its asset are there.
abbrev pub has_event_parents : Caller → String → World → Bool
has_event_parents ctx asset w =
    any (λ t. t == ctx.tenant_id) w.tenants && any (λ (a : Asset). a.id == asset) w.assets

-- The foreign key of the session, whose column takes the name as it is.
abbrev pub has_order_if_named : Option String → World → Bool
has_order_if_named order w = is_null_or (has_order_row w) order

unfoldable pub start : Outside → Caller → Start → Call Started
unfolding on_order
start o ctx p = do
  raise_if (not (nat_eq (text_length p.ntag_uid) 14 && all_hex p.ntag_uid)) invalid_ntag_uid
  let uid = o.to_lower_case p.ntag_uid
  order ← start_order ctx p.asset_id (truthy p.fulfillment_order_id)
  signed ← or_raise (o.sign p.asset_id uid p.metadata) signing_failed
  anchored ← gets (has_event_parents ctx p.asset_id)
  raise_if (not anchored) foreign_key
  modify (λ w. record w { events = anchor_event ctx p uid signed ∷ w.events })
  layout ← or_raise (o.layout_b64 uid signed.dat signed.falcon_hash p.metadata) layout_failed
  mac_key ← gets (λ (w : World). o.fresh_key 0 w.drawn)
  write_key ← gets (λ (w : World). o.fresh_key 2 w.drawn)
  held ← gets (has_order_if_named p.fulfillment_order_id)
  raise_if (not held) foreign_key
  session ← gets (new_session o ctx p uid layout order)
  modify (with_session session)
  mark_encoding ctx p order
  pure (record {
    session_id = session.id;
    layout = layout;
    sdm_mac_key = mac_key;
    write_key = write_key;
  })
