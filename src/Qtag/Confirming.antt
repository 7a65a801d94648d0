-- ===== src/Qtag/Confirming.antt =====
-- CommissioningFacet.ts: the end of a session, and its query.
use qc_backend.Base.{
  ℕ, ◌+◌, String, ◌∷◌, Option, some, none, Bool, true, false, not, ◌&&◌, ◌==◌, ltb, if◌then◌else◌,
  is_empty, truthy, any, map, find_first, pure, raise_if, or_raise, gets, modify, ◌>>=◌, ◌>>◌,
  string_has_eq,
}
use qc_backend.Qtag.Types.{
  encoding_failed, activated, SessionStatus, completed, failed, Order, Asset, Session, Device,
  World, Call, Outside, fulfillment_order_not_found, session_not_found, uid_mismatch,
  incomplete_write, record_not_found,
}
use qc_backend.Qtag.Release.{on_order, update_order, consume_reservation}
use qc_backend.Qtag.Commissioning.{Caller, is_order_of, order_with_id}

-- `ConfirmPayload`
pub record Confirmation : Type 0 where
  pub session_id : String
  pub success : Bool
  pub bytes_written : ℕ
  pub ntag_uid : String

abbrev pub session_named : String → World → Option Session
session_named id w = find_first (λ (s : Session). s.id == id) w.sessions

abbrev ended_session : String → SessionStatus → Option ℕ → Session → Session
ended_session id status locked_at s =
    if s.id == id then record s { status = status; locked_at = locked_at } else s

abbrev pub end_session : Session → SessionStatus → Option ℕ → Call (Unit {0})
end_session s status locked_at =
    modify (λ w. record w { sessions = map (ended_session s.id status locked_at) w.sessions })

abbrev rekeyed : String → Session → Device → Device
rekeyed uid s d =
    if d.uid == uid
    then record d {
      sdm_mac_key_id = s.sdm_mac_key_id;
      sdm_enc_key_id = s.sdm_enc_key_id;
      is_active = true;
    }
    else d

abbrev added_device : Outside → Caller → String → Session → World → Device
added_device o ctx uid s w = record {
  id = o.cuid w.drawn;
  uid = uid;
  tenant_id = ctx.tenant_id;
  sdm_mac_key_id = s.sdm_mac_key_id;
  sdm_enc_key_id = s.sdm_enc_key_id;
  is_active = true;
}

abbrev pub upserted : Outside → Caller → String → Session → Option Device → Call String
upserted o ctx uid s (some d) = do
  modify (λ w. record w { devices = map (rekeyed uid s) w.devices })
  pure d.id
upserted o ctx uid s none = do
  d ← gets (added_device o ctx uid s)
  modify (λ w. record w { devices = d ∷ w.devices; drawn = w.drawn + 1 })
  pure d.id

-- `device.upsert`, by the uid alone
unfoldable pub upsert_device : Outside → Caller → String → Session → Call String
upsert_device o ctx uid s = do
  found ← gets (λ (w : World). find_first (λ (d : Device). d.uid == uid) w.devices)
  upserted o ctx uid s found

abbrev pub linked : String → String → Asset → Asset
linked id device a = if a.id == id then record a { device_id = some device } else a

-- `asset.update`, which fails where no row has the id
unfoldable pub link_asset : String → String → Call (Unit {0})
link_asset id device = do
  there ← gets (λ (w : World). any (λ (a : Asset). a.id == id) w.assets)
  raise_if (not there) record_not_found
  modify (λ w. record w { assets = map (linked id device) w.assets })

abbrev pub active_since : ℕ → Order → Order
active_since now r = record r { status = activated; activated_at = some now; last_error = none }

abbrev pub activate_order : Outside → ℕ → Caller → Session → String → String → Call (Unit {0})
activate_order o now ctx s device order_id = do
  found ← gets (order_with_id order_id)
  order ← or_raise found fulfillment_order_not_found
  raise_if (not (is_order_of ctx.tenant_id s.asset_id order)) fulfillment_order_not_found
  link_asset s.asset_id device
  consume_reservation o (record {
    tenant_id = ctx.tenant_id;
    fulfillment_order_id = order_id;
    asset_id = s.asset_id;
    user_id = order.user_id;
    reason = some "QTAG ativada após gravação física confirmada.";
    metadata = some s.asset_id;
  })
  update_order order_id (active_since now)

abbrev pub activate : Outside → ℕ → Caller → Session → String → Option String → Call (Unit {0})
activate o now ctx s device none = pure tt
activate o now ctx s device (some order_id) = activate_order o now ctx s device order_id

abbrev pub not_encoded : Order → Order
not_encoded r = record r {
  status = encoding_failed;
  last_error = some "Encoding station reported failure";
}

abbrev pub fail_order : Option String → Call (Unit {0})
fail_order none = pure tt
fail_order (some order_id) = do
  there ← gets (λ (w : World). any (λ (r : Order). r.id == order_id) w.orders)
  raise_if (not there) record_not_found
  update_order order_id not_encoded

abbrev pub conclude : Outside → ℕ → Caller → Confirmation → Session → Bool → Call SessionStatus
conclude o now ctx p s true = do
  end_session s completed (some now)
  device ← upsert_device o ctx (o.to_lower_case p.ntag_uid) s
  activate o now ctx s device (truthy s.fulfillment_order_id)
  pure completed
conclude o now ctx p s false = do
  end_session s failed s.locked_at
  fail_order (truthy s.fulfillment_order_id)
  pure failed

abbrev pub other_uid : Outside → Confirmation → Session → Bool
other_uid o p s = not (is_empty s.ntag_uid) && not (s.ntag_uid == o.to_lower_case p.ntag_uid)

unfoldable pub confirm : Outside → ℕ → Caller → Confirmation → Call SessionStatus
unfolding upsert_device link_asset consume_reservation on_order
confirm o now ctx p = do
  found ← gets (session_named p.session_id)
  s ← or_raise found session_not_found
  raise_if (not (s.tenant_id == ctx.tenant_id)) session_not_found
  raise_if (other_uid o p s) uid_mismatch
  raise_if (p.success && ltb p.bytes_written 144) incomplete_write
  conclude o now ctx p s p.success

-- `statusQuery`
unfoldable pub status_query : Caller → String → Call Session
status_query ctx id = do
  found ← gets (session_named id)
  s ← or_raise found session_not_found
  raise_if (not (s.tenant_id == ctx.tenant_id)) session_not_found
  pure s
