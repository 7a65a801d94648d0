-- ===== src/Qtag/Encoding.antt =====
-- An activated order stays activated through CommissioningFacet, but for failed encodings.
use qc_backend.Base.{
  ℕ, String, List, Option, some, none, true, false, not, ◌&&◌, ◌||◌, ◌==◌, ◌≡◌, refl, any,
  find_first, nat_eq, ltb, all_hex, text_length, truthy, string_has_eq, arith, Bool-cases,
  Option-cases, inl, inr, Kept, finished, failed, Kept-then, Kept-raise_if, Kept-or_raise, ltb_ℤ,
  pos, find_first-every,
}
use qc_backend.Qtag.Types.{
  OrderStatus, completed, Entry, Order, Asset, Device, Session, World, Outside,
  fulfillment_order_not_found, session_not_found, uid_mismatch, incomplete_write, signing_failed,
  layout_failed, foreign_key, invalid_ntag_uid, insufficient_reserved_qtags,
}
use qc_backend.Qtag.Table.{balance_of}
use qc_backend.Qtag.Release.{
  is_activated, Consumption, consume_draft, consumed_or_found, consume_reservation,
}
use qc_backend.Qtag.Commissioning.{
  Caller, Start, is_order_of, is_ready, order_with_id, start_order, encoding, mark_encoding,
  has_event_parents, has_order_if_named, start,
}
use qc_backend.Qtag.Confirming.{
  Confirmation, session_named, other_uid, upsert_device, link_asset, active_since, activate,
  conclude, confirm, end_session,
}
use qc_backend.Qtag.Activated.{
  activated_if, IsActivated, create_entry-IsActivated, update_order-IsActivated,
}
use qc_backend.Qtag.Keeping.{ne_other}

module _ (id : String) (rs : List Entry) where
  -- No order, or another one.
  abbrev Other : Option Order → Type 0
  Other none = Unit
  Other (some r) = (r.id == id) ≡ false

  ready_other :
      (key : String) (w : World) (r : Order)
      → IsActivated id rs w
      → order_with_id key w ≡ some r
      → not (is_ready r.status) ≡ false
      → (r.id == id) ≡ false
  ready_other key w r (activated, there, back) found ready =
      let fits =
        find_first-every (activated_if id) (λ (x : Order). x.id == key) w.orders r activated
          found in
      ready_lem r.status ready fits
    where
      ready_lem :
          (s : OrderStatus)
          → not (is_ready s) ≡ false
          → not (r.id == id) || is_activated s ≡ true
          → (r.id == id) ≡ false
      ready_lem s h k = ground arith

  start_order-keeps :
      (ctx : Caller) (asset : String) (named : Option String) (w : World)
      → IsActivated id rs w
      → Kept (IsActivated id rs) Other (start_order ctx asset named w)
  start_order-keeps ctx asset none w h = finished h tt
  start_order-keeps ctx asset (some key) w h = elim (Option-cases (order_with_id key w)) [
    | inl nothing ↦ rw nothing (failed h)
    | inr (r, found) ↦ elim (Bool-cases (not (is_order_of ctx.tenant_id asset r))) [
      | inl foreign ↦ rw (found, foreign) (failed h)
      | inr own ↦ elim (Bool-cases (not (is_ready r.status))) [
        | inl late ↦ rw (found, own, late) (failed h)
        | inr ready ↦ rw (found, own, ready) (finished h (ready_other key w r h found ready))
      ]
    ]
  ]

  mark_encoding-keeps :
      (ctx : Caller) (p : Start) (order : Option Order) (w : World)
      → Other order
      → IsActivated id rs w
      → Kept (IsActivated id rs) (λ _. Unit {0}) (mark_encoding ctx p order w)
  mark_encoding-keeps ctx p none w other h = finished h tt
  mark_encoding-keeps ctx p (some r) w other h =
      update_order-IsActivated id rs r.id (encoding ctx p) w (λ x. refl)
        (λ x same. absurd (ne_other id rs r.id other same)) h

  pub start-keeps :
      (o : Outside) (ctx : Caller) (p : Start) (w : World)
      → IsActivated id rs w
      → Kept (IsActivated id rs) (λ _. Unit {0}) (start o ctx p w)
  unfolding start
  start-keeps o ctx p w h =
      Kept-then _ _
        (Kept-raise_if (not (nat_eq (text_length p.ntag_uid) 14 && all_hex p.ntag_uid))
          invalid_ntag_uid w h)
        λ _ w h _.
          Kept-then _ _ (start_order-keeps ctx p.asset_id (truthy p.fulfillment_order_id) w h)
            λ order w h other.
              let uid = o.to_lower_case p.ntag_uid in
              Kept-then _ _ (Kept-or_raise (o.sign p.asset_id uid p.metadata) signing_failed w h)
                λ signed w h _.
                  Kept-then _ _
                    (Kept-raise_if (not (has_event_parents ctx p.asset_id w)) foreign_key w h)
                    λ _ w h _.
                      Kept-then _ _
                        (Kept-or_raise (o.layout_b64 uid signed.dat signed.falcon_hash p.metadata)
                          layout_failed _ h)
                        λ layout w h _.
                          Kept-then _ _
                            (Kept-raise_if (not (has_order_if_named p.fulfillment_order_id w))
                              foreign_key w h)
                            λ _ w h _.
                              Kept-then _ _ (mark_encoding-keeps ctx p order _ other h)
                                λ _ w h _. finished h tt

  consumed_or_found-keeps :
      (o : Outside) (p : Consumption) (found : Option Entry) (w : World)
      → IsActivated id rs w
      → Kept (IsActivated id rs) (λ _. Unit {0}) (consumed_or_found o p found w)
  consumed_or_found-keeps o p (some e) w h = finished h tt
  consumed_or_found-keeps o p none w h =
      Kept-then _ _
        (Kept-raise_if (ltb_ℤ (balance_of p.tenant_id p.user_id w.entries).reserved (pos 1))
          insufficient_reserved_qtags w h)
        λ _ w h _. create_entry-IsActivated id rs o (consume_draft p) w refl h

  consume_reservation-keeps :
      (o : Outside) (p : Consumption) (w : World)
      → IsActivated id rs w
      → Kept (IsActivated id rs) (λ _. Unit {0}) (consume_reservation o p w)
  unfolding consume_reservation
  consume_reservation-keeps o p w h = consumed_or_found-keeps o p _ w h

  upsert_device-keeps :
      (o : Outside) (ctx : Caller) (uid : String) (s : Session) (w : World)
      → IsActivated id rs w
      → Kept (IsActivated id rs) (λ _. Unit {0}) (upsert_device o ctx uid s w)
  unfolding upsert_device
  upsert_device-keeps o ctx uid s w h =
      elim (Option-cases (find_first (λ (d : Device). d.uid == uid) w.devices)) [
        | inl new ↦ rw new (finished h tt)
        | inr (d, found) ↦ rw found (finished h tt)
      ]

  link_asset-keeps :
      (asset device : String) (w : World)
      → IsActivated id rs w
      → Kept (IsActivated id rs) (λ _. Unit {0}) (link_asset asset device w)
  unfolding link_asset
  link_asset-keeps asset device w h =
      elim (Bool-cases (any (λ (a : Asset). a.id == asset) w.assets)) [
        | inl there ↦ rw there (finished h tt)
        | inr gone ↦ rw gone (failed h)
      ]

  activate-keeps :
      (o : Outside) (now : ℕ) (ctx : Caller) (s : Session) (device : String) (named : Option String)
      (w : World)
      → IsActivated id rs w
      → Kept (IsActivated id rs) (λ _. Unit {0}) (activate o now ctx s device named w)
  activate-keeps o now ctx s device none w h = finished h tt
  activate-keeps o now ctx s device (some key) w h =
      Kept-then _ _ (Kept-or_raise (order_with_id key w) fulfillment_order_not_found w h) λ r w h _.
        Kept-then _ _
          (Kept-raise_if (not (is_order_of ctx.tenant_id s.asset_id r)) fulfillment_order_not_found
            w h)
          λ _ w h _. Kept-then _ _ (link_asset-keeps s.asset_id device w h) λ _ w h _.
            Kept-then _ _ (consume_reservation-keeps o _ w h) λ _ w h _.
              update_order-IsActivated id rs key (active_since now) w (λ x. refl)
                (λ x same before. refl) h

  conclude-keeps :
      (o : Outside) (now : ℕ) (ctx : Caller) (p : Confirmation) (s : Session) (w : World)
      → IsActivated id rs w
      → Kept (IsActivated id rs) (λ _. Unit {0}) (conclude o now ctx p s true w)
  conclude-keeps o now ctx p s w h =
      let uid = o.to_lower_case p.ntag_uid in
      let w' = (end_session s completed (some now) w).1 in
      Kept-then _ (upsert_device o ctx uid s w') (upsert_device-keeps o ctx uid s w' h)
        λ device w h _.
          Kept-then _ (activate o now ctx s device (truthy s.fulfillment_order_id) w)
            (activate-keeps o now ctx s device (truthy s.fulfillment_order_id) w h)
            λ _ w h _. finished h tt

  pub confirm-keeps :
      (o : Outside) (now : ℕ) (ctx : Caller) (p : Confirmation) (w : World)
      → p.success ≡ true
      → IsActivated id rs w
      → Kept (IsActivated id rs) (λ _. Unit {0}) (confirm o now ctx p w)
  unfolding confirm
  confirm-keeps o now ctx p w good h =
      Kept-then _ _ (Kept-or_raise (session_named p.session_id w) session_not_found w h) λ s w h _.
        Kept-then _ _ (Kept-raise_if (not (s.tenant_id == ctx.tenant_id)) session_not_found w h)
          λ _ w h _. Kept-then _ _ (Kept-raise_if (other_uid o p s) uid_mismatch w h) λ _ w h _.
            Kept-then _ _
              (Kept-raise_if (p.success && ltb p.bytes_written 144) incomplete_write w h)
              λ _ w h _. rw good (conclude-keeps o now ctx p s w h)
