-- ===== src/Qtag/Keeping.antt =====
-- An activated order stays activated through the calls of QTagFulfillmentFacet.
use qc_backend.Base.{
  ℕ, String, List, Option, some, none, Bool, true, false, not, ◌&&◌, ◌==◌, ◌≡◌, refl, any,
  find_first, eq_iff, string_has_eq, is_some_of, arith, Bool-cases, Option-cases, inl, inr, Kept,
  finished, failed, Kept-left_by, Kept-then, Kept-rolled, Kept-raise_if, Kept-or_raise,
  Kept-from_result, ℤ, ltb_ℤ, pos, find_first-every,
}
use qc_backend.Ledger.Types.{Actor}
use qc_backend.Qtag.Types.{
  Entry, Order, Asset, World, Outside, qtag_already_reserved, insufficient_qtags, asset_not_found,
  asset_already_tagged, insufficient_reserved_qtags,
}
use qc_backend.Qtag.Guards.{
  normalize_positive_quantity, validate_key, ensure_platform, ensure_tenant, reason_of,
}
use qc_backend.Qtag.Table.{balance_of, write_audit}
use qc_backend.Qtag.Orders.{
  Grant, granted_or_found, grant_qtags, Purchase, purchased_or_found, purchase_confirmed,
  Reservation, new_order, reserved_or_found, reserve_for_asset, of_asset, is_open, reserve_draft,
  purchase_draft, has_text,
}
use qc_backend.Qtag.Release.{
  is_activated, order_named, Release, released_or_found, release_reservation, Change, with_change,
  transition_fulfillment_status, with_cancellation, release_draft,
}
use qc_backend.Qtag.Activated.{
  activated_if, IsActivated, create_entry-IsActivated, create_order-IsActivated,
  update_order-IsActivated,
}

module _ (id : String) (rs : List Entry) where
  ensure_tenant-keeps :
      (tenant : String) (w : World)
      → IsActivated id rs w
      → Kept (IsActivated id rs) (λ _. Unit {0}) (ensure_tenant tenant w)
  unfolding ensure_tenant
  ensure_tenant-keeps tenant w h = elim (Bool-cases (any (λ t. t == tenant) w.tenants)) [
    | inl known ↦ rw known (finished h tt)
    | inr foreign ↦ rw foreign (failed h)
  ]

  granted_or_found-keeps :
      (o : Outside) (actor : Actor) (tenant : String) (p : Grant) (n : ℤ) (reason : String)
      (found : Option Entry) (w : World)
      → IsActivated id rs w
      → Kept
          (IsActivated id rs)
          (λ _. Unit {0})
          (granted_or_found o actor tenant p n reason found w)
  unfolding write_audit
  granted_or_found-keeps o actor tenant p n reason (some e) w h = finished h tt
  granted_or_found-keeps o actor tenant p n reason none w h =
      Kept-then _ _ (create_entry-IsActivated id rs o _ w refl h) λ e w h _. finished h tt

  pub grant_qtags-keeps :
      (o : Outside) (actor : Actor) (tenant : String) (p : Grant) (w : World)
      → IsActivated id rs w
      → Kept (IsActivated id rs) (λ _. Unit {0}) (grant_qtags o actor tenant p w)
  unfolding grant_qtags
  grant_qtags-keeps o actor tenant p w h =
      Kept-then _ _ (Kept-from_result (ensure_platform actor) w h) λ _ w h _.
        Kept-then _ _ (Kept-from_result (reason_of p.reason actor) w h) λ reason w h _.
          Kept-then _ _ (Kept-from_result (normalize_positive_quantity p.quantity) w h) λ n w h _.
            Kept-then _ _ (ensure_tenant-keeps tenant w h)
              λ _ w h _. Kept-rolled w _ h (granted_or_found-keeps o actor tenant p n reason _ w h)

  purchased_or_found-keeps :
      (o : Outside) (p : Purchase) (n : ℤ) (found : Option Entry) (w : World)
      → IsActivated id rs w
      → Kept (IsActivated id rs) (λ _. Unit {0}) (purchased_or_found o p n found w)
  purchased_or_found-keeps o p n (some e) w h = finished h tt
  purchased_or_found-keeps o p n none w h =
      create_entry-IsActivated id rs o (purchase_draft p n) w refl h

  pub purchase_confirmed-keeps :
      (o : Outside) (p : Purchase) (w : World)
      → IsActivated id rs w
      → Kept (IsActivated id rs) (λ _. Unit {0}) (purchase_confirmed o p w)
  unfolding purchase_confirmed
  purchase_confirmed-keeps o p w h =
      Kept-then _ _ (Kept-from_result (normalize_positive_quantity p.quantity) w h) λ n w h _.
        Kept-then _ _ (Kept-from_result (validate_key p.idempotency_key) w h)
          λ _ w h _. purchased_or_found-keeps o p n _ w h

  reserved_or_found-keeps :
      (o : Outside) (actor : Actor) (tenant : String) (p : Reservation) (key reason : String)
      (found : Option Entry) (w : World)
      → IsActivated id rs w
      → Kept
          (IsActivated id rs)
          (λ _. Unit {0})
          (reserved_or_found o actor tenant p key reason found w)
  unfolding write_audit
  reserved_or_found-keeps o actor tenant p key reason (some e) w h = finished h tt
  reserved_or_found-keeps o actor tenant p key reason none w h =
      Kept-then _ _
        (Kept-raise_if
          (any (λ (r : Order). of_asset tenant p.asset_id r && is_open r.status) w.orders)
          qtag_already_reserved w h)
        λ _ w h _.
          Kept-then _ _
            (Kept-raise_if (ltb_ℤ (balance_of tenant p.user_id w.entries).available (pos 1))
              insufficient_qtags w h)
            λ _ w h _.
              let order = new_order o actor tenant p reason w in
              Kept-then _ _ (create_order-IsActivated id rs order w h) λ _ w h _.
                Kept-then _ _
                  (create_entry-IsActivated id rs o
                    (reserve_draft actor tenant p key reason order.id) w refl h)
                  λ e w h _. finished h tt

  pub reserve_for_asset-keeps :
      (o : Outside) (actor : Actor) (tenant : String) (p : Reservation) (w : World)
      → IsActivated id rs w
      → Kept (IsActivated id rs) (λ _. Unit {0}) (reserve_for_asset o actor tenant p w)
  unfolding reserve_for_asset
  reserve_for_asset-keeps o actor tenant p w h =
      Kept-then _ _ (Kept-from_result (ensure_platform actor) w h) λ _ w h _.
        Kept-then _ _ (Kept-from_result (reason_of p.reason actor) w h) λ reason w h _.
          Kept-then _ _ (ensure_tenant-keeps tenant w h) λ _ w h _.
            Kept-then _ _
              (Kept-or_raise
                (find_first (λ (a : Asset). a.id == p.asset_id && a.tenant_id == tenant) w.assets)
                asset_not_found w h)
              λ asset w h _.
                Kept-then _ _ (Kept-raise_if (has_text asset.device_id) asset_already_tagged w h)
                  λ _ w h _.
                    Kept-rolled w _ h (reserved_or_found-keeps o actor tenant p _ reason _ w h)

  -- An order that is found, and is not activated, is another one.
  pub found_other :
      (p : Order → Bool) (w : World) (r : Order)
      → IsActivated id rs w
      → find_first p w.orders ≡ some r
      → is_activated r.status ≡ false
      → (r.id == id) ≡ false
  found_other p w r (activated, there, back) found quiet =
      let fits = find_first-every (activated_if id) p w.orders r activated found in ground arith

  releases-other : (key : String) → (key == id) ≡ false → is_some_of (some key) id ≡ false
  releases-other key h = h

  pub ne_other : (key : String) → (key == id) ≡ false → key ≡ id → ⊥
  ne_other key h same = let own : (key == id) ≡ true = (eq_iff key id).1 same in cc

  released_or_found-keeps :
      (o : Outside) (now : ℕ) (actor : Actor) (tenant : String) (r : Order) (p : Release)
      (key reason : String) (found : Option Entry) (w : World)
      → (r.id == id) ≡ false
      → IsActivated id rs w
      → Kept
          (IsActivated id rs)
          (λ _. Unit {0})
          (released_or_found o now actor tenant r p key reason found w)
  unfolding write_audit
  released_or_found-keeps o now actor tenant r p key reason (some e) w other h = finished h tt
  released_or_found-keeps o now actor tenant r p key reason none w other h =
      Kept-then _ _
        (Kept-raise_if (ltb_ℤ (balance_of tenant r.user_id w.entries).reserved (pos 1))
          insufficient_reserved_qtags w h)
        λ _ w h _.
          Kept-then _ _
            (create_entry-IsActivated id rs o (release_draft actor tenant r key reason) w other h)
            λ e w h _.
              finished
                (Kept-left_by _ (
                  update_order-IsActivated id rs r.id (with_cancellation now reason) w (λ x. refl)
                    (λ x same. absurd (ne_other r.id other same)) h))
                tt

  pub release_reservation-keeps :
      (o : Outside) (now : ℕ) (actor : Actor) (tenant order_id : String) (p : Release) (w : World)
      → IsActivated id rs w
      → Kept
          (IsActivated id rs)
          (λ _. Unit {0})
          (release_reservation o now actor tenant order_id p w)
  unfolding release_reservation
  release_reservation-keeps o now actor tenant order_id p w h =
      Kept-then _ _ (Kept-from_result (ensure_platform actor) w h) λ _ w h _.
        Kept-then _ _ (Kept-from_result (reason_of p.reason actor) w h) λ reason w h _.
          Kept-then _ _ (ensure_tenant-keeps tenant w h) λ _ w h _.
            Kept-rolled w _ h
              (elim (Option-cases (find_first (order_named tenant order_id) w.orders)) [
                | inl nothing ↦ rw nothing (failed h)
                | inr (r, found) ↦ elim (Bool-cases (is_activated r.status)) [
                  | inl busy ↦ rw (found, busy) (failed h)
                  | inr quiet ↦
                      rw (found, quiet)
                        (released_or_found-keeps o now actor tenant r p _ reason _ w
                          (found_other (order_named tenant order_id) w r h found quiet) h)
                ]
              ])

  -- A change of the activated order keeps it activated.
  moved :
      (p : Change) (w : World) (r : Order) (q : Order → Bool)
      → IsActivated id rs w
      → find_first q w.orders ≡ some r
      → (is_activated r.status && not (is_activated p.status)) ≡ false
      → r.id ≡ id
      → is_activated p.status ≡ true
  moved p w r q (activated, there, back) found free same =
      let own : (r.id == id) ≡ true = (eq_iff r.id id).1 same in
      let fits = find_first-every (activated_if id) q w.orders r activated found in ground arith

  pub transition_fulfillment_status-keeps :
      (now : ℕ) (actor : Actor) (tenant order_id : String) (p : Change) (w : World)
      → IsActivated id rs w
      → Kept
          (IsActivated id rs)
          (λ _. Unit {0})
          (transition_fulfillment_status now actor tenant order_id p w)
  unfolding transition_fulfillment_status write_audit
  transition_fulfillment_status-keeps now actor tenant order_id p w h =
      Kept-then _ _ (Kept-from_result (ensure_platform actor) w h) λ _ w h _.
        Kept-then _ _ (Kept-from_result (reason_of p.reason actor) w h) λ reason w h _.
          Kept-then _ _ (ensure_tenant-keeps tenant w h) λ _ w h _.
            Kept-rolled w _ h
              (elim (Option-cases (find_first (order_named tenant order_id) w.orders)) [
                | inl nothing ↦ rw nothing (failed h)
                | inr (r, found) ↦
                    elim (Bool-cases (is_activated r.status && not (is_activated p.status))) [
                      | inl busy ↦ rw (found, busy) (failed h)
                      | inr free ↦
                          rw (found, free)
                            (finished
                              (Kept-left_by _ (
                                update_order-IsActivated id rs r.id (with_change now actor p) w
                                  (λ x. refl)
                                  (λ x same before.
                                    moved p w r (order_named tenant order_id) h found free same)
                                  h))
                              tt)
                    ]
              ])
