-- ===== src/Qtag/Solvency.antt =====
-- No call takes a user's available or reserved tags below zero.
use qc_backend.Base.{
  ℕ, ℤ, String, List, Option, some, none, false, not, ◌&&◌, ◌==◌, ◌≡◌, ◌∙◌, ap, any, find_first,
  truthy, ltb_ℤ, pos, negsuc, ◌≤ℤ◌, inl, inr, string_has_eq, Bool-cases, Option-cases, Kept,
  finished, failed, Kept-then, Kept-rolled, Kept-raise_if, Kept-or_raise, Kept-from_result, sym,
  arith,
}
use qc_backend.Ledger.Types.{Actor}
use qc_backend.Ledger.Outcomes.{Covered}
use qc_backend.Qtag.Types.{
  Entry, Order, Asset, World, Outside, asset_not_found, asset_already_tagged,
}
use qc_backend.Qtag.Guards.{
  normalize_positive_quantity, validate_key, ensure_platform, ensure_tenant, reason_of,
}
use qc_backend.Qtag.Table.{balance_of, write_audit}
use qc_backend.Qtag.Orders.{
  Grant, grant_draft, granted_or_found, grant_qtags, Purchase, purchase_draft, purchased_or_found,
  purchase_confirmed, Reservation, new_order, create_order, reserved_or_found, reserve_for_asset,
  of_asset, is_open, reserve_draft, has_text,
}
use qc_backend.Qtag.Release.{
  is_activated, order_named, Release, release_draft, released_or_found, release_reservation, Change,
  transition_fulfillment_status, Consumption, consume_draft, consumed_or_found, consume_reservation,
}
use qc_backend.Qtag.Balances.{available_in, reserved_in, balance_of-available, balance_of-reserved}
use qc_backend.Qtag.Covering.{
  Covered-one, normalize_positive_quantity-ok, Covers, create_entry-Covers,
}

-- A passed test of the reserved balance covers the tag that is taken from it.
reserved-one :
    (tenant : String) (u : Option String) (rows : List Entry)
    → ltb_ℤ (balance_of tenant u rows).reserved (pos 1) ≡ false
    → Covered (reserved_in tenant (truthy u) rows) (negsuc 0)
reserved-one tenant u rows h =
    Covered-one _ (ap (λ b. ltb_ℤ b (pos 1)) (sym (balance_of-reserved tenant u rows)) ∙ h)

available-one :
    (tenant : String) (u : Option String) (rows : List Entry)
    → ltb_ℤ (balance_of tenant u rows).available (pos 1) ≡ false
    → Covered (available_in tenant (truthy u) rows) (negsuc 0)
available-one tenant u rows h =
    Covered-one _ (ap (λ b. ltb_ℤ b (pos 1)) (sym (balance_of-available tenant u rows)) ∙ h)

module _ (tenant user : String) (o : Outside) where
  abbrev Safe : World → Type 0
  Safe w = Covers tenant user w

  ensure_tenant-Safe :
      (t : String) (w : World) → Safe w → Kept Safe (λ _. Unit {0}) (ensure_tenant t w)
  unfolding ensure_tenant
  ensure_tenant-Safe t w h = elim (Bool-cases (any (λ x. x == t) w.tenants)) [
    | inl known ↦ rw known (finished h tt)
    | inr foreign ↦ rw foreign (failed h)
  ]

  granted_or_found-Safe :
      (actor : Actor) (t : String) (p : Grant) (n : ℤ) (reason : String) (found : Option Entry)
      (w : World)
      → pos 0 ≤ℤ n
      → Safe w
      → Kept Safe (λ _. Unit {0}) (granted_or_found o actor t p n reason found w)
  unfolding write_audit
  granted_or_found-Safe actor t p n reason (some e) w up h = finished h tt
  granted_or_found-Safe actor t p n reason none w up h =
      Kept-then _ _
        (create_entry-Covers tenant user o (grant_draft actor t p n reason) w (inl up)
          (inl (omega arith)) h)
        λ e w h _. finished h tt

  pub grant_qtags-Safe :
      (actor : Actor) (t : String) (p : Grant) (w : World)
      → Safe w
      → Kept Safe (λ _. Unit {0}) (grant_qtags o actor t p w)
  unfolding grant_qtags
  grant_qtags-Safe actor t p w h =
      Kept-then _ _ (Kept-from_result (ensure_platform actor) w h) λ _ w h _.
        Kept-then _ _ (Kept-from_result (reason_of p.reason actor) w h) λ reason w h _.
          Kept-then _ _ (Kept-from_result (normalize_positive_quantity p.quantity) w h) λ n w h up.
            Kept-then _ _ (ensure_tenant-Safe t w h) λ _ w h _. Kept-rolled w _ h (
              granted_or_found-Safe actor t p n reason _ w
                (normalize_positive_quantity-ok p.quantity n up) h)

  purchased_or_found-Safe :
      (p : Purchase) (n : ℤ) (found : Option Entry) (w : World)
      → pos 0 ≤ℤ n
      → Safe w
      → Kept Safe (λ _. Unit {0}) (purchased_or_found o p n found w)
  purchased_or_found-Safe p n (some e) w up h = finished h tt
  purchased_or_found-Safe p n none w up h =
      create_entry-Covers tenant user o (purchase_draft p n) w (inl up) (inl (omega arith)) h

  pub purchase_confirmed-Safe :
      (p : Purchase) (w : World) → Safe w → Kept Safe (λ _. Unit {0}) (purchase_confirmed o p w)
  unfolding purchase_confirmed
  purchase_confirmed-Safe p w h =
      Kept-then _ _ (Kept-from_result (normalize_positive_quantity p.quantity) w h) λ n w h up.
        Kept-then _ _ (Kept-from_result (validate_key p.idempotency_key) w h) λ _ w h _.
          purchased_or_found-Safe p n _ w (normalize_positive_quantity-ok p.quantity n up) h

  reserved_or_found-Safe :
      (actor : Actor) (t : String) (p : Reservation) (key reason : String) (found : Option Entry)
      (w : World)
      → Safe w
      → Kept Safe (λ _. Unit {0}) (reserved_or_found o actor t p key reason found w)
  unfolding write_audit create_order
  reserved_or_found-Safe actor t p key reason (some e) w h = finished h tt
  reserved_or_found-Safe actor t p key reason none w h =
      let order = new_order o actor t p reason w in
      elim (Bool-cases
        (any (λ (r : Order). of_asset t p.asset_id r && is_open r.status) w.orders)) [
          | inl busy ↦ rw busy (failed h)
          | inr idle ↦
              elim (Bool-cases (ltb_ℤ (balance_of t p.user_id w.entries).available (pos 1))) [
                | inl short ↦ rw (idle, short) (failed h)
                | inr enough ↦ elim (Bool-cases (any (λ (x : Order). x.id == order.id) w.orders)) [
                  | inl taken ↦ rw (idle, enough, taken) (failed h)
                  | inr free ↦
                      rw (idle, enough, free)
                        (Kept-then _ _
                          (create_entry-Covers tenant user o
                            (reserve_draft actor t p key reason order.id) _
                            (available-one t p.user_id w.entries enough) (inl (omega arith)) h)
                          λ e w h _. finished h tt)
                ]
              ]
        ]

  pub reserve_for_asset-Safe :
      (actor : Actor) (t : String) (p : Reservation) (w : World)
      → Safe w
      → Kept Safe (λ _. Unit {0}) (reserve_for_asset o actor t p w)
  unfolding reserve_for_asset
  reserve_for_asset-Safe actor t p w h =
      Kept-then _ _ (Kept-from_result (ensure_platform actor) w h) λ _ w h _.
        Kept-then _ _ (Kept-from_result (reason_of p.reason actor) w h) λ reason w h _.
          Kept-then _ _ (ensure_tenant-Safe t w h) λ _ w h _.
            Kept-then _ _
              (Kept-or_raise
                (find_first (λ (a : Asset). a.id == p.asset_id && a.tenant_id == t) w.assets)
                asset_not_found w h)
              λ asset w h _.
                Kept-then _ _ (Kept-raise_if (has_text asset.device_id) asset_already_tagged w h)
                  λ _ w h _. Kept-rolled w _ h (reserved_or_found-Safe actor t p _ reason _ w h)

  released_or_found-Safe :
      (now : ℕ) (actor : Actor) (t : String) (r : Order) (p : Release) (key reason : String)
      (found : Option Entry) (w : World)
      → Safe w
      → Kept Safe (λ _. Unit {0}) (released_or_found o now actor t r p key reason found w)
  unfolding write_audit
  released_or_found-Safe now actor t r p key reason (some e) w h = finished h tt
  released_or_found-Safe now actor t r p key reason none w h =
      elim (Bool-cases (ltb_ℤ (balance_of t r.user_id w.entries).reserved (pos 1))) [
        | inl short ↦ rw short (failed h)
        | inr enough ↦ rw enough (
            Kept-then _ _
              (create_entry-Covers tenant user o (release_draft actor t r key reason) w
                (inl (omega arith)) (reserved-one t r.user_id w.entries enough) h)
              λ e w h _. finished h tt)
      ]

  pub release_reservation-Safe :
      (now : ℕ) (actor : Actor) (t order_id : String) (p : Release) (w : World)
      → Safe w
      → Kept Safe (λ _. Unit {0}) (release_reservation o now actor t order_id p w)
  unfolding release_reservation
  release_reservation-Safe now actor t order_id p w h =
      Kept-then _ _ (Kept-from_result (ensure_platform actor) w h) λ _ w h _.
        Kept-then _ _ (Kept-from_result (reason_of p.reason actor) w h) λ reason w h _.
          Kept-then _ _ (ensure_tenant-Safe t w h) λ _ w h _.
            Kept-rolled w _ h (elim (Option-cases (find_first (order_named t order_id) w.orders)) [
              | inl nothing ↦ rw nothing (failed h)
              | inr (r, found) ↦ elim (Bool-cases (is_activated r.status)) [
                | inl busy ↦ rw (found, busy) (failed h)
                | inr quiet ↦
                    rw (found, quiet) (released_or_found-Safe now actor t r p _ reason _ w h)
              ]
            ])

  pub transition_fulfillment_status-Safe :
      (now : ℕ) (actor : Actor) (t order_id : String) (p : Change) (w : World)
      → Safe w
      → Kept Safe (λ _. Unit {0}) (transition_fulfillment_status now actor t order_id p w)
  unfolding transition_fulfillment_status write_audit
  transition_fulfillment_status-Safe now actor t order_id p w h =
      Kept-then _ _ (Kept-from_result (ensure_platform actor) w h) λ _ w h _.
        Kept-then _ _ (Kept-from_result (reason_of p.reason actor) w h) λ reason w h _.
          Kept-then _ _ (ensure_tenant-Safe t w h) λ _ w h _.
            Kept-rolled w _ h (elim (Option-cases (find_first (order_named t order_id) w.orders)) [
              | inl nothing ↦ rw nothing (failed h)
              | inr (r, found) ↦
                  elim (Bool-cases (is_activated r.status && not (is_activated p.status))) [
                    | inl busy ↦ rw (found, busy) (failed h)
                    | inr quiet ↦ rw (found, quiet) (finished h tt)
                  ]
            ])

  pub consume_reservation-Safe :
      (p : Consumption) (w : World) → Safe w → Kept Safe (λ _. Unit {0}) (consume_reservation o p w)
  unfolding consume_reservation
  consume_reservation-Safe p w h = consumed_or_found-Safe _ w h
    where
      consumed_or_found-Safe :
          (found : Option Entry) (w : World)
          → Safe w
          → Kept Safe (λ _. Unit {0}) (consumed_or_found o p found w)
      consumed_or_found-Safe (some e) w h = finished h tt
      consumed_or_found-Safe none w h =
          elim (Bool-cases (ltb_ℤ (balance_of p.tenant_id p.user_id w.entries).reserved (pos 1))) [
            | inl short ↦ rw short (failed h)
            | inr enough ↦ rw enough (
                create_entry-Covers tenant user o (consume_draft p) w (inl (omega arith))
                  (reserved-one p.tenant_id p.user_id w.entries enough) h)
          ]
