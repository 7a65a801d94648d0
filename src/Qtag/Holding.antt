-- ===== src/Qtag/Holding.antt =====
-- The balance of a user's tags through the calls of CommissioningFacet, and through runs.
use qc_backend.Base.{
  ℕ, String, List, [], ◌∷◌, Option, some, none, true, false, not, ◌&&◌, ◌==◌, ◌≡◌, refl, ◌∙◌, ap,
  sym, subst, any, find_first, nat_eq, ltb, all_hex, text_length, truthy, is_empty, pos, ◌≤ℤ◌,
  string_has_eq, Bool-cases, Option-cases, inl, inr, Kept, finished, failed, Kept-left_by,
  Kept-then, Kept-raise_if, Kept-or_raise,
}
use qc_backend.Qtag.Types.{
  completed, Order, Asset, Device, Session, World, Outside, fulfillment_order_not_found,
  session_not_found, uid_mismatch, incomplete_write, signing_failed, layout_failed, foreign_key,
  invalid_ntag_uid,
}
use qc_backend.Qtag.Table.{balance_of}
use qc_backend.Qtag.Commissioning.{
  Caller, Start, is_order_of, is_ready, order_with_id, start_order, mark_encoding,
  has_event_parents, has_order_if_named, start,
}
use qc_backend.Qtag.Confirming.{
  Confirmation, session_named, other_uid, upsert_device, link_asset, activate, conclude, confirm,
  end_session,
}
use qc_backend.Qtag.Balances.{available_in, reserved_in, balance_of-available, balance_of-reserved}
use qc_backend.Qtag.Covering.{Covers}
use qc_backend.Qtag.Solvency.{
  grant_qtags-Safe, purchase_confirmed-Safe, reserve_for_asset-Safe, release_reservation-Safe,
  transition_fulfillment_status-Safe, consume_reservation-Safe,
}
use qc_backend.Qtag.Runs.{Command, perform, perform_all}

module _ (tenant user : String) (o : Outside) where
  abbrev Safe : World → Type 0
  Safe w = Covers tenant user w

  start_order-Safe :
      (ctx : Caller) (asset : String) (named : Option String) (w : World)
      → Safe w
      → Kept Safe (λ _. Unit {0}) (start_order ctx asset named w)
  start_order-Safe ctx asset none w h = finished h tt
  start_order-Safe ctx asset (some key) w h = elim (Option-cases (order_with_id key w)) [
    | inl nothing ↦ rw nothing (failed h)
    | inr (r, found) ↦ elim (Bool-cases (not (is_order_of ctx.tenant_id asset r))) [
      | inl foreign ↦ rw (found, foreign) (failed h)
      | inr own ↦ elim (Bool-cases (not (is_ready r.status))) [
        | inl late ↦ rw (found, own, late) (failed h)
        | inr ready ↦ rw (found, own, ready) (finished h tt)
      ]
    ]
  ]

  mark_encoding-Safe :
      (ctx : Caller) (p : Start) (order : Option Order) (w : World)
      → Safe w
      → Kept Safe (λ _. Unit {0}) (mark_encoding ctx p order w)
  mark_encoding-Safe ctx p none w h = finished h tt
  mark_encoding-Safe ctx p (some r) w h = finished h tt

  start-Safe :
      (ctx : Caller) (p : Start) (w : World) → Safe w → Kept Safe (λ _. Unit {0}) (start o ctx p w)
  unfolding start
  start-Safe ctx p w h =
      Kept-then _ _
        (Kept-raise_if (not (nat_eq (text_length p.ntag_uid) 14 && all_hex p.ntag_uid))
          invalid_ntag_uid w h)
        λ _ w h _.
          Kept-then _ _ (start_order-Safe ctx p.asset_id (truthy p.fulfillment_order_id) w h)
            λ order w h _.
              let uid = o.to_lower_case p.ntag_uid in
              Kept-then _ _ (Kept-or_raise (o.sign p.asset_id uid p.metadata) signing_failed w h)
                λ signed w h _.
                  Kept-then _ _
                    (Kept-raise_if (not (has_event_parents ctx p.asset_id w)) foreign_key w h)
                    λ _ w h _.
                      Kept-then _ _
                        (Kept-or_raise (o.layout_b64 uid signed.dat signed.falcon_hash p.metadata)
                          layout_failed _ h)
                        λ layout w h _.
                          Kept-then _ _
                            (Kept-raise_if (not (has_order_if_named p.fulfillment_order_id w))
                              foreign_key w h)
                            λ _ w h _.
                              Kept-then _ _ (mark_encoding-Safe ctx p order _ h)
                                λ _ w h _. finished h tt

  upsert_device-Safe :
      (ctx : Caller) (uid : String) (s : Session) (w : World)
      → Safe w
      → Kept Safe (λ _. Unit {0}) (upsert_device o ctx uid s w)
  unfolding upsert_device
  upsert_device-Safe ctx uid s w h =
      elim (Option-cases (find_first (λ (d : Device). d.uid == uid) w.devices)) [
        | inl new ↦ rw new (finished h tt)
        | inr (d, found) ↦ rw found (finished h tt)
      ]

  link_asset-Safe :
      (asset device : String) (w : World)
      → Safe w
      → Kept Safe (λ _. Unit {0}) (link_asset asset device w)
  unfolding link_asset
  link_asset-Safe asset device w h =
      elim (Bool-cases (any (λ (a : Asset). a.id == asset) w.assets)) [
        | inl there ↦ rw there (finished h tt)
        | inr gone ↦ rw gone (failed h)
      ]

  activate-Safe :
      (now : ℕ) (ctx : Caller) (s : Session) (device : String) (named : Option String) (w : World)
      → Safe w
      → Kept Safe (λ _. Unit {0}) (activate o now ctx s device named w)
  activate-Safe now ctx s device none w h = finished h tt
  activate-Safe now ctx s device (some key) w h =
      Kept-then _ _ (Kept-or_raise (order_with_id key w) fulfillment_order_not_found w h) λ r w h _.
        Kept-then _ _
          (Kept-raise_if (not (is_order_of ctx.tenant_id s.asset_id r)) fulfillment_order_not_found
            w h)
          λ _ w h _. Kept-then _ _ (link_asset-Safe s.asset_id device w h) λ _ w h _.
            Kept-then _ _ (consume_reservation-Safe tenant user o _ w h) λ _ w h _. finished h tt

  conclude-Safe :
      (now : ℕ) (ctx : Caller) (p : Confirmation) (s : Session) (w : World)
      → Safe w
      → Kept Safe (λ _. Unit {0}) (conclude o now ctx p s true w)
  conclude-Safe now ctx p s w h =
      let uid = o.to_lower_case p.ntag_uid in
      let w' = (end_session s completed (some now) w).1 in
      Kept-then _ (upsert_device o ctx uid s w') (upsert_device-Safe ctx uid s w' h) λ device w h _.
        Kept-then _ (activate o now ctx s device (truthy s.fulfillment_order_id) w)
          (activate-Safe now ctx s device (truthy s.fulfillment_order_id) w h)
          λ _ w h _. finished h tt

  confirm-Safe :
      (now : ℕ) (ctx : Caller) (p : Confirmation) (w : World)
      → p.success ≡ true
      → Safe w
      → Kept Safe (λ _. Unit {0}) (confirm o now ctx p w)
  unfolding confirm
  confirm-Safe now ctx p w good h =
      Kept-then _ _ (Kept-or_raise (session_named p.session_id w) session_not_found w h) λ s w h _.
        Kept-then _ _ (Kept-raise_if (not (s.tenant_id == ctx.tenant_id)) session_not_found w h)
          λ _ w h _. Kept-then _ _ (Kept-raise_if (other_uid o p s) uid_mismatch w h) λ _ w h _.
            Kept-then _ _
              (Kept-raise_if (p.success && ltb p.bytes_written 144) incomplete_write w h)
              λ _ w h _. rw good (conclude-Safe now ctx p s w h)

  perform-Safe : (c : Command) (w : World) → Safe w → Safe (perform o c w)
  unfolding perform
  perform-Safe (Command.grant actor t p) w h =
      Kept-left_by _ (grant_qtags-Safe tenant user o actor t p w h)
  perform-Safe (Command.purchase p) w h =
      Kept-left_by _ (purchase_confirmed-Safe tenant user o p w h)
  perform-Safe (Command.reserve actor t p) w h =
      Kept-left_by _ (reserve_for_asset-Safe tenant user o actor t p w h)
  perform-Safe (Command.give_back now actor t order p) w h =
      Kept-left_by _ (release_reservation-Safe tenant user o now actor t order p w h)
  perform-Safe (Command.change now actor t order p) w h =
      Kept-left_by _ (transition_fulfillment_status-Safe tenant user o now actor t order p w h)
  perform-Safe (Command.encode ctx p) w h = Kept-left_by _ (start-Safe ctx p w h)
  perform-Safe (Command.written now ctx p) w h =
      Kept-left_by _ (confirm-Safe now ctx (record p { success = true }) w refl h)

  perform_all-Safe : (cs : List Command) (w : World) → Safe w → Safe (perform_all o cs w)
  unfolding perform_all
  perform_all-Safe [] w h = h
  perform_all-Safe (c ∷ cs) w h = perform_all-Safe cs (perform o c w) (perform-Safe c w h)

-- A user's balances of tags, as the code computes them, are at least zero.
pub record HasTags (tenant user : String) (w : World) : Type 0 where
  pub available : pos 0 ≤ℤ (balance_of tenant (some user) w.entries).available
  pub reserved : pos 0 ≤ℤ (balance_of tenant (some user) w.entries).reserved

scope_user : (user : String) → is_empty user ≡ false → truthy (some user) ≡ some user
scope_user user given = rw given refl

module _ (tenant user : String) (given : is_empty user ≡ false) (w : World) where
  available-same :
      (balance_of tenant (some user) w.entries).available
      ≡ available_in tenant (some user) w.entries
  available-same =
      balance_of-available tenant (some user) w.entries
      ∙ ap (λ u. available_in tenant u w.entries) (scope_user user given)

  reserved-same :
      (balance_of tenant (some user) w.entries).reserved ≡ reserved_in tenant (some user) w.entries
  reserved-same =
      balance_of-reserved tenant (some user) w.entries
      ∙ ap (λ u. reserved_in tenant u w.entries) (scope_user user given)

  HasTags-Covers : HasTags tenant user w → Covers tenant user w
  HasTags-Covers h = (
    subst (λ n. pos 0 ≤ℤ n) available-same h.available,
    subst (λ n. pos 0 ≤ℤ n) reserved-same h.reserved,
  )

  Covers-HasTags : Covers tenant user w → HasTags tenant user w
  Covers-HasTags h = record {
    available = subst (λ n. pos 0 ≤ℤ n) (sym available-same) h.0;
    reserved = subst (λ n. pos 0 ≤ℤ n) (sym reserved-same) h.1;
  }

-- Whatever grants, purchases, reservations, releases, changes of status, encodings and confirmations
-- of written tags run, with whatever parameters and tenants, a user (with a non-empty id) whose
-- available and reserved tags start at least zero never has negative ones.
pub perform_all-HasTags :
    (o : Outside) (tenant user : String) (cs : List Command) (w : World)
    → is_empty user ≡ false
    → HasTags tenant user w
    → HasTags tenant user (perform_all o cs w)
perform_all-HasTags o tenant user cs w given h =
    Covers-HasTags tenant user given (perform_all o cs w)
      (perform_all-Safe tenant user o cs w (HasTags-Covers tenant user given w h))
