-- ===== src/Qtag/Activated.antt =====
-- An activated order stays activated through the steps of the calls.
use qc_backend.Base.{
  String, List, Option, Bool, true, false, not, ◌&&◌, ◌||◌, ◌==◌, ◌≡◌, refl, ◌∙◌, sym, ap, any,
  any-map, every, every-map, select, eq_iff, string_has_eq, is_some_of, Bool-cases, inl, inr, Kept,
  finished, failed,
}
use qc_backend.Qtag.Types.{
  EntryType, same_type, released, Draft, Entry, Order, World, Fault, Outside,
}
use qc_backend.Qtag.Table.{is_taken, fits_numbers, has_references, create_entry}
use qc_backend.Qtag.Orders.{create_order}
use qc_backend.Qtag.Release.{is_activated, on_order, update_order}

-- The entry gives back the tag of the order.
abbrev pub releases : String → EntryType → Option String → Bool
releases id type order = same_type type released && is_some_of order id

abbrev pub is_release_of : String → Entry → Bool
is_release_of id e = releases id e.entry_type e.fulfillment_order_id

abbrev pub is_order : String → Order → Bool
is_order id r = r.id == id

abbrev pub activated_if : String → Order → Bool
activated_if id r = not (r.id == id) || is_activated r.status

-- There is an order with the id, it is activated, and these entries have given its tag back.
abbrev pub IsActivated : String → List Entry → World → Type 0
IsActivated id given_back w =
    (every (activated_if id) w.orders ≡ true)
    × (any (is_order id) w.orders ≡ true)
    × (select (is_release_of id) w.entries ≡ given_back)

module _ (id : String) (rs : List Entry) where
  pub create_entry-IsActivated :
      (o : Outside) (d : Draft) (w : World)
      → releases id d.entry_type d.fulfillment_order_id ≡ false
      → IsActivated id rs w
      → Kept (IsActivated id rs) (λ _. Unit {0}) (create_entry o d w)
  unfolding create_entry
  create_entry-IsActivated o d w other (activated, there, back) =
      elim (Bool-cases (fits_numbers d)) [
        | inr large ↦ rw large (failed (activated, there, back))
        | inl fits ↦ elim (Bool-cases (is_taken d.tenant_id d.idempotency_key w.entries)) [
          | inl taken ↦ rw (fits, taken) (failed (activated, there, back))
          | inr free ↦ elim (Bool-cases (has_references d w)) [
            | inr dangling ↦ rw (fits, free, dangling) (failed (activated, there, back))
            | inl held ↦ rw (fits, free, held) (finished (activated, there, rw other back) tt)
          ]
        ]
      ]

  pub create_order-IsActivated :
      (r : Order) (w : World)
      → IsActivated id rs w
      → Kept (IsActivated id rs) (λ _. Unit {0}) (create_order r w)
  unfolding create_order
  create_order-IsActivated r w (activated, there, back) =
      elim (Bool-cases (any (λ (x : Order). x.id == r.id) w.orders)) [
        | inl taken ↦ rw taken (failed (activated, there, back))
        | inr free ↦ elim (Bool-cases (r.id == id)) [
          | inl own ↦
              let same : r.id ≡ id = (eq_iff r.id id).0 own in
              let gone : any (is_order id) w.orders ≡ false = (rw same at free) in cc
          | inr other ↦ rw free (finished (rw other activated, rw other there, back) tt)
        ]
      ]

  on_order-activated :
      (key : String) (f : Order → Order) (r : Order)
      → (f r).id ≡ r.id
      → (key ≡ id → is_activated r.status ≡ true → is_activated (f r).status ≡ true)
      → activated_if id r ≡ true
      → activated_if id (on_order key f r) ≡ true
  unfolding on_order
  on_order-activated key f r same keeps h = elim (Bool-cases (r.id == key)) [
    | inr other ↦ rw other h
    | inl own ↦
        let still : activated_if id (f r) ≡ (not (r.id == id) || is_activated (f r).status) =
          ap (λ k. not (k == id) || is_activated (f r).status) same in
        rw own (
          still ∙ elim (Bool-cases (r.id == id)) [
            | inr foreign ↦ rw foreign refl
            | inl mine ↦
                let equal : key ≡ id = sym ((eq_iff r.id key).0 own) ∙ (eq_iff r.id id).0 mine in
                let before : is_activated r.status ≡ true = (rw mine at h) in
                rw mine (keeps equal before)
          ])
  ]

  on_order-is_order :
      (key : String) (f : Order → Order) (r : Order)
      → (f r).id ≡ r.id
      → is_order id (on_order key f r) ≡ is_order id r
  unfolding on_order
  on_order-is_order key f r same = elim (Bool-cases (r.id == key)) [
    | inr other ↦ rw other refl
    | inl own ↦ rw own (ap (λ k. k == id) same)
  ]

  -- An update keeps this if it keeps ids, and keeps the order's activation where it is the one.
  pub update_order-IsActivated :
      (key : String) (f : Order → Order) (w : World)
      → ((r : Order) → (f r).id ≡ r.id)
      → ((r : Order) → key ≡ id → is_activated r.status ≡ true → is_activated (f r).status ≡ true)
      → IsActivated id rs w
      → Kept {E = Fault} (IsActivated id rs) (λ _. Unit {0}) (update_order key f w)
  update_order-IsActivated key f w same keeps (activated, there, back) =
      finished
        (
          every-map (activated_if id) (on_order key f) w.orders
              (λ r. on_order-activated key f r (same r) (keeps r)) activated,
          any-map (is_order id) (on_order key f) w.orders (λ r. on_order-is_order key f r (same r))
              ∙ there,
          back,
        )
        tt
