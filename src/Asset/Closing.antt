-- ===== src/Asset/Closing.antt =====
-- A closed escrow, and the steps of calls that leave it closed. Escrows and Payments go through the
-- calls, Runs through the worker and through runs of commands; Refusals is about calls on it.
pub mod Escrows
pub mod Payments
pub mod Runs
pub mod Refusals
use qc_backend.Base.{
  Kept, finished, failed, Kept-left_by, Kept-then, Kept-rolled, Kept-raise_if, Kept-or_raise,
  left_by, every, find_first-every, every-map, any-map, every-select, every-take, ℕ, String, List,
  [], ◌∷◌, Option, some, none, Bool, true, false, not, ◌||◌, ◌&&◌, ◌==◌, ◌≡◌, refl, ◌∙◌, any, map,
  select, string_has_eq, eq_iff, arith, Bool-cases, Option-cases, inl, inr, ok, err, Result, leb,
  ltb, is_empty,
}
use qc_backend.Asset.Types.{
  Asset, Status, EscrowRow, EscrowStatus, World, Outside, Context, active, locked_in_escrow,
  awaiting_payment, Operation, Fault, Owner, insufficient_role, invalid_unlock_timestamp,
  invalid_asset_state, insufficient_permissions, missing_escrow_identifier, escrow_already_closed,
  release_mode_mismatch, unlock_not_reached, asset_locked_in_escrow, state_transition_forbidden,
  insufficient_role_for_transition, billing_failed,
}
use qc_backend.Asset.Rows.{
  set_escrows, rewrite_escrow, is_closed, find_escrow, update_asset, create_escrow, is_active,
}
use qc_backend.Asset.Commands.{Command, run, run_all}
use qc_backend.Asset.Lifecycle.{
  TransitionRequest, transition, same_status, has_target, has_role, transition_rules,
}
use qc_backend.Asset.Escrow.{
  is_admin, is_operator, is_auto, escrow_worker_key, lock_escrow, release_escrow, cancel_escrow,
  lock_transition, closing, row_of, released_row, cancelled_row,
}
use qc_backend.Asset.Escrow
use qc_backend.Asset.Tikin
use qc_backend.Asset.Transfer.{
  TransferRequest, initiate_transfer, owner_or_create, find_owner, digits,
}
use qc_backend.Asset.Billing.{
  create_payment_preference, Payment, settle_payment, settle_for, settle_found, activate_if,
  process_identified, process_payment_webhook, payment_id_of,
}
use qc_backend.Asset.Worker.{
  is_active_escrow, is_expired, insert_by_unlock, sort_by_unlock, expired_batch, worker_context,
  mark, settle, release_one, release_each, process_releases, Tally,
}
use qc_backend.Asset.Keeping.{
  Kept-require_asset, Kept-require_escrow, Kept-execute, Kept-update_asset, Kept-create_escrow,
}

abbrev pub names : String → EscrowRow → Bool
names id e = e.escrow_id == id

abbrev pub closed_if : String → EscrowRow → Bool
closed_if id e = not (names id e) || is_closed e.status

-- There is an escrow with this id, and it is released or cancelled.
abbrev pub IsClosed : String → World → Type 0
IsClosed id w = (any (names id) w.escrows ≡ true) × (every (closed_if id) w.escrows ≡ true)

module _ (id : String) where
  rewrite-names :
      (other : String) (f : EscrowRow → EscrowRow) (e : EscrowRow)
      → ((e : EscrowRow) → (f e).escrow_id ≡ e.escrow_id)
      → names id (rewrite_escrow other f e) ≡ names id e
  rewrite-names other f e keeps_id = elim (Bool-cases (e.escrow_id == other)) [
    | inl same ↦ rw (same, keeps_id e)
    | inr differ ↦ rw differ
  ]

  rewrite-closed_if :
      (other : String) (f : EscrowRow → EscrowRow) (e : EscrowRow)
      → ((e : EscrowRow) → (f e).escrow_id ≡ e.escrow_id)
      → (other == id) ≡ false
      → closed_if id e ≡ true
      → closed_if id (rewrite_escrow other f e) ≡ true
  rewrite-closed_if other f e keeps_id differs closed = elim (Bool-cases (e.escrow_id == other)) [
    | inl same ↦
        let equal : e.escrow_id ≡ other = (eq_iff e.escrow_id other).0 same in
        rw (same, keeps_id e, equal, differs)
    | inr differ ↦ rw differ closed
  ]

  pub IsClosed-rewrite :
      (other : String) (f : EscrowRow → EscrowRow) (w : World)
      → ((e : EscrowRow) → (f e).escrow_id ≡ e.escrow_id)
      → (other == id) ≡ false
      → IsClosed id w
      → IsClosed id (set_escrows (map (rewrite_escrow other f)) w)
  IsClosed-rewrite other f w keeps_id differs (there, closed) = (
    any-map (names id) (rewrite_escrow other f) w.escrows (λ e. rewrite-names other f e keeps_id)
        ∙ there,
    every-map (closed_if id) (rewrite_escrow other f) w.escrows
        (λ e. rewrite-closed_if other f e keeps_id differs) closed,
  )

  -- An escrow that was found open has another id.
  pub open-differs :
      (tenant other : String) (w : World) (e : EscrowRow)
      → IsClosed id w
      → find_escrow tenant other w.escrows ≡ some e
      → is_closed e.status ≡ false
      → (e.escrow_id == id) ≡ false
  open-differs tenant other w e (there, closed) found still =
      let good = find_first-every (closed_if id) _ w.escrows e closed found in ground arith

  pub fresh-differs :
      (other : String) (w : World)
      → IsClosed id w
      → any (λ x. x.escrow_id == other) w.escrows ≡ false
      → (other == id) ≡ false
  fresh-differs other w (there, closed) fresh = elim (Bool-cases (other == id)) [
    | inl same ↦
        let equal : other ≡ id = (eq_iff other id).0 same in
        let absent : any (names id) w.escrows ≡ false = (rw equal at fresh) in cc
    | inr differ ↦ differ
  ]

  pub IsClosed-add :
      (e : EscrowRow) (w : World)
      → IsClosed id w
      → any (λ x. x.escrow_id == e.escrow_id) w.escrows ≡ false
      → IsClosed id (set_escrows (λ rows. e ∷ rows) w)
  IsClosed-add e w (there, closed) fresh =
      let differ = fresh-differs e.escrow_id w (there, closed) fresh in
      (rw (differ, there), rw (differ, closed))

  -- The steps that write no escrow, and the two kinds that do.
  pub Kept-asset :
      (asset : String) (status : Status) (w : World)
      → IsClosed id w
      → Kept (IsClosed id) (λ _. Unit {0}) (update_asset asset status w)
  Kept-asset asset status w h = Kept-update_asset asset status w h h

  pub Kept-insert :
      (e : EscrowRow) (w : World)
      → IsClosed id w
      → Kept
          (IsClosed id)
          (λ _. any (λ x. x.escrow_id == e.escrow_id) w.escrows ≡ false)
          (create_escrow e w)
  Kept-insert e w h = Kept-create_escrow e w h (IsClosed-add e w h)
