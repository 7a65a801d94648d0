-- ===== src/Asset/Terminal.antt =====
-- An asset at rest, archived or burned, which no escrow names, and the steps of calls that leave
-- it so. Escrows and Payments go through the calls, Runs through the worker and runs of commands.
pub mod Escrows
pub mod Payments
pub mod Runs
use qc_backend.Base.{
  Kept, every, find_first-every, find_first-passes, every-map, String, List, ◌∷◌, Option, some,
  Bool, true, false, not, ◌||◌, ◌&&◌, ◌==◌, ◌≡◌, refl, map, any, string_has_eq, eq_iff, arith,
  Bool-cases, inl, inr,
}
use qc_backend.Asset.Types.{
  Status, draft, active, suspended, archived, burned, awaiting_payment, locked_in_escrow, alert,
  inactive, Asset, EscrowRow, World,
}
use qc_backend.Asset.Rows.{
  set_escrows, with_status, rewrite_escrow, find_asset, update_asset, create_escrow, is_active,
}
use qc_backend.Asset.Lifecycle.{has_target, transition_rules}
use qc_backend.Asset.Billing.{is_awaiting}
use qc_backend.Asset.Worker.{asset_or_empty}
use qc_backend.Asset.Keeping.{Kept-update_asset, Kept-create_escrow}

-- ARCHIVED and BURNED
abbrev pub is_terminal : Status → Bool
is_terminal archived = true
is_terminal burned = true
is_terminal _ = false

abbrev pub resting_if : String → Asset → Bool
resting_if id a = not (a.id == id) || is_terminal a.status

abbrev pub unnamed : String → EscrowRow → Bool
unnamed id e = not (asset_or_empty e.asset_id == id)

-- Each asset row with this id is archived or burned, and no escrow row is for it.
abbrev pub IsTerminal : String → World → Type 0
IsTerminal id w = (every (resting_if id) w.assets ≡ true) × (every (unnamed id) w.escrows ≡ true)

pub is_terminal-is_active : (s : Status) → not (is_active s) ≡ false → is_terminal s ≡ false
is_terminal-is_active draft h = refl
is_terminal-is_active active h = refl
is_terminal-is_active suspended h = refl
is_terminal-is_active archived h = cc
is_terminal-is_active burned h = cc
is_terminal-is_active awaiting_payment h = refl
is_terminal-is_active locked_in_escrow h = refl
is_terminal-is_active alert h = refl
is_terminal-is_active inactive h = refl

pub is_terminal-is_awaiting : (s : Status) → is_awaiting s ≡ true → is_terminal s ≡ false
is_terminal-is_awaiting draft h = refl
is_terminal-is_awaiting active h = refl
is_terminal-is_awaiting suspended h = refl
is_terminal-is_awaiting archived h = cc
is_terminal-is_awaiting burned h = cc
is_terminal-is_awaiting awaiting_payment h = refl
is_terminal-is_awaiting locked_in_escrow h = refl
is_terminal-is_awaiting alert h = refl
is_terminal-is_awaiting inactive h = refl

pub is_terminal-has_target :
    (s t : Status) → not (has_target (transition_rules s) t) ≡ false → is_terminal s ≡ false
unfolding transition_rules
is_terminal-has_target draft t h = refl
is_terminal-has_target active t h = refl
is_terminal-has_target suspended t h = refl
is_terminal-has_target archived t h = cc
is_terminal-has_target burned t h = cc
is_terminal-has_target awaiting_payment t h = refl
is_terminal-has_target locked_in_escrow t h = refl
is_terminal-has_target alert t h = refl
is_terminal-has_target inactive t h = refl

module _ (id : String) where
  with_status-resting_if :
      (other : String) (status : Status) (a : Asset)
      → (other == id) ≡ false
      → resting_if id a ≡ true
      → resting_if id (with_status other status a) ≡ true
  with_status-resting_if other status a differs rest = elim (Bool-cases (a.id == other)) [
    | inl same ↦ let equal : a.id ≡ other = (eq_iff a.id other).0 same in rw (same, equal, differs)
    | inr differ ↦ rw differ rest
  ]

  rewrite-unnamed :
      (other : String) (f : EscrowRow → EscrowRow) (e : EscrowRow)
      → ((e : EscrowRow) → (f e).asset_id ≡ e.asset_id)
      → unnamed id e ≡ true
      → unnamed id (rewrite_escrow other f e) ≡ true
  rewrite-unnamed other f e keeps_asset h = elim (Bool-cases (e.escrow_id == other)) [
    | inl same ↦ rw (same, keeps_asset e) h
    | inr differ ↦ rw differ h
  ]

  pub IsTerminal-rewrite :
      (other : String) (f : EscrowRow → EscrowRow) (w : World)
      → ((e : EscrowRow) → (f e).asset_id ≡ e.asset_id)
      → IsTerminal id w
      → IsTerminal id (set_escrows (map (rewrite_escrow other f)) w)
  IsTerminal-rewrite other f w keeps_asset (rest, free) = (
    rest,
    every-map (unnamed id) (rewrite_escrow other f) w.escrows
        (λ e. rewrite-unnamed other f e keeps_asset) free,
  )

  -- An asset that was found in another status has another id.
  pub live-differs :
      (tenant other : String) (w : World) (a : Asset)
      → IsTerminal id w
      → find_asset tenant other w.assets ≡ some a
      → is_terminal a.status ≡ false
      → (other == id) ≡ false
  live-differs tenant other w a (rest, free) found live =
      let good = find_first-every (resting_if id) _ w.assets a rest found in
      let named : a.id == other && a.tenant_id == tenant ≡ true =
        find_first-passes _ w.assets a found in
      let same : (a.id == other) ≡ true = ground arith in
      let equal : a.id ≡ other = (eq_iff a.id other).0 same in
      let differs : (a.id == id) ≡ false = ground arith in (rw equal at differs)

  pub Kept-move :
      (asset : String) (status : Status) (w : World)
      → (asset == id) ≡ false
      → IsTerminal id w
      → Kept (IsTerminal id) (λ _. Unit {0}) (update_asset asset status w)
  Kept-move asset status w differs (rest, free) =
      Kept-update_asset asset status w (rest, free)
        (
          every-map (resting_if id) (with_status asset status) w.assets
              (λ a. with_status-resting_if asset status a differs) rest,
          free,
        )

  pub Kept-insert :
      (e : EscrowRow) (w : World)
      → (asset_or_empty e.asset_id == id) ≡ false
      → IsTerminal id w
      → Kept
          (IsTerminal id)
          (λ _. any (λ x. x.escrow_id == e.escrow_id) w.escrows ≡ false)
          (create_escrow e w)
  Kept-insert e w differs (rest, free) =
      Kept-create_escrow e w (rest, free) (λ _. (rest, rw (differs, free)))
