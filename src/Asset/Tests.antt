-- ===== src/Asset/Tests.antt =====
-- A small registry: the theorems at inputs that meet their hypotheses.
use qc_backend.Base.{List, [], ◌∷◌, some, none, refl}
use qc_backend.Asset.Types.{
  suspended, active, burned, EscrowStatus, admin, Context, Asset, EscrowRow, manual, auto, World,
  Outside,
}
use qc_backend.Asset.Lifecycle.{TransitionRequest, transition}
use qc_backend.Asset.Escrow.{LockRequest, CloseRequest, release_escrow, cancel_escrow}
use qc_backend.Asset.Tikin
use qc_backend.Asset.Moves.{Outcome, transition-Outcome}
use qc_backend.Asset.Commands.{Command, move, lock, release, cancel, work, run_all}
use qc_backend.Asset.Closing.{IsClosed}
use qc_backend.Asset.Closing.Runs.{run_all-IsClosed}
use qc_backend.Asset.Closing.Refusals.{IsRefused, closing_calls-IsRefused}
use qc_backend.Asset.Terminal.{IsTerminal}
use qc_backend.Asset.Terminal.Runs.{run_all-IsTerminal}

-- The chains take every transition, and the provider every order.
abbrev outside : Outside
outside = record {
  execute = λ t. some "tx";
  create_preference = λ asset title amount owner. some "link";
  signature_hash = λ payload. "hash";
  sha256 = λ text. text;
}

abbrev owner : Context
owner = record { tenant_id = "t1"; api_key_id = "key"; role = admin }

abbrev asset : Asset
asset = record { id = "a1"; tenant_id = "t1"; external_id = "x1"; status = active }

abbrev foreign : Asset
foreign = record { id = "a2"; tenant_id = "t2"; external_id = "x2"; status = burned }

abbrev escrow : EscrowStatus → EscrowRow
escrow status = record {
  escrow_id = "e1";
  tenant_id = "t1";
  asset_id = some "a1";
  chain = "POLYGON";
  chain_tx_id = some "tx0";
  sender = "s";
  receiver = "r";
  amount = "1";
  asset_address = none;
  unlock_timestamp = some 7;
  release_mode = auto;
  release_confirmed_at = none;
  status = status;
}

abbrev registry : EscrowStatus → World
registry status = record {
  assets = asset ∷ foreign ∷ [];
  escrows = escrow status ∷ [];
  events = [];
  owners = [];
  fees = [];
}

abbrev suspension : TransitionRequest
suspension = record { asset_id = "a1"; target_state = suspended; reason = none }

abbrev closing_foreign : CloseRequest
closing_foreign = record { escrow_id = "e1"; asset_id = "a2" }

abbrev locking : LockRequest
locking = record {
  asset_id = "a1";
  escrow_id = "e2";
  chain = "POLYGON";
  sender = "s";
  receiver = "r";
  amount = "1";
  unlock_timestamp = 9;
  release_mode = manual;
  asset_address = none;
}

transition-Outcome_example :
    Outcome outside 5 owner suspension
      (registry EscrowStatus.active)
      (transition outside 5 owner suspension (registry EscrowStatus.active))
transition-Outcome_example =
    transition-Outcome outside 5 owner suspension (registry EscrowStatus.active)

run_all-IsClosed_example : IsClosed "e1" (
    run_all outside
      (lock 5 owner locking
        ∷ release 6 owner closing_foreign
        ∷ cancel owner closing_foreign
        ∷ work 10
        ∷ [])
      (registry EscrowStatus.released))
run_all-IsClosed_example =
    run_all-IsClosed outside "e1"
      (lock 5 owner locking
        ∷ release 6 owner closing_foreign
        ∷ cancel owner closing_foreign
        ∷ work 10
        ∷ [])
      (registry EscrowStatus.released) (refl, refl)

-- An attempt to lock the burned asset by its tenant, and other calls that spare it.
abbrev trying : List Command
trying =
    lock 5 (record owner { tenant_id = "t2" }) (record locking { asset_id = "a2" })
    ∷ move 5 (record owner { tenant_id = "t2" }) (record suspension { asset_id = "a2" })
    ∷ work 10
    ∷ cancel owner (record { escrow_id = "e1"; asset_id = "a1" })
    ∷ []

run_all-IsTerminal_example : IsTerminal "a2" (run_all outside trying (registry EscrowStatus.active))
run_all-IsTerminal_example =
    run_all-IsTerminal outside "a2" trying (registry EscrowStatus.active) refl (refl, refl)

abbrev closing_own : CloseRequest
closing_own = record { escrow_id = "e1"; asset_id = "a1" }

abbrev tikin_closing : Tikin.CloseRequest
tikin_closing = record { escrow_id = none; escrow_record_id = some "e1"; asset_id = "a1" }

closing_calls-IsRefused_example :
    let w = registry EscrowStatus.released in
    IsRefused w (release_escrow outside 9 owner closing_own w)
    × IsRefused w (cancel_escrow outside owner closing_own w)
    × IsRefused w (Tikin.release_escrow outside 9 owner tikin_closing w)
    × IsRefused w (Tikin.cancel_escrow outside owner tikin_closing w)
closing_calls-IsRefused_example =
    closing_calls-IsRefused outside 9 owner closing_own tikin_closing
      (registry EscrowStatus.released) (refl, refl) (refl, refl)
