-- ===== src/Asset/Terminal/Runs.antt =====
-- The escrow worker and every run of commands that spares an asset at rest leave it so.
use qc_backend.Base.{
  Kept-left_by, left_by, every, every-select, every-take, ℕ, String, List, [], ◌∷◌, Bool, true,
  false, not, ◌==◌, ◌≡◌, refl, select, string_has_eq, arith, ok, err, Result,
}
use qc_backend.Asset.Types.{EscrowRow, EscrowStatus, World, Outside, Fault}
use qc_backend.Asset.Commands.{Command, run, run_all}
use qc_backend.Asset.Escrow.{
  is_admin, is_operator, is_auto, escrow_worker_key, lock_escrow, release_escrow, cancel_escrow,
  lock_transition, closing, row_of, released_row, cancelled_row,
}
use qc_backend.Asset.Escrow
use qc_backend.Asset.Billing.{process_payment_webhook, payment_id_of}
use qc_backend.Asset.Worker.{
  asset_or_empty, is_expired, sort_by_unlock, expired_batch, worker_context, mark, settle,
  release_one, release_each, process_releases, Tally,
}
use qc_backend.Asset.Terminal.{IsTerminal, unnamed, IsTerminal-rewrite}
use qc_backend.Asset.Closing.Runs.{every-sort}
use qc_backend.Asset.Terminal.Escrows.{
  lock_escrow-keeps, tikin_lock_escrow-keeps, release_escrow-keeps, cancel_escrow-keeps,
  tikin_release_escrow-keeps, tikin_cancel_escrow-keeps,
}
use qc_backend.Asset.Terminal.Payments.{
  transition-keeps, initiate_transfer-keeps, process_identified-keeps,
}

-- No release or cancellation of the run names this asset.
abbrev pub spares : String → Command → Bool
spares id (Command.release now ctx p) = not (p.asset_id == id)
spares id (Command.cancel ctx p) = not (p.asset_id == id)
spares id (Command.tikin_release now ctx p) = not (p.asset_id == id)
spares id (Command.tikin_cancel ctx p) = not (p.asset_id == id)
spares id _ = true

negated : (b : Bool) → not b ≡ true → b ≡ false
negated b h = ground arith

module _ (id : String) where
  mark-keeps :
      (other : String) (status : EscrowStatus) (w : World)
      → IsTerminal id w
      → IsTerminal id (mark other status w)
  mark-keeps other status w h = IsTerminal-rewrite id other _ w (λ _. refl) h

  settle-keeps :
      (e : EscrowRow) (t : Tally) (r : Result Fault Escrow.EscrowReply × World)
      → IsTerminal id (left_by r)
      → IsTerminal id (settle e t r).1
  settle-keeps e t (ok reply, w) h = h
  settle-keeps e t (err fault, w) h = mark-keeps e.escrow_id _ w h

  release_one-keeps :
      (o : Outside) (now : ℕ) (e : EscrowRow) (t : Tally) (w : World)
      → (asset_or_empty e.asset_id == id) ≡ false
      → IsTerminal id w
      → IsTerminal id (release_one o now e (t, w)).1
  unfolding release_one
  release_one-keeps o now e t w differs h = settle-keeps e t _ (
      Kept-left_by _ (
        release_escrow-keeps id o now (worker_context e) _ _ differs
          (mark-keeps e.escrow_id _ w h)))

  release_each-keeps :
      (o : Outside) (now : ℕ) (es : List EscrowRow) (s : Tally × World)
      → every (unnamed id) es ≡ true
      → IsTerminal id s.1
      → IsTerminal id (release_each o now es s).1
  unfolding release_each
  release_each-keeps o now [] s others h = h
  release_each-keeps o now (e ∷ es) (t, w) others h =
      release_each-keeps o now es (release_one o now e (t, w)) (ground arith)
        (release_one-keeps o now e t w (ground arith) h)

  process_releases-keeps :
      (o : Outside) (now : ℕ) (w : World)
      → IsTerminal id w
      → IsTerminal id (process_releases o now w).1
  unfolding process_releases
  process_releases-keeps o now w (rest, free) =
      release_each-keeps o now (expired_batch now w.escrows)
        (record { released = 0; failed = 0 }, w)
        (every-take (unnamed id) 10 (sort_by_unlock (select (is_expired now) w.escrows)) (
          every-sort (unnamed id) (select (is_expired now) w.escrows) (
            every-select (unnamed id) (is_expired now) (unnamed id) w.escrows (λ e h expired. h)
              free)))
        (rest, free)

  run-keeps :
      (o : Outside) (c : Command) (w : World)
      → spares id c ≡ true
      → IsTerminal id w
      → IsTerminal id (run o c w)
  unfolding run process_payment_webhook
  run-keeps o (Command.move now ctx p) w s h = Kept-left_by _ (transition-keeps id o now ctx p w h)
  run-keeps o (Command.lock now ctx p) w s h = Kept-left_by _ (lock_escrow-keeps id o now ctx p w h)
  run-keeps o (Command.release now ctx p) w s h =
      Kept-left_by _ (release_escrow-keeps id o now ctx p w (negated _ s) h)
  run-keeps o (Command.cancel ctx p) w s h =
      Kept-left_by _ (cancel_escrow-keeps id o ctx p w (negated _ s) h)
  run-keeps o (Command.tikin_lock ctx p) w s h =
      Kept-left_by _ (tikin_lock_escrow-keeps id o ctx p w h)
  run-keeps o (Command.tikin_release now ctx p) w s h =
      Kept-left_by _ (tikin_release_escrow-keeps id o now ctx p w (negated _ s) h)
  run-keeps o (Command.tikin_cancel ctx p) w s h =
      Kept-left_by _ (tikin_cancel_escrow-keeps id o ctx p w (negated _ s) h)
  run-keeps o (Command.transfer now ctx p) w s h =
      Kept-left_by _ (initiate_transfer-keeps id o now ctx p w h)
  run-keeps o (Command.webhook lookup tenant n) w s h =
      Kept-left_by _ (process_identified-keeps id lookup tenant (payment_id_of n) w h)
  run-keeps o (Command.work now) w s h = process_releases-keeps o now w h

-- An archived or burned asset that no escrow row is for stays so, whatever calls and runs of the
-- worker follow, by whichever tenant, as long as no release or cancellation names the asset.
pub run_all-IsTerminal :
    (o : Outside) (id : String) (cs : List Command) (w : World)
    → every (spares id) cs ≡ true
    → IsTerminal id w
    → IsTerminal id (run_all o cs w)
unfolding run_all
run_all-IsTerminal o id [] w s h = h
run_all-IsTerminal o id (c ∷ cs) w s h =
    run_all-IsTerminal o id cs (run o c w) (ground arith) (run-keeps id o c w (ground arith) h)
