-- ===== src/Asset/Closing/Runs.antt =====
-- The escrow worker and every run of commands leave a closed escrow closed.
use qc_backend.Base.{
  Kept-left_by, left_by, every, every-select, every-take, ℕ, String, List, [], ◌∷◌, Bool, true,
  false, not, ◌==◌, ◌≡◌, refl, select, string_has_eq, arith, ok, err, Result,
}
use qc_backend.Asset.Types.{EscrowRow, EscrowStatus, World, Outside, Fault}
use qc_backend.Asset.Rows.{is_closed}
use qc_backend.Asset.Commands.{Command, run, run_all}
use qc_backend.Asset.Escrow.{
  is_admin, is_operator, is_auto, escrow_worker_key, lock_escrow, release_escrow, cancel_escrow,
  lock_transition, closing, row_of, released_row, cancelled_row,
}
use qc_backend.Asset.Escrow
use qc_backend.Asset.Billing.{process_payment_webhook, payment_id_of}
use qc_backend.Asset.Worker.{
  is_active_escrow, is_expired, insert_by_unlock, sort_by_unlock, expired_batch, worker_context,
  mark, settle, release_one, release_each, process_releases, Tally,
}
use qc_backend.Asset.Closing.{IsClosed, names, closed_if, IsClosed-rewrite}
use qc_backend.Asset.Closing.Escrows.{
  lock_escrow-keeps, tikin_lock_escrow-keeps, release_escrow-keeps, cancel_escrow-keeps,
  tikin_release_escrow-keeps, tikin_cancel_escrow-keeps,
}
use qc_backend.Asset.Closing.Payments.{
  transition-keeps, initiate_transfer-keeps, process_identified-keeps,
}

every-insert :
    (t : EscrowRow → Bool) (e : EscrowRow) (es : List EscrowRow)
    → t e ≡ true
    → every t es ≡ true
    → every t (insert_by_unlock e es) ≡ true
every-insert t e [] h k = ground arith
every-insert t e (x ∷ xs) h k = let rest = every-insert t e xs h in ground arith

pub every-sort :
    (t : EscrowRow → Bool) (es : List EscrowRow)
    → every t es ≡ true
    → every t (sort_by_unlock es) ≡ true
every-sort t [] h = refl
every-sort t (e ∷ es) h =
    every-insert t e (sort_by_unlock es) (ground arith) (every-sort t es (ground arith))

is_closed-active : (s : EscrowStatus) → is_active_escrow s ≡ true → is_closed s ≡ false
is_closed-active EscrowStatus.active h = refl
is_closed-active EscrowStatus.pending h = refl
is_closed-active EscrowStatus.processing h = refl
is_closed-active EscrowStatus.expired h = refl
is_closed-active EscrowStatus.released h = cc
is_closed-active EscrowStatus.cancelled h = cc

module _ (id : String) where
  -- The worker marks rows that it found open, and releases them.
  mark-keeps :
      (other : String) (status : EscrowStatus) (w : World)
      → (other == id) ≡ false
      → IsClosed id w
      → IsClosed id (mark other status w)
  mark-keeps other status w differs h = IsClosed-rewrite id other _ w (λ _. refl) differs h

  settle-keeps :
      (e : EscrowRow) (t : Tally) (r : Result Fault Escrow.EscrowReply × World)
      → (e.escrow_id == id) ≡ false
      → IsClosed id (left_by r)
      → IsClosed id (settle e t r).1
  settle-keeps e t (ok reply, w) differs h = h
  settle-keeps e t (err fault, w) differs h = mark-keeps e.escrow_id _ w differs h

  release_one-keeps :
      (o : Outside) (now : ℕ) (e : EscrowRow) (t : Tally) (w : World)
      → (e.escrow_id == id) ≡ false
      → IsClosed id w
      → IsClosed id (release_one o now e (t, w)).1
  unfolding release_one
  release_one-keeps o now e t w differs h = settle-keeps e t _ differs (
      Kept-left_by _ (
        release_escrow-keeps id o now (worker_context e) _ _
          (mark-keeps e.escrow_id _ w differs h)))

  release_each-keeps :
      (o : Outside) (now : ℕ) (es : List EscrowRow) (s : Tally × World)
      → every (λ e. not (names id e)) es ≡ true
      → IsClosed id s.1
      → IsClosed id (release_each o now es s).1
  unfolding release_each
  release_each-keeps o now [] s others h = h
  release_each-keeps o now (e ∷ es) (t, w) others h =
      release_each-keeps o now es (release_one o now e (t, w)) (ground arith)
        (release_one-keeps o now e t w (ground arith) h)

  expired-differs :
      (now : ℕ) (e : EscrowRow)
      → closed_if id e ≡ true
      → is_expired now e ≡ true
      → not (names id e) ≡ true
  expired-differs now e closed expired = let still = is_closed-active e.status in ground arith

  process_releases-keeps :
      (o : Outside) (now : ℕ) (w : World) → IsClosed id w → IsClosed id (process_releases o now w).1
  unfolding process_releases
  process_releases-keeps o now w (there, closed) =
      release_each-keeps o now (expired_batch now w.escrows)
        (record { released = 0; failed = 0 }, w)
        (every-take (λ e. not (names id e)) 10 (sort_by_unlock (select (is_expired now) w.escrows))
          (every-sort (λ e. not (names id e)) (select (is_expired now) w.escrows)
            (every-select (closed_if id) (is_expired now) (λ e. not (names id e)) w.escrows
              (expired-differs now) closed)))
        (there, closed)

  run-keeps : (o : Outside) (c : Command) (w : World) → IsClosed id w → IsClosed id (run o c w)
  unfolding run process_payment_webhook
  run-keeps o (Command.move now ctx p) w h = Kept-left_by _ (transition-keeps id o now ctx p w h)
  run-keeps o (Command.lock now ctx p) w h = Kept-left_by _ (lock_escrow-keeps id o now ctx p w h)
  run-keeps o (Command.release now ctx p) w h =
      Kept-left_by _ (release_escrow-keeps id o now ctx p w h)
  run-keeps o (Command.cancel ctx p) w h = Kept-left_by _ (cancel_escrow-keeps id o ctx p w h)
  run-keeps o (Command.tikin_lock ctx p) w h =
      Kept-left_by _ (tikin_lock_escrow-keeps id o ctx p w h)
  run-keeps o (Command.tikin_release now ctx p) w h =
      Kept-left_by _ (tikin_release_escrow-keeps id o now ctx p w h)
  run-keeps o (Command.tikin_cancel ctx p) w h =
      Kept-left_by _ (tikin_cancel_escrow-keeps id o ctx p w h)
  run-keeps o (Command.transfer now ctx p) w h =
      Kept-left_by _ (initiate_transfer-keeps id o now ctx p w h)
  run-keeps o (Command.webhook lookup tenant n) w h =
      Kept-left_by _ (process_identified-keeps id lookup tenant (payment_id_of n) w h)
  run-keeps o (Command.work now) w h = process_releases-keeps o now w h

-- An escrow that is released or cancelled stays so, whatever calls and runs of the worker follow,
-- by whichever tenant.
pub run_all-IsClosed :
    (o : Outside) (id : String) (cs : List Command) (w : World)
    → IsClosed id w
    → IsClosed id (run_all o cs w)
unfolding run_all
run_all-IsClosed o id [] w h = h
run_all-IsClosed o id (c ∷ cs) w h = run_all-IsClosed o id cs (run o c w) (run-keeps id o c w h)
