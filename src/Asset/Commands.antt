-- ===== src/Asset/Commands.antt =====
-- Every call on assets and escrows as a command, and runs of commands.
use qc_backend.Base.{left_by, ℕ, String, List, [], ◌∷◌, Option}
use qc_backend.Asset.Types.{Context, World, Outside}
use qc_backend.Asset.Lifecycle.{TransitionRequest, transition}
use qc_backend.Asset.Escrow.{lock_escrow, release_escrow, cancel_escrow}
use qc_backend.Asset.Escrow
use qc_backend.Asset.Tikin
use qc_backend.Asset.Worker.{process_releases}
use qc_backend.Asset.Transfer.{TransferRequest, initiate_transfer}
use qc_backend.Asset.Billing.{Payment, Notice, process_payment_webhook}

pub data Command : Type 0 where
  move : (now : ℕ) (ctx : Context) (p : TransitionRequest) → Command
  lock : (now : ℕ) (ctx : Context) (p : Escrow.LockRequest) → Command
  release : (now : ℕ) (ctx : Context) (p : Escrow.CloseRequest) → Command
  cancel : (ctx : Context) (p : Escrow.CloseRequest) → Command
  tikin_lock : (ctx : Context) (p : Tikin.LockRequest) → Command
  tikin_release : (now : ℕ) (ctx : Context) (p : Tikin.CloseRequest) → Command
  tikin_cancel : (ctx : Context) (p : Tikin.CloseRequest) → Command
  transfer : (now : ℕ) (ctx : Context) (p : TransferRequest) → Command
  webhook : (lookup : String → Option Payment) (tenant : Option String) (n : Notice) → Command
  work : (now : ℕ) → Command

unfoldable pub run : Outside → Command → World → World
run o (move now ctx p) w = left_by (transition o now ctx p w)
run o (lock now ctx p) w = left_by (lock_escrow o now ctx p w)
run o (release now ctx p) w = left_by (release_escrow o now ctx p w)
run o (cancel ctx p) w = left_by (cancel_escrow o ctx p w)
run o (tikin_lock ctx p) w = left_by (Tikin.lock_escrow o ctx p w)
run o (tikin_release now ctx p) w = left_by (Tikin.release_escrow o now ctx p w)
run o (tikin_cancel ctx p) w = left_by (Tikin.cancel_escrow o ctx p w)
run o (transfer now ctx p) w = left_by (initiate_transfer o now ctx p w)
run o (webhook lookup tenant n) w = left_by (process_payment_webhook lookup tenant n w)
run o (work now) w = (process_releases o now w).1

unfoldable pub run_all : Outside → List Command → World → World
run_all o [] w = w
run_all o (c ∷ cs) w = run_all o cs (run o c w)
