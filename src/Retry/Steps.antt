-- ===== src/Retry/Steps.antt =====
-- Runs of the queue: rounds, single attempts of other workers from whatever row they have read, and
-- new transactions.
use qc_backend.Base.{ℕ, String, List, [], ◌∷◌, Option}
use qc_backend.Retry.Types.{TxType, Payload, PendingTx, World, Outside}
use qc_backend.Retry.Worker.{Tally, process_one, process_retries, enqueue}

pub data Step : Type 0 where
  round : (now : ℕ) → Step
  attempt : (now : ℕ) (t : PendingTx) → Step
  add :
      (now : ℕ) (tenant tx_ref : String) (tx_type : TxType) (chain : String) (payload : Payload)
      (error : Option String)
      → Step

abbrev pub no_tally : Tally
no_tally = record { processed = 0; succeeded = 0; failed = 0; dlq = 0 }

unfoldable pub run_step : Outside → Step → World → World
run_step o (Step.round now) w = (process_retries o now w).1
run_step o (Step.attempt now t) w = (process_one o now t (no_tally, w)).1
run_step o (Step.add now tenant tx_ref tx_type chain payload error) w =
    enqueue now tenant tx_ref tx_type chain payload error w

unfoldable pub run_steps : Outside → List Step → World → World
run_steps o [] w = w
run_steps o (s ∷ ss) w = run_steps o ss (run_step o s w)
