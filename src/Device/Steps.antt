-- ===== src/Device/Steps.antt =====
-- Runs of the calls on devices, taps interrupted between their check and their write included.
use qc_backend.Base.{ℕ, String, List, [], ◌∷◌, Option, left_by}
use qc_backend.Device.Types.{Device, World, Tap, Outside}
use qc_backend.Device.Guard.{check_tap, commit_tap, validate_and_record_tap}
use qc_backend.Device.Registry.{register_device, provision_device}

-- `check` and `commit` are the two halves of a tap that others interrupt: between them any steps may
-- stand, so that the device of a `commit` is any row that some check may have read before.
pub data Step : Type 0 where
  whole : (p : Tap) → Step
  check : (p : Tap) → Step
  commit : (d : Device) (p : Tap) → Step
  register : (tenant uid : String) (counter : Option ℕ) → Step
  provision : (asset_id tenant uid master_key : String) → Step

unfoldable pub run_step : Outside → Step → World → World
run_step o (Step.whole p) w = left_by (validate_and_record_tap o p w)
run_step o (Step.check p) w = left_by (check_tap o p w)
run_step o (Step.commit d p) w = left_by (commit_tap d p w)
run_step o (Step.register tenant uid counter) w = left_by (register_device o tenant uid counter w)
run_step o (Step.provision asset_id tenant uid key) w =
    left_by (provision_device o asset_id tenant uid key w)

unfoldable pub run_steps : Outside → List Step → World → World
run_steps o [] w = w
run_steps o (s ∷ ss) w = run_steps o ss (run_step o s w)
