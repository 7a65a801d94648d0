-- ===== src/Device/Runs.antt =====
-- Every step on devices keeps the accepted counters of a device growing.
use qc_backend.Base.{
  ℕ, String, List, [], ◌∷◌, Option, some, none, Bool, true, false, not, ◌||◌, leb, nat_eq, ◌==◌,
  ◌≡◌, refl, any, find_first, is_empty, nat_has_eq, string_has_eq, arith, Bool-cases, Option-cases,
  inl, inr, Kept, finished, failed, Kept-left_by, Kept-then, Kept-rolled, Kept-raise_if,
  Kept-or_raise, Result, err,
}
use qc_backend.Device.Types.{
  replay_blocked, cmac_invalid, Device, DeviceAsset, World, Fault, unique_constraint,
  missing_parameters, asset_not_found, foreign_asset, already_linked, race_condition,
  context_failed, Tap, Outside, StoredKey,
}
use qc_backend.Device.Cmac.{validate_sun_cmac}
use qc_backend.Device.Keys.{encrypt_json}
use qc_backend.Device.Guard.{
  Answer, Checked, refuse, checked_counter, check_device, check_tap, session_key, linked_asset,
  log_tap, caught, commit_tap, with_context, after_commit, after_check, validate_and_record_tap,
}
use qc_backend.Device.Registry.{create_device, register_device, provision_device, is_linked}
use qc_backend.Device.Replay.{IsGuarded, write_tap-IsGuarded, log_tap-IsGuarded}
use qc_backend.Device.Steps.{Step, run_step, run_steps}

module _ (id : ℕ) where
  refuse-IsGuarded :
      (d : Device) (p : Tap) (w : World)
      → IsGuarded id w
      → Kept (IsGuarded id) (λ _. Unit {0}) (refuse d cmac_invalid p w)
        × Kept (IsGuarded id) (λ _. Unit {0}) (refuse d replay_blocked p w)
  refuse-IsGuarded d p w h = (
    Kept-then _ (log_tap d.id false cmac_invalid p w)
        (log_tap-IsGuarded id d.id false cmac_invalid p w refl h) λ _ w h _. finished h tt,
    Kept-then _ (log_tap d.id false replay_blocked p w)
        (log_tap-IsGuarded id d.id false replay_blocked p w refl h) λ _ w h _. finished h tt,
  )

  caught-IsGuarded :
      (d : Device) (p : Tap) (r : Result Fault (Unit {0}) × World)
      → Kept (IsGuarded id) (λ _. Unit {0}) r
      → Kept (IsGuarded id) (λ _. Unit {0}) (caught d p r)
  caught-IsGuarded d p _ (finished h q) = finished h tt
  caught-IsGuarded d p (err race_condition, w) (failed h) =
      Kept-then _ (log_tap d.id true replay_blocked p w)
        (log_tap-IsGuarded id d.id true replay_blocked p w refl h) λ _ w h _. finished h tt
  caught-IsGuarded d p (err unique_constraint, w) (failed h) = failed h
  caught-IsGuarded d p (err missing_parameters, w) (failed h) = failed h
  caught-IsGuarded d p (err asset_not_found, w) (failed h) = failed h
  caught-IsGuarded d p (err foreign_asset, w) (failed h) = failed h
  caught-IsGuarded d p (err already_linked, w) (failed h) = failed h
  caught-IsGuarded d p (err context_failed, w) (failed h) = failed h

  commit_tap-IsGuarded :
      (d : Device) (p : Tap) (w : World)
      → IsGuarded id w
      → Kept (IsGuarded id) (λ _. Unit {0}) (commit_tap d p w)
  unfolding commit_tap
  commit_tap-IsGuarded d p w h = caught-IsGuarded d p _ (write_tap-IsGuarded id d p w h)

  checked_counter-IsGuarded :
      (o : Outside) (b : Bool) (d : Device) (a : Option DeviceAsset) (p : Tap) (w : World)
      → IsGuarded id w
      → Kept (IsGuarded id) (λ _. Unit {0}) (checked_counter o b d a p w)
  checked_counter-IsGuarded o true d a p w h = (refuse-IsGuarded d p w h).1
  checked_counter-IsGuarded o false d a p w h =
      elim (Bool-cases (validate_sun_cmac o (session_key o d.master_key) p)) [
        | inl good ↦ rw good (finished h tt)
        | inr bad ↦ rw bad (refuse-IsGuarded d p w h).0
      ]

  check_device-IsGuarded :
      (o : Outside) (p : Tap) (found : Option Device) (assets : List DeviceAsset) (w : World)
      → IsGuarded id w
      → Kept (IsGuarded id) (λ _. Unit {0}) (check_device o p found assets w)
  check_device-IsGuarded o p none assets w h = finished h tt
  check_device-IsGuarded o p (some d) assets w h =
      elim (Bool-cases (not (d.tenant_id == p.tenant_id))) [
        | inl foreign ↦ rw foreign (finished h tt)
        | inr own ↦ elim (Bool-cases (not d.is_active)) [
          | inl inactive ↦ rw (own, inactive) (finished h tt)
          | inr live ↦
              rw (own, live)
                (checked_counter-IsGuarded o (leb p.ctr d.last_counter) d (linked_asset d.id assets)
                  p w h)
        ]
      ]

  check_tap-IsGuarded :
      (o : Outside) (p : Tap) (w : World)
      → IsGuarded id w
      → Kept (IsGuarded id) (λ _. Unit {0}) (check_tap o p w)
  unfolding check_tap
  check_tap-IsGuarded o p w h = check_device-IsGuarded o p _ w.assets w h

  with_context-IsGuarded :
      (o : Outside) (a : Option DeviceAsset) (w : World)
      → IsGuarded id w
      → Kept (IsGuarded id) (λ _. Unit {0}) (with_context o a w)
  with_context-IsGuarded o none w h = finished h tt
  with_context-IsGuarded o (some a) w h = elim (Option-cases (o.route_asset_read a.id)) [
    | inl missing ↦ rw missing (failed h)
    | inr (view, found) ↦ rw found (finished h tt)
  ]

  after_commit-IsGuarded :
      (o : Outside) (a : Option DeviceAsset) (ended : Option Answer) (w : World)
      → IsGuarded id w
      → Kept (IsGuarded id) (λ _. Unit {0}) (after_commit o a ended w)
  after_commit-IsGuarded o a (some answer) w h = finished h tt
  after_commit-IsGuarded o a none w h = with_context-IsGuarded o a w h

  after_check-IsGuarded :
      (o : Outside) (p : Tap) (c : Checked) (w : World)
      → IsGuarded id w
      → Kept (IsGuarded id) (λ _. Unit {0}) (after_check o p c w)
  after_check-IsGuarded o p (Checked.stop a) w h = finished h tt
  after_check-IsGuarded o p (Checked.go d a) w h =
      Kept-then _ (commit_tap d p w) (commit_tap-IsGuarded d p w h)
        λ ended w h _. after_commit-IsGuarded o a ended w h

  validate_and_record_tap-IsGuarded :
      (o : Outside) (p : Tap) (w : World)
      → IsGuarded id w
      → Kept (IsGuarded id) (λ _. Unit {0}) (validate_and_record_tap o p w)
  unfolding validate_and_record_tap
  validate_and_record_tap-IsGuarded o p w h =
      Kept-then _ (check_tap o p w) (check_tap-IsGuarded o p w h)
        λ c w h _. after_check-IsGuarded o p c w h

  create_device-IsGuarded :
      (uid tenant : String) (counter : ℕ) (key : Option StoredKey) (w : World)
      → IsGuarded id w
      → Kept (IsGuarded id) (λ _. Unit {0}) (create_device uid tenant counter key w)
  unfolding create_device
  create_device-IsGuarded uid tenant counter key w h =
      elim (Bool-cases (any (λ (d : Device). d.uid == uid) w.devices)) [
        | inl taken ↦ rw taken (failed h)
        | inr free ↦
            let (falls, covered, drawn) = h in
            let other : nat_eq w.next_id id ≡ false = ground arith in
            rw free (finished (falls, rw other covered, ground arith) tt)
      ]

  register_device-IsGuarded :
      (o : Outside) (tenant uid : String) (counter : Option ℕ) (w : World)
      → IsGuarded id w
      → Kept (IsGuarded id) (λ _. Unit {0}) (register_device o tenant uid counter w)
  unfolding register_device
  register_device-IsGuarded o tenant uid none w h = create_device-IsGuarded _ tenant 0 none w h
  register_device-IsGuarded o tenant uid (some c) w h = create_device-IsGuarded _ tenant c none w h

  provision_device-IsGuarded :
      (o : Outside) (asset_id tenant uid key : String) (w : World)
      → IsGuarded id w
      → Kept (IsGuarded id) (λ _. Unit {0}) (provision_device o asset_id tenant uid key w)
  unfolding provision_device
  provision_device-IsGuarded o asset_id tenant uid key w h =
      Kept-then _ _
        (Kept-raise_if (is_empty asset_id || (is_empty tenant || (is_empty uid || is_empty key)))
          missing_parameters w h)
        λ _ w h _. Kept-rolled w _ h (
          Kept-then _ _
            (Kept-or_raise (find_first (λ (a : DeviceAsset). a.id == asset_id) w.assets)
              asset_not_found w h)
            λ a w h _.
              Kept-then _ _ (Kept-raise_if (not (a.tenant_id == tenant)) foreign_asset w h)
                λ _ w h _.
                  Kept-then _ _ (Kept-raise_if (is_linked a.device_id) already_linked w h)
                    λ _ w h _.
                      Kept-then _ _
                        (create_device-IsGuarded uid tenant 0 (some (encrypt_json o key)) w h)
                        λ d w h _. finished h tt)

  run_step-IsGuarded :
      (o : Outside) (s : Step) (w : World) → IsGuarded id w → IsGuarded id (run_step o s w)
  unfolding run_step
  run_step-IsGuarded o (Step.whole p) w h =
      Kept-left_by _ (validate_and_record_tap-IsGuarded o p w h)
  run_step-IsGuarded o (Step.check p) w h = Kept-left_by _ (check_tap-IsGuarded o p w h)
  run_step-IsGuarded o (Step.commit d p) w h = Kept-left_by _ (commit_tap-IsGuarded d p w h)
  run_step-IsGuarded o (Step.register tenant uid c) w h =
      Kept-left_by _ (register_device-IsGuarded o tenant uid c w h)
  run_step-IsGuarded o (Step.provision asset_id tenant uid key) w h =
      Kept-left_by _ (provision_device-IsGuarded o asset_id tenant uid key w h)

-- Whatever calls run, and however the checks and the writes of taps interleave, the counters that
-- were accepted for a device grow strictly, so that none is accepted twice, and no row of the device
-- is behind them, if this holds at the start.
pub run_steps-IsGuarded :
    (o : Outside) (id : ℕ) (ss : List Step) (w : World)
    → IsGuarded id w
    → IsGuarded id (run_steps o ss w)
unfolding run_steps
run_steps-IsGuarded o id [] w h = h
run_steps-IsGuarded o id (s ∷ ss) w h =
    run_steps-IsGuarded o id ss (run_step o s w) (run_step-IsGuarded id o s w h)
