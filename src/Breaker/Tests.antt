-- ===== src/Breaker/Tests.antt =====
-- A service whose signatures are all valid: the theorems at inputs that meet their hypotheses.
use qc_backend.Base.{List, [], ◌∷◌, some, true, false, ◌≡◌, refl, map}
use qc_backend.Breaker.Service.{
  algorand, ethereum, solana, stellar, active, World, Outside, confirmed, unconfirmed,
  pause_all_chains, is_chain_paused, get_all_statuses,
}
use qc_backend.Breaker.Reports.{without_hash, pause_all_chains-reports}
use qc_backend.Breaker.Runs.{Step, is_halted, run_steps, run_steps-is_halted}

abbrev outside : Outside
outside = record {
  admin_pubkey = some "key";
  is_production = true;
  verify_signature = λ action chain signature key. true;
  has_adapter = λ chain. true;
  facet_address = λ chain. some "0x1";
  answers = λ chain. true;
  toggle_pause = λ chain address. confirmed "0xhash";
}

-- The pause is mined, but its confirmation does not come.
abbrev losing : Outside
losing = record outside { toggle_pause = λ chain address. unconfirmed }

abbrev all_active : World
all_active = record { chain_states = λ c. active; contract_paused = λ c. false; panic_logs = [] }

pause_all_chains-reports_example :
    (map without_hash (pause_all_chains outside "watchdog" all_active).0
      ≡ get_all_statuses (pause_all_chains outside "watchdog" all_active).1)
    × (is_chain_paused algorand (pause_all_chains outside "watchdog" all_active).1 ≡ true)
    × (is_chain_paused solana (pause_all_chains outside "watchdog" all_active).1 ≡ true)
    × (is_chain_paused stellar (pause_all_chains outside "watchdog" all_active).1 ≡ true)
pause_all_chains-reports_example = pause_all_chains-reports outside "watchdog" all_active

abbrev steps : List (Outside × Step)
steps =
    (outside, Step.stop_one ethereum "s")
    ∷ (outside, Step.restart ethereum "s")
    ∷ (losing, Step.stop_one ethereum "s")
    ∷ (outside, Step.stop_all "watchdog")
    ∷ []

run_steps-is_halted_example : is_halted ethereum (run_steps steps all_active) ≡ true
run_steps-is_halted_example =
    run_steps-is_halted ethereum steps all_active (tt, ((λ a. refl), (tt, (tt, tt)))) refl
