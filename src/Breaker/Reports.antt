-- ===== src/Breaker/Reports.antt =====
-- What a global pause reports.
use qc_backend.Base.{String, Option, none, true, ◌≡◌, ◌⊎◌, refl, map, inl, inr}
use qc_backend.Breaker.Service.{
  algorand, ethereum, polygon, solana, stellar, ChainStatus, World, Outside, Fault, Toggled,
  stopped, lost, settled, toggle_evm_chain, pause_all_chains, is_chain_paused, get_all_statuses,
}

pub Toggled-cases :
    (r : Toggled)
    → ((e : Fault) × (r ≡ stopped e)) ⊎ ((r ≡ lost) ⊎ ((hash : Option String) × (r ≡ settled hash)))
Toggled-cases (stopped e) = inl (e, refl)
Toggled-cases lost = inr (inl refl)
Toggled-cases (settled hash) = inr (inr (hash, refl))

abbrev pub without_hash : ChainStatus → ChainStatus
without_hash s = record s { tx_hash = none }

-- A global pause pauses every chain that is no EVM chain, and what it returns, but for the hashes of
-- transactions, are the states that the chains have afterwards.
pub pause_all_chains-reports :
    (o : Outside) (by : String) (w : World)
    → (map without_hash (pause_all_chains o by w).0 ≡ get_all_statuses (pause_all_chains o by w).1)
      × (is_chain_paused algorand (pause_all_chains o by w).1 ≡ true)
      × (is_chain_paused solana (pause_all_chains o by w).1 ≡ true)
      × (is_chain_paused stellar (pause_all_chains o by w).1 ≡ true)
unfolding pause_all_chains get_all_statuses is_chain_paused
pause_all_chains-reports o by w =
    elim (Toggled-cases (toggle_evm_chain o ethereum (w.contract_paused ethereum))) [
      | inl (a, first) ↦
          elim (Toggled-cases (toggle_evm_chain o polygon (w.contract_paused polygon))) [
            | inl (b, second) ↦ rw (first, second) (refl, refl, refl, refl)
            | inr (inl second) ↦ rw (first, second) (refl, refl, refl, refl)
            | inr (inr (b, second)) ↦ rw (first, second) (refl, refl, refl, refl)
          ]
      | inr (inl first) ↦
          elim (Toggled-cases (toggle_evm_chain o polygon (w.contract_paused polygon))) [
            | inl (b, second) ↦ rw (first, second) (refl, refl, refl, refl)
            | inr (inl second) ↦ rw (first, second) (refl, refl, refl, refl)
            | inr (inr (b, second)) ↦ rw (first, second) (refl, refl, refl, refl)
          ]
      | inr (inr (a, first)) ↦
          elim (Toggled-cases (toggle_evm_chain o polygon (w.contract_paused polygon))) [
            | inl (b, second) ↦ rw (first, second) (refl, refl, refl, refl)
            | inr (inl second) ↦ rw (first, second) (refl, refl, refl, refl)
            | inr (inr (b, second)) ↦ rw (first, second) (refl, refl, refl, refl)
          ]
    ]
